-- ===== src/Tests/StoreRuns.antt =====
-- Runs of the stores, the events and the owner's changes.
use doc_link.Tests.{alice_grant, grants_store, alice_contact, repeated}
use doc_link.Protocol.{http_error, lit}
use doc_link.Store.{Grant, GrantsFile, ContactsFile, is_live}
use doc_link.Store.Grants.{OnePerFingerprint, find_fingerprint}
use doc_link.Events.{Events, no_events, push, since}
use doc_link.Events.Ring.{IsRing, CountsFrom, no_events-IsRing, push-IsRing, since_complete}
use doc_link.GrantAdmin.{update_grant}
use doc_link.GrantAdmin.Laws.{IsUpdated, update_grant_lem}
use doc_link.Registry.{Peer, PeerRegistry}
use doc_link.Sweeper.{sweep}
use doc_link.Sweeper.Round.{sweep_lem}
use doc_link.Store.{Store}
use doc_link.Base.Results.{err}
use doc_link.Base.{ltb, if◌then◌else◌, ◌==◌, Text, length, All, ◌+◌, ◌-◌, ◌≤◌, min, ◌≡◌}
use doc_link.Base.{refl, ◌⊎◌, true, false, not, ◌||◌, none, some, List, [], ◌∷◌, arith}
use doc_link.Base.{text_eq, nat_eq}
use doc_link.Base.{text_beq, find}
use doc_link.Base.{max}

abbrev bob_grant : Grant
bob_grant = record alice_grant { fingerprint = repeated 32 b'b'; expires_unix = some 200 }

abbrev two_grants : GrantsFile
two_grants = alice_grant ∷ bob_grant ∷ []

abbrev two_store : Store GrantsFile
two_store = record { content = two_grants; on_disk = none }

abbrev contacts : ContactsFile
contacts = alice_contact ∷ []

abbrev no_paths : List Text
no_paths = []

two_grants_distinct : OnePerFingerprint two_grants
unfolding doc_link.Base.find doc_link.Base.text_beq
two_grants_distinct = (refl, (refl, tt))

abbrev ring : Events
ring = (push no_events (lit "k") (lit "t") (lit "b") 5).0

since_complete_example :
    let start = max 0 (ring.next_id - length ring.items) in
    CountsFrom start (since ring 0) × (length (since ring 0) + start ≡ ring.next_id)
unfolding push
since_complete_example =
    since_complete ring 0 (push-IsRing no_events (lit "k") (lit "t") (lit "b") 5 no_events-IsRing).0
      (omega arith)

update_grant_lem_example :
    let result =
      update_grant grants_store
        (repeated 32 b'a')
        no_paths
        (some false)
        none
        true
        (lit "disk full") in
    ((find_fingerprint (repeated 32 b'a') grants_store.content ≡ none)
      × (result ≡ (grants_store, err (http_error 404 (lit "unknown grant")))))
    ⊎ ((g : Grant) × (find_fingerprint (repeated 32 b'a') grants_store.content ≡ some g)
        × IsUpdated
            (repeated 32 b'a')
            (record g { paths = no_paths; allow_files = false; allow_print = g.allow_print })
            (lit "disk full")
            grants_store
            result)
update_grant_lem_example =
    update_grant_lem grants_store (repeated 32 b'a') no_paths (some false) none true
      (lit "disk full")

abbrev peer : Peer
peer = record {
  node_id = lit "p";
  name = lit "pc";
  addr = lit "10.0.0.2";
  http_port = 37655;
  fingerprint = lit "f";
  last_seen_unix = 600;
}

abbrev registry : PeerRegistry
registry = (lit "p", peer) ∷ []

sweep_lem_example :
    let (ev', swept) = sweep no_events two_store 1000 true in
    IsRing ev'
    × All (λ g. is_live 1000 g.expires_unix ≡ true) swept.content
    × ((fp : Text) (g : Grant)
        → find_fingerprint fp two_store.content ≡ some g
        → find_fingerprint fp swept.content
          ≡ (if is_live 1000 g.expires_unix then some g else none))
sweep_lem_example = sweep_lem no_events two_store 1000 true no_events-IsRing two_grants_distinct
