-- ===== src/Registry/Fresh.antt =====
-- Which peers a snapshot of the registry of crates/doclink-core/src/discovery.rs shows.
use doc_link.Registry.{peer_ttl_secs, Peer, PeerRegistry, snapshot, touch}
use doc_link.Base.Map.{lookup, NodupKeys, lookup-retain, lookup-insert, insert-NodupKeys}
use doc_link.Base.{ltb, if◌then◌else◌, le→ltb, ◌==◌, Text, beq_refl, retain, ℕ, ◌+◌, ◌-◌}
use doc_link.Base.{◌≤◌, ◌≡◌, refl, ◌∙◌, Bool, false, not, none, some, arith, text_eq}
use doc_link.Base.{nat_eq}
use doc_link.Base.Map.{insert}

-- A snapshot at a reading of the clock shows a peer that the registry holds just if it was seen in
-- the last 300 seconds, with what the registry holds of it; and a known peer that was touched at
-- time t shows, as seen at t, in each snapshot up to t + 300, while every other peer is as before.
-- The registry has no two entries for one node, as a hash map has none.
pub snapshot_lem :
    (peers : PeerRegistry) (id : Text) (p : Peer) (t now : ℕ)
    → NodupKeys peers
    → lookup id peers ≡ some p
    → t ≤ now
    → now ≤ t + peer_ttl_secs
    → (lookup id (snapshot peers now)
        ≡ (if not (ltb peer_ttl_secs (now - p.last_seen_unix)) then some p else none))
      × (lookup id (snapshot (touch peers id t) now) ≡ some (record p { last_seen_unix = t }))
      × ((j : Text) → (id == j) ≡ false → lookup j (touch peers id t) ≡ lookup j peers)
unfolding snapshot touch
snapshot_lem peers id p t now u found lo hi =
    let fresh : Text × Peer → Bool = λ e. not (ltb peer_ttl_secs (now - e.1.last_seen_unix)) in
    let seen : Peer = record p { last_seen_unix = t } in
    let touched : lookup id (insert id seen peers) ≡ some seen =
      lookup-insert id id seen peers ∙ rw (beq_refl id) refl in
    let shown : lookup id (retain fresh (insert id seen peers)) ≡ some seen =
      rw
        (
          lookup-retain fresh id seen (insert id seen peers) (insert-NodupKeys id seen peers u)
              touched,
          le→ltb peer_ttl_secs (now - t) (omega arith),
        )
        refl in
    (
      lookup-retain fresh id p peers u found,
      rw (found, touch) shown,
      λ j ne. rw (found, touch) (lookup-insert j id seen peers ∙ rw ne refl),
    )
