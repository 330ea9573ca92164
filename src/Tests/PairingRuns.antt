-- ===== src/Tests/PairingRuns.antt =====
-- Runs of the pairing: alice asks bob, and bob answers.
use doc_link.Tests.{
  toy, bob, grants_store, repeated, alice_request, alice_decision, queue, idle-IsBounded, waiting,
}
use doc_link.Protocol.{PairRequest, PairDecision, PairStatus, PairStatusResponse, HttpError, lit}
use doc_link.Identity.{fingerprint_from_pubkey_hex}
use doc_link.Store.{Grant, Contact, is_live}
use doc_link.Store.Grants.{OnePerFingerprint, find_fingerprint}
use doc_link.Pairing.{response, expiry, unwrap_or, apply_decision_with_perms}
use doc_link.Pairing.Handlers.{checked_request, pair_request, pair_decision, decided_status, label}
use doc_link.Pairing.Answers.{Keeps, pair_request_lem}
use doc_link.Pairing.Grantor.{IsFromContact, IsRelabelled, IsRemembered, pair_decision_lem}
use doc_link.Pairing.Decisions.{
  apply_decision-deny, apply_decision-approve, apply_decision-loses_request,
}
use doc_link.Pairing.Bounded.{IsBounded}
use doc_link.RateLimit.{Buckets}
use doc_link.RateLimit.Bound.{allowed, allowed-le}
use doc_link.Base.Map.{lookup, contains_key}
use doc_link.Base.Results.{ok, err}
use doc_link.Base.{leb, if◌then◌else◌, ◌==◌, Text, length, take, find, Elem, ◌≤◌, ◌≡◌, refl}
use doc_link.Base.{◌⊎◌, true, false, not, ◌&&◌, Option, none, some, [], ◌∷◌, arith, text_eq}
use doc_link.Base.{nat_eq}
use doc_link.Base.{text_beq, ℕ, List}

abbrev parsed : Text → Option PairRequest
parsed body = some alice_request

abbrev parsed_decision : Text → Option PairDecision
parsed_decision body = some alice_decision

pair_request_lem_example :
    let (t, answer) = pair_request toy parsed bob [] 600 in
    Keeps bob t
    × ((resp : PairStatusResponse)
        → answer ≡ ok resp
        → (req : PairRequest) × (fp : Text) × (checked_request toy parsed [] ≡ ok (req, fp))
          × (((g : Grant) × Elem g bob.grants.content
                × (g.fingerprint ≡ fp)
                × (is_live 600 g.expires_unix ≡ true)
                × (resp ≡ response PairStatus.approved g.expires_unix))
              ⊎ ((resp ≡ response PairStatus.pending none)
                  × (lookup req.node_id t.pairing.pending
                      ≡ some (record { request = req; received_unix = 600 })))))
pair_request_lem_example = pair_request_lem toy parsed bob [] 600 idle-IsBounded

pair_decision_lem_example :
    let (t, answer) = pair_decision toy parsed_decision bob [] 600 true in
    (t ≡ record bob {
      pairing = record bob.pairing { decisions = t.pairing.decisions };
      contacts = t.contacts;
    })
    × IsBounded t.pairing
    × (((e : HttpError) × (answer ≡ err e) × (t ≡ bob))
        ⊎ ((d : PairDecision) × (fp : Text) × (c : Contact) × (answer ≡ ok tt)
            × (parsed_decision [] ≡ some d)
            × IsFromContact toy bob d fp
            × IsRemembered bob.node.node_id
                (response (decided_status d.decision) (expiry 600 d.duration_secs), 600)
                []
                t.pairing.decisions
            × IsRelabelled fp
                (label (decided_status d.decision))
                bob.contacts.content
                c
                t.contacts.content
            × (t.contacts.on_disk ≡ (
                if true && not (c.status == label (decided_status d.decision))
                then some t.contacts.content
                else bob.contacts.on_disk))))
pair_decision_lem_example = pair_decision_lem toy parsed_decision bob [] 600 true idle-IsBounded

apply_decision-deny_example :
    let (q, stored, answer) =
      apply_decision_with_perms toy queue grants_store
        (repeated 16 b'a')
        (lit "deny")
        3600
        none
        none
        700
        true in
    ((j : Text)
      → lookup j q.pending ≡ (if (repeated 16 b'a') == j then none else lookup j queue.pending))
    × (lookup (repeated 16 b'a') q.decisions ≡ some (response PairStatus.denied none, 700))
    × (stored ≡ grants_store)
    × (answer ≡ ok (response PairStatus.denied none))
unfolding lookup doc_link.Base.text_beq lit
apply_decision-deny_example =
    apply_decision-deny toy queue grants_store (repeated 16 b'a') (lit "deny") 3600 none none 700
      true waiting refl refl

apply_decision-approve_example :
    let (q, stored, answer) =
      apply_decision_with_perms toy queue grants_store
        (repeated 16 b'a')
        (lit "approve")
        3600
        none
        none
        700
        true in
    let g : Grant = record {
      fingerprint = (repeated 32 b'a');
      node_id = waiting.request.node_id;
      name = waiting.request.name;
      granted_unix = 700;
      expires_unix = expiry 700 3600;
      paths = [];
      allow_files = unwrap_or true none;
      allow_print = unwrap_or false none;
    } in
    (lookup (repeated 16 b'a') q.pending ≡ none)
    × ((x : Text)
        → find_fingerprint x stored.content
          ≡ (if (repeated 32 b'a') == x then some g else find_fingerprint x grants_store.content))
    × OnePerFingerprint stored.content
    × (stored.on_disk ≡ some stored.content)
    × (answer ≡ ok (response PairStatus.approved (expiry 700 3600)))
unfolding lookup doc_link.Base.text_beq lit fingerprint_from_pubkey_hex find
apply_decision-approve_example =
    apply_decision-approve toy queue grants_store (repeated 16 b'a') (lit "approve") 3600 none none
      700 true waiting refl (repeated 32 b'a') refl refl refl refl (refl, tt)

apply_decision-loses_request_example :
    let (q, stored, answer) =
      apply_decision_with_perms toy queue grants_store
        (repeated 16 b'a')
        (lit "approve")
        3600
        (some false)
        none
        700
        true in
    (stored ≡ grants_store)
    × (answer ≡ err (lit "grant must allow at least files or printing"))
    × (apply_decision_with_perms toy q stored (repeated 16 b'a') (lit "deny") 0 none none 800 true
        ≡ (q, stored, err (lit "no pending request from this node")))
unfolding lookup doc_link.Base.text_beq lit
apply_decision-loses_request_example =
    apply_decision-loses_request toy queue grants_store (repeated 16 b'a') (lit "approve") 3600
      (some false) none 700 true waiting refl refl refl (lit "deny") 0 none none 800 true

abbrev caller : Text
caller = 1 ∷ []

abbrev calls : List (Text × ℕ)
calls = (1 ∷ [], 110) ∷ (2 ∷ [], 120) ∷ (1 ∷ [], 159) ∷ []

abbrev buckets : Buckets
buckets = (1 ∷ [], (3, 90)) ∷ []

allowed-le_example : allowed buckets caller calls ≤ (if contains_key caller buckets then 40 else 20)
unfolding lookup text_beq
allowed-le_example =
    allowed-le caller 100 calls buckets (omega arith)
      ((omega arith, omega arith), ((omega arith, omega arith), ((omega arith, omega arith), tt)))
