-- ===== src/Verifier.antt =====
-- One round of the pair verifier, `run_pair_verifier` of crates/doclinkd/src/store.rs. The poll of a
-- peer, from the look into the registry to the answer, is a parameter; it knows the node id and the
-- fingerprint that the peer is pinned to.
use doc_link.Protocol.{PairStatus, lit}
use doc_link.Store.{ContactsFile, Store, save}
use doc_link.Base.{if◌then◌else◌, ◌==◌, Text, retain, find, Bool, Option, none, some}
use doc_link.Base.{List, [], ◌∷◌, map, text_eq, nat_eq}

-- The ids of the contacts that wait.
unfoldable pub pending_ids : ContactsFile → List Text
pending_ids cs = map (λ c. c.node_id) (retain (λ c. c.status == lit "pending") cs)

-- The label of an answer; any other answer changes nothing.
unfoldable pub answer_label : PairStatus → Option Text
answer_label PairStatus.approved = some (lit "approved")
answer_label PairStatus.denied = some (lit "denied")
answer_label PairStatus.pending = none
answer_label PairStatus.unknown = none

-- `iter_mut().find(…)`: the first contact of the node gets the label.
unfoldable pub relabel_node : Text → Text → ContactsFile → ContactsFile
relabel_node id l [] = []
relabel_node id l (c ∷ cs) =
    let rest = relabel_node id l cs in
    if c.node_id == id then record c { status = l } ∷ cs else c ∷ rest

-- The body for one node; the file is written only for a new label.
unfoldable pub verify_contact :
    (Text → Text → Option PairStatus) → Bool → Store ContactsFile → Text → Store ContactsFile
verify_contact poll writable contacts id = elim (find (λ c. c.node_id == id) contacts.content) [
  | none ↦ contacts
  | some c ↦ elim (poll id c.fingerprint) [
    | none ↦ contacts
    | some status ↦ elim (answer_label status) [
      | none ↦ contacts
      | some l ↦
          if c.status == l
          then contacts
          else (save writable (record contacts { content = relabel_node id l contacts.content })).0
    ]
  ]
]

unfoldable pub verify_all :
    (Text → Text → Option PairStatus) → Bool → Store ContactsFile → List Text → Store ContactsFile
verify_all poll writable contacts [] = contacts
verify_all poll writable contacts (id ∷ ids) =
    verify_all poll writable (verify_contact poll writable contacts id) ids

-- The round: the ids are taken before the first poll.
unfoldable pub verifier_round :
    (Text → Text → Option PairStatus) → Bool → Store ContactsFile → Store ContactsFile
verifier_round poll writable contacts =
    verify_all poll writable contacts (pending_ids contacts.content)
