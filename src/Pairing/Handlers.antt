-- ===== src/Pairing/Handlers.antt =====
-- The pairing endpoints of crates/doclinkd/src/server.rs. What serde_json makes of a body and what
-- urlencoding makes of a node id are parameters; one handler reads the clock once here.
use doc_link.Protocol.{
  PairRequest, PairDecision, PairStatus, PairStatusResponse, HttpError, http_error, lit,
  canonical_request_string, canonical_decision_string,
}
use doc_link.Identity.{Crypto, verify, fingerprint_from_pubkey_hex}
use doc_link.State.{AppState}
use doc_link.Store.{ContactsFile, Store, is_live, save}
use doc_link.Events.{push}
use doc_link.Auth.{verify_signed_headers, reject_replays, map_err}
use doc_link.Pairing.{admit_pending, remember_decision, response, expiry, pair_status_lookup}
use doc_link.Base.Map.{Map, contains_key}
use doc_link.Base.Results.{Result, ok, err, guard, or_err, ◌>>=◌, ◌>>◌}
use doc_link.Base.{if◌then◌else◌, ◌==◌, Text, take, any, find, ℕ, Bool, not, Option}
use doc_link.Base.{none, some, [], ◌∷◌, ◌++◌, text_eq, nat_eq}

-- `group_hex`, of an id in hex digits, where bytes and characters are the same.
unfoldable pub group_hex : Text → Text
group_hex [] = []
group_hex (a ∷ []) = a ∷ []
group_hex (a ∷ b ∷ []) = a ∷ b ∷ []
group_hex (a ∷ b ∷ c ∷ []) = a ∷ b ∷ c ∷ []
group_hex (a ∷ b ∷ c ∷ d ∷ []) = a ∷ b ∷ c ∷ d ∷ []
group_hex (a ∷ b ∷ c ∷ d ∷ e ∷ rest) = a ∷ b ∷ c ∷ d ∷ b'-' ∷ group_hex (e ∷ rest)

-- The checks at the head of `pair_request`: the request and its signer's fingerprint.
unfoldable pub checked_request :
    Crypto → (Text → Option PairRequest) → Text → Result HttpError (PairRequest × Text)
checked_request C from_str body = do
  req ← or_err (from_str body) (http_error 400 (lit "invalid pair request"))
  map_err (http_error 403 (lit "bad signature"))
      (verify C req.pubkey_hex (canonical_request_string req) req.signature)
  fp ← map_err (http_error 400 (lit "bad pubkey")) (fingerprint_from_pubkey_hex C req.pubkey_hex)
  guard (take 16 fp == req.node_id) (http_error 400 (lit "node_id does not match pubkey"))
  ok (req, fp)

-- The grant that `pair_request` answers with at once: the fingerprint's, if it is live.
unfoldable pub existing_grant : AppState → Text → ℕ → Option (Option ℕ)
existing_grant s fp now = elim (find (λ g. g.fingerprint == fp) s.grants.content) [
  | none ↦ none
  | some g ↦ if is_live now g.expires_unix then some g.expires_unix else none
]

-- The queueing at the end of `pair_request`.
unfoldable pub queue_request :
    AppState → PairRequest → ℕ → AppState × Result HttpError PairStatusResponse
queue_request s req now =
    let is_new_request = not (contains_key req.node_id s.pairing.pending) in
    let (pairing, admitted) = admit_pending s.pairing req now in
    let queued : AppState = record s { pairing = pairing } in
    let (announced, _) =
      push s.events (lit "pair-request") (req.name ++ lit " wants access to your files")
        (lit "Approve or deny it in the Incoming list. DocLink ID "
          ++ group_hex req.node_id
          ++ lit ".")
        now in
    if not admitted
    then (
      queued,
      err (http_error 429 (lit "too many pending pairing requests right now — try again later")),
    )
    else (
      if is_new_request then record queued { events = announced } else queued,
      ok (response PairStatus.pending none),
    )

-- `pair_request`
unfoldable pub pair_request :
    Crypto
    → (Text → Option PairRequest)
    → AppState
    → Text
    → ℕ
    → AppState × Result HttpError PairStatusResponse
pair_request C from_str s body now = elim (checked_request C from_str body) [
  | err e ↦ (s, err e)
  | ok (req, fp) ↦ elim (existing_grant s fp now) [
    | some expires_unix ↦ (s, ok (response PairStatus.approved expires_unix))
    | none ↦ queue_request s req now
  ]
]

-- The checks at the head of `pair_decision`: the decision and its signer's fingerprint.
unfoldable pub checked_decision :
    Crypto → (Text → Option PairDecision) → AppState → Text → Result HttpError (PairDecision × Text)
checked_decision C from_str s body = do
  d ← or_err (from_str body) (http_error 400 (lit "invalid decision"))
  map_err (http_error 403 (lit "bad signature"))
      (verify C d.pubkey_hex (canonical_decision_string d) d.signature)
  guard (d.requester_node_id == s.node.node_id)
      (http_error 403 (lit "decision is not addressed to this node"))
  fp ← map_err (http_error 400 (lit "bad pubkey")) (fingerprint_from_pubkey_hex C d.pubkey_hex)
  guard (any (λ c. c.fingerprint == fp) s.contacts.content)
      (http_error 403 (lit "decision from an unpaired PC"))
  ok (d, fp)

-- `match d.decision.as_str()`
unfoldable pub decided_status : Text → PairStatus
decided_status decision =
    if decision == lit "approve"
    then PairStatus.approved
    else if decision == lit "deny"
    then PairStatus.denied
    else PairStatus.unknown

unfoldable pub label : PairStatus → Text
label PairStatus.approved = lit "approved"
label PairStatus.denied = lit "denied"
label PairStatus.pending = lit "pending"
label PairStatus.unknown = lit "pending"

-- The first contact with the fingerprint gets the label, `iter_mut().find(…)`.
unfoldable pub relabel : Text → Text → ContactsFile → ContactsFile
relabel fp l [] = []
relabel fp l (c ∷ cs) =
    let rest = relabel fp l cs in
    if c.fingerprint == fp then record c { status = l } ∷ cs else c ∷ rest

-- The contact's row at the end of `pair_decision`; the file is written only for a new label.
unfoldable pub update_contact : Store ContactsFile → Text → Text → Bool → Store ContactsFile
update_contact contacts fp l writable = elim (find (λ c. c.fingerprint == fp) contacts.content) [
  | none ↦ contacts
  | some c ↦
      if c.status == l
      then contacts
      else (save writable (record contacts { content = relabel fp l contacts.content })).0
]

-- `pair_decision`
unfoldable pub pair_decision :
    Crypto
    → (Text → Option PairDecision)
    → AppState
    → Text
    → ℕ
    → Bool
    → AppState × Result HttpError (Unit {0})
pair_decision C from_str s body now writable = elim (checked_decision C from_str s body) [
  | err e ↦ (s, err e)
  | ok (d, fp) ↦
      let status = decided_status d.decision in
      let resp = response status (expiry now d.duration_secs) in
      (
        record s {
          pairing = remember_decision s.pairing d.requester_node_id resp now;
          contacts = update_contact s.contacts fp (label status) writable;
        },
        ok tt,
      )
]

-- `pair_status`
unfoldable pub pair_status :
    Crypto
    → (Text → Text)
    → AppState
    → Map Text Text
    → Text
    → ℕ
    → ℕ
    → ℕ
    → AppState × Result HttpError PairStatusResponse
pair_status C encode s headers id now_ts now_seen now =
    let path_q = lit "/v1/pair/status?node_id=" ++ encode id in
    elim (verify_signed_headers C headers (lit "GET") path_q [] now_ts) [
      | err (status, code) ↦ (s, err (record { status = status; error = []; code = some code }))
      | ok (caller_node, pk, sig) ↦
          let (seen, fresh) = reject_replays s.seen_sigs sig now_seen in
          let after : AppState = record s { seen_sigs = seen } in
          (
            after,
            (do
              guard fresh (record { status = 401; error = []; code = some (lit "replayed") })
              guard (caller_node == id)
                  (http_error 403 (lit "you may only poll your own pairing status"))
              fp ←
                  map_err (http_error 400 (lit "bad public key header"))
                    (fingerprint_from_pubkey_hex C pk)
              guard (take 16 fp == id) (http_error 400 (lit "node_id does not match pubkey"))
              ok (pair_status_lookup after id now)),
          )
    ]
