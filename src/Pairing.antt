-- ===== src/Pairing.antt =====
-- The pairing state of crates/doclinkd/src/server.rs: the queue of requests, the decisions that are
-- remembered, and the owner's decision. Sums of clock readings are u64 as in a release build.
pub mod Bounded
pub mod Handlers
pub mod Answers
pub mod Grantor
pub mod Decisions
use doc_link.Protocol.{PairRequest, PairStatus, PairStatusResponse, lit}
use doc_link.Identity.{Crypto, fingerprint_from_pubkey_hex}
use doc_link.State.{AppState, PairingState}
use doc_link.Store.{Store, Grant, GrantsFile, upsert, save, is_live}
use doc_link.Base.Decimal.{u64_mod}
use doc_link.Base.Map.{Map, lookup, contains_key, insert, remove}
use doc_link.Base.Results.{Result, ok, err}
use doc_link.Base.{ltb, leb, if◌then◌else◌, ◌==◌, Text, length, retain, find, ℕ, ◌+◌, ◌-◌}
use doc_link.Base.{◌%◌, Bool, true, false, not, ◌&&◌, Option, none, some, [], ◌∷◌}
use doc_link.Base.{text_eq, nat_eq}

-- `MAX_PENDING`
abbrev pub max_pending : ℕ
max_pending = 64

-- `PENDING_TTL_SECS`
abbrev pub pending_ttl_secs : ℕ
pending_ttl_secs = 600

-- `MAX_DECISIONS`
abbrev pub max_decisions : ℕ
max_decisions = 256

-- `prune_pending`
unfoldable pub prune_pending : PairingState → ℕ → PairingState
prune_pending p now = record p {
  pending = retain (λ e. ltb (now - pending_ttl_secs) e.1.received_unix) p.pending;
}

-- `admit_pending`: the state afterwards, and whether the request is queued.
unfoldable pub admit_pending : PairingState → PairRequest → ℕ → PairingState × Bool
admit_pending p req now =
    let q = prune_pending p now in
    if not (contains_key req.node_id q.pending) && leb max_pending (length q.pending)
    then (q, false)
    else (
      record q {
        pending = insert req.node_id (record { request = req; received_unix = now }) q.pending;
      },
      true,
    )

-- `min_by_key(|(_, (_, at))| *at)`: the first of the entries that are the oldest.
unfoldable pub oldest_from : Text × ℕ → Map Text (PairStatusResponse × ℕ) → Text
oldest_from (k, at) [] = k
oldest_from (k, at) ((j, (_, b)) ∷ d) = oldest_from (if ltb b at then (j, b) else (k, at)) d

unfoldable pub evict : Map Text (PairStatusResponse × ℕ) → Map Text (PairStatusResponse × ℕ)
evict [] = []
evict ((k, (resp, at)) ∷ d) = remove (oldest_from (k, at) d) ((k, (resp, at)) ∷ d)

-- `remember_decision`
unfoldable pub remember_decision : PairingState → Text → PairStatusResponse → ℕ → PairingState
remember_decision p id resp now =
    let d = p.decisions in
    let room = if not (contains_key id d) && leb max_decisions (length d) then evict d else d in
    record p { decisions = insert id (resp, now) room }

abbrev pub response : PairStatus → Option ℕ → PairStatusResponse
response status expires_unix = record { status = status; expires_unix = expires_unix }

-- `(duration_secs != 0).then(|| now + duration_secs)`
unfoldable pub expiry : ℕ → ℕ → Option ℕ
expiry now duration_secs =
    if duration_secs == 0 then none else some ((now + duration_secs) % u64_mod)

abbrev pub unwrap_or : Bool → Option Bool → Bool
unwrap_or d none = d
unwrap_or d (some b) = b

-- The approval in `apply_decision_with_perms`, for a request that is taken out of the queue. The
-- Boolean says whether the store's file can be written.
unfoldable pub approve :
    Crypto
    → Store GrantsFile
    → PairRequest
    → ℕ
    → Option Bool
    → Option Bool
    → ℕ
    → Bool
    → Store GrantsFile × Result Text PairStatusResponse
approve C grants req duration_secs allow_files allow_print now writable =
    let files = unwrap_or true allow_files in
    let print = unwrap_or false allow_print in
    let expires = expiry now duration_secs in
    if not files && not print
    then (grants, err (lit "grant must allow at least files or printing"))
    else elim (fingerprint_from_pubkey_hex C req.pubkey_hex) [
      | err e ↦ (grants, err (lit "bad pubkey"))
      | ok fp ↦
          let g : Grant = record {
            fingerprint = fp;
            node_id = req.node_id;
            name = req.name;
            granted_unix = now;
            expires_unix = expires;
            paths = [];
            allow_files = files;
            allow_print = print;
          } in
          let (stored, saved) =
            save writable (record grants { content = upsert grants.content g }) in
          (
            stored,
            (if saved
                then ok (response PairStatus.approved expires)
                else err (lit "failed to persist grant")),
          )
    ]

-- `apply_decision_with_perms`
unfoldable pub apply_decision_with_perms :
    Crypto
    → PairingState
    → Store GrantsFile
    → Text
    → Text
    → ℕ
    → Option Bool
    → Option Bool
    → ℕ
    → Bool
    → PairingState × Store GrantsFile × Result Text PairStatusResponse
apply_decision_with_perms C p grants id decision duration_secs allow_files allow_print now
      writable =
    elim (lookup id p.pending) [
      | none ↦ (p, grants, err (lit "no pending request from this node"))
      | some entry ↦
          let q : PairingState = record p { pending = remove id p.pending } in
          let denial = response PairStatus.denied none in
          if not (decision == lit "approve")
          then (remember_decision q id denial now, grants, ok denial)
          else let (stored, answer) =
              approve C grants entry.request duration_secs allow_files allow_print now writable in
            (q, stored, answer)
    ]

-- `pair_status_lookup`
unfoldable pub pair_status_lookup : AppState → Text → ℕ → PairStatusResponse
pair_status_lookup s id now =
    if contains_key id s.pairing.pending
    then response PairStatus.pending none
    else elim (lookup id s.pairing.decisions) [
      | some (d, _) ↦ d
      | none ↦ elim (find (λ g. g.node_id == id && is_live now g.expires_unix) s.grants.content) [
        | some g ↦ response PairStatus.approved g.expires_unix
        | none ↦ response PairStatus.unknown none
      ]
    ]
