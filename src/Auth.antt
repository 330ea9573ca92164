-- ===== src/Auth.antt =====
-- The authentication of peer requests, crates/doclinkd/src/auth.rs. A header whose value is not
-- readable as text counts as absent, so a header map is a map of texts.
pub mod Sound
pub mod Replay
pub mod Complete
use doc_link.Protocol.{lit}
use doc_link.Identity.{Crypto, verify, canonical_peer_request, fingerprint_from_pubkey_hex}
use doc_link.Base.{ltb, if◌then◌else◌, Text, retain, ℕ, ◌-◌, Bool, not, Option, none, some}
use doc_link.Base.{List, []}
use doc_link.Base.Map.{Map, insert, contains_key, lookup}
use doc_link.Base.Results.{Result, ok, err, guard, or_err, ◌>>=◌, ◌>>◌}
use doc_link.Base.{text_eq, nat_eq}
use doc_link.Base.Decimal.{parse_unsigned, u64_mod, to_decimal}
use doc_link.Base.{◌==◌, find}
use doc_link.Protocol.{PairStatus}
use doc_link.State.{AppState}
use doc_link.Store.{Grant, is_live}
use doc_link.Base.{◌≡◌}
use doc_link.Base.{map}

-- `MAX_SKEW_SECS`
abbrev pub max_skew_secs : ℕ
max_skew_secs = 900

-- `u64::abs_diff`
unfoldable pub abs_diff : ℕ → ℕ → ℕ
abs_diff a b = if ltb a b then b - a else a - b

-- `AuthError::new`, with the code and no message: no decision reads the message.
abbrev pub AuthError : Type 0
AuthError = ℕ × Text

-- `unwrap_or_default` of a text.
abbrev pub or_empty : Option Text → Text
or_empty none = []
or_empty (some t) = t

abbrev pub map_err {ℓ} : {E F : Type 0} {A : Type ℓ} → F → Result E A → Result F A
map_err f (ok a) = ok a
map_err f (err e) = err f

-- `verify_signed_headers`, at the clock's reading: node id, public key and signature.
unfoldable pub verify_signed_headers :
    Crypto → Map Text Text → Text → Text → List ℕ → ℕ → Result AuthError (Text × Text × Text)
verify_signed_headers C headers method path_q body now = do
  let missing : AuthError = (401, lit "unauthenticated")
  node ← or_err (lookup (lit "x-doclink-node") headers) missing
  pk ← or_err (lookup (lit "x-doclink-pub") headers) missing
  ts_text ← or_err (lookup (lit "x-doclink-ts") headers) missing
  sig ← or_err (lookup (lit "x-doclink-sig") headers) missing
  let nonce = or_empty (lookup (lit "x-doclink-nonce") headers)
  ts ← or_err (parse_unsigned u64_mod ts_text) (401, lit "bad-timestamp")
  guard (not (ltb max_skew_secs (abs_diff now ts))) (401, lit "clock-skew")
  map_err (401, lit "bad-signature")
      (verify C pk (canonical_peer_request C method path_q (to_decimal ts) nonce body) sig)
  ok (node, pk, sig)

-- `reject_replays`: the cache afterwards, and whether the signature is new.
unfoldable pub reject_replays : Map Text ℕ → Text → ℕ → Map Text ℕ × Bool
reject_replays seen sig now =
    let kept = retain (λ e. not (ltb max_skew_secs (now - e.1))) seen in
    (insert sig now kept, not (contains_key sig kept))

-- The code that a caller without a grant is told: which human step it waits for.
unfoldable pub refusal : AppState → Text → Text
refusal s node =
    if contains_key node s.pairing.pending
    then lit "pending"
    else elim (lookup node s.pairing.decisions) [
      | none ↦ lit "unknown-node"
      | some (resp, _) ↦ elim resp.status [
        | PairStatus.denied ↦ lit "denied"
        | _ ↦ lit "unknown-node"
      ]
    ]

-- The grant part of `require_auth`, for a caller whose signature is verified.
unfoldable pub check_grant : Crypto → AppState → Text → Text → ℕ → Result AuthError Grant
check_grant C s node pk now = do
  grant ← or_err (find (λ g. g.node_id == node) s.grants.content) (403, refusal s node)
  guard (is_live now grant.expires_unix) (403, lit "expired")
  fp ← map_err (401, lit "bad-key") (fingerprint_from_pubkey_hex C pk)
  guard (fp == grant.fingerprint) (403, lit "identity-changed")
  ok grant

-- `require_auth`: the state afterwards and the answer. Each reading of the clock is an argument: the
-- headers', the cache's and the grant's.
unfoldable pub require_auth :
    Crypto
    → Map Text Text
    → Text
    → Text
    → List ℕ
    → AppState
    → ℕ
    → ℕ
    → ℕ
    → AppState × Result AuthError Grant
require_auth C headers method path_q body s now_ts now_seen now_grant =
    elim (verify_signed_headers C headers method path_q body now_ts) [
      | err e ↦ (s, err e)
      | ok (node, pk, sig) ↦
          let (seen, fresh) = reject_replays s.seen_sigs sig now_seen in
          let after : AppState = record s { seen_sigs = seen } in
          if fresh
          then (after, check_grant C s node pk now_grant)
          else (after, err (401, lit "replayed"))
    ]
