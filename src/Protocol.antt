-- ===== src/Protocol.antt =====
-- The wire types and signed texts of crates/doclink-core/src/protocol.rs.
pub mod Signed
use Prim.Native.String.{String}
use doc_link.Base.{if◌then◌else◌, Text, ℕ, Option, none, some, ◌∷◌, ◌++◌}
use doc_link.Base.Decimal.{to_decimal}
use doc_link.Base.Strings.{has_char, codes}

-- A literal of the source.
unfoldable pub lit : String → Text
lit = codes

pub record NodeInfo : Type 0 where
  pub node_id : Text
  pub name : Text
  pub version : Text
  pub fingerprint : Text
  pub app_version : Text

pub record PairRequest : Type 0 where
  pub node_id : Text
  pub name : Text
  pub pubkey_hex : Text
  pub requested_duration_secs : ℕ
  pub signature : Text

pub record PairDecision : Type 0 where
  pub requester_node_id : Text
  pub decision : Text
  pub duration_secs : ℕ
  pub pubkey_hex : Text
  pub signature : Text

pub data PairStatus : Type 0 where
  pending approved denied unknown : PairStatus

pub record PairStatusResponse : Type 0 where
  pub status : PairStatus
  pub expires_unix : Option ℕ

-- `ErrorResponse`, with the HTTP status beside it.
pub record HttpError : Type 0 where
  pub status : ℕ
  pub error : Text
  pub code : Option Text

-- `ErrorResponse::new`
unfoldable pub http_error : ℕ → Text → HttpError
http_error status msg = record { status = status; error = msg; code = none }

-- `ErrorResponse::coded`
unfoldable pub coded : ℕ → Text → Text → HttpError
coded status msg code = record { status = status; error = msg; code = some code }

abbrev pub newline : ℕ
newline = b'\n'

-- `format!("{a}\n{b}\n…")`
infixr 66 ◌⏎◌
abbrev pub ◌⏎◌ : Text → Text → Text
a ⏎ b = a ++ (newline ∷ b)

-- `canonical_request_string`
unfoldable pub canonical_request_string : PairRequest → Text
canonical_request_string r =
    lit "doclink-pair-v1" ⏎ r.node_id ⏎ r.name ⏎ r.pubkey_hex ⏎ to_decimal r.requested_duration_secs

-- `canonical_decision_string`
unfoldable pub canonical_decision_string : PairDecision → Text
canonical_decision_string d =
    lit "doclink-decision-v1"
    ⏎ d.requester_node_id
    ⏎ d.decision
    ⏎ to_decimal d.duration_secs
    ⏎ d.pubkey_hex

-- `peer_base_url`: an address with a colon is an IPv6 literal and is bracketed.
unfoldable pub peer_base_url : Text → ℕ → Text
peer_base_url addr port =
    if has_char b':' addr
    then lit "https://[" ++ addr ++ lit "]:" ++ to_decimal port
    else lit "https://" ++ addr ++ lit ":" ++ to_decimal port
