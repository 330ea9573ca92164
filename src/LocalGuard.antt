-- ===== src/LocalGuard.antt =====
-- The guard of the admin plane, `authority_allowed` and `local_only_guard` of
-- crates/doclinkd/src/admin.rs. A header that is not readable as text counts as absent.
pub mod Loopback
use doc_link.Protocol.{lit}
use doc_link.Base.Map.{Map, lookup}
use doc_link.Base.Strings.{trim, to_ascii_lowercase, strip_prefix, rsplit_once}
use doc_link.Base.Decimal.{to_decimal}
use doc_link.Base.{if◌then◌else◌, ◌==◌, Text, ℕ, Bool, true, false, not, ◌&&◌, ◌||◌, Option}
use doc_link.Base.{none, some, [], ◌∷◌, text_eq, nat_eq}

-- `strip_prefix(p).unwrap_or(s)`
unfoldable pub without_prefix : Text → Text → Text
without_prefix p s = elim (strip_prefix s p) [ none ↦ s | some rest ↦ rest ]

-- `split(['/', '?', '#']).next()`
unfoldable pub before_path : Text → Text
before_path [] = []
before_path (c ∷ s) = if c == b'/' || c == b'?' || c == b'#' then [] else c ∷ before_path s

-- `strip_suffix('.').unwrap_or(host)`
unfoldable pub without_dot : Text → Text
without_dot [] = []
without_dot (c ∷ []) = if c == b'.' then [] else c ∷ []
without_dot (c ∷ d ∷ s) = c ∷ without_dot (d ∷ s)

-- `authority_allowed`
unfoldable pub authority_allowed : Text → ℕ → Bool
authority_allowed authority admin_port =
    let lowered = to_ascii_lowercase (trim authority) in
    let rest = without_prefix (lit "https://") (without_prefix (lit "http://") lowered) in
    elim (rsplit_once b':' (before_path rest)) [
      | none ↦ false
      | some (host, port) ↦
          port == to_decimal admin_port
          && (without_dot host == lit "127.0.0.1" || without_dot host == lit "localhost")
    ]

-- One header of the source of a request, `Origin` or `Referer`.
unfoldable pub source_allowed : Option Text → ℕ → Bool
source_allowed none port = true
source_allowed (some v) port = not (to_ascii_lowercase v == lit "null") && authority_allowed v port

-- `local_only_guard`: whether the request goes on.
unfoldable pub local_only_guard : Map Text Text → ℕ → Bool
local_only_guard headers port =
    (elim (lookup (lit "host") headers) [ none ↦ true | some host ↦ authority_allowed host port ])
    && source_allowed (lookup (lit "origin") headers) port
    && source_allowed (lookup (lit "referer") headers) port
