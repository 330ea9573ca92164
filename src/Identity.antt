-- ===== src/Identity.antt =====
-- The signed identity of crates/doclink-core/src/identity.rs. The hex, sha2 and ed25519-dalek crates
-- are parameters; a signed message is the text whose UTF-8 bytes are signed.
use doc_link.Base.{◌==◌, Text, length, take, ℕ, Bool, Option, List, [], ◌∷◌, text_eq}
use doc_link.Base.{nat_eq}
use doc_link.Base.Map.{Map}
use doc_link.Base.Results.{Result, ok}
use doc_link.Base.Decimal.{to_decimal}
use doc_link.Protocol.{lit, ◌⏎◌}
use doc_link.Base.Utf8.{from_utf8_lossy}
use doc_link.Base.Results.{◌>>=◌, ◌>>◌, guard, or_err}

-- `hex::encode`, `hex::decode`, `Sha256::digest`, `VerifyingKey::from_bytes`, `verify_strict`.
pub record Crypto : Type 0 where
  pub hex_encode : List ℕ → Text
  pub hex_decode : Text → Option (List ℕ)
  pub sha256 : List ℕ → List ℕ
  pub from_bytes : List ℕ → Bool
  pub verify_strict : List ℕ → Text → List ℕ → Bool

-- `SigningKey`: the public key's bytes, and `sign`.
pub record SigningKey : Type 0 where
  pub verifying_key : List ℕ
  pub sign_bytes : Text → List ℕ

pub data VerifyError : Type 0 where
  bad_hex bad_pubkey_length bad_pubkey bad_signature_length bad_signature : VerifyError

module _ (C : Crypto) where
  -- `fingerprint_from_pubkey_hex`
  unfoldable pub fingerprint_from_pubkey_hex : Text → Result VerifyError Text
  fingerprint_from_pubkey_hex pk = do
    bytes ← or_err (C.hex_decode pk) bad_hex
    ok (C.hex_encode (C.sha256 bytes))

  -- `NodeIdentity::verify`
  unfoldable pub verify : Text → Text → Text → Result VerifyError (Unit {0})
  verify pk msg sig = do
    pk_bytes ← or_err (C.hex_decode pk) bad_hex
    guard (length pk_bytes == 32) bad_pubkey_length
    guard (C.from_bytes pk_bytes) bad_pubkey
    sig_bytes ← or_err (C.hex_decode sig) bad_hex
    guard (length sig_bytes == 64) bad_signature_length
    guard (C.verify_strict pk_bytes msg sig_bytes) bad_signature

  -- `fingerprint`
  unfoldable pub fingerprint : SigningKey → Text
  fingerprint k = C.hex_encode (C.sha256 k.verifying_key)

  -- `node_id`
  unfoldable pub node_id : SigningKey → Text
  node_id k = take 16 (fingerprint k)

  -- The text that a peer signs for a request.
  unfoldable pub canonical_peer_request : Text → Text → Text → Text → List ℕ → Text
  canonical_peer_request method path_q ts nonce body =
      method ⏎ path_q ⏎ ts ⏎ nonce ⏎ from_utf8_lossy body

  -- `auth_headers_body`, at a clock reading and eight random bytes.
  unfoldable pub auth_headers_body : SigningKey → Text → Text → List ℕ → ℕ → List ℕ → Map Text Text
  auth_headers_body k method path_q body now random =
      let ts = to_decimal now in
      let nonce = C.hex_encode random in
      let sig = k.sign_bytes (canonical_peer_request method path_q ts nonce body) in
      (lit "x-doclink-node", node_id k)
      ∷ (lit "x-doclink-pub", C.hex_encode k.verifying_key)
      ∷ (lit "x-doclink-ts", ts)
      ∷ (lit "x-doclink-nonce", nonce)
      ∷ (lit "x-doclink-sig", C.hex_encode sig)
      ∷ []
