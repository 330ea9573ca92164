-- ===== src/Auth/Complete.antt =====
-- The headers that a paired node sends (crates/doclink-core/src/identity.rs) against the check of
-- the node that receives them (crates/doclinkd/src/auth.rs).
use doc_link.Protocol.{lit}
use doc_link.Identity.{
  Crypto, SigningKey, verify, node_id, fingerprint, fingerprint_from_pubkey_hex,
  canonical_peer_request, auth_headers_body,
}
use doc_link.Auth.{max_skew_secs, abs_diff, verify_signed_headers, AppState, check_grant}
use doc_link.Base.Map.{lookup}
use doc_link.Base.Results.{ok}
use doc_link.Base.Decimal.{u64_mod, to_decimal, parse_unsigned-to_decimal}
use doc_link.Base.{le→ltb, Text, length, ℕ, ◌≤◌, ◌<◌, ◌≡◌, refl, true, some, List, text_eq}
use doc_link.Base.{nat_eq}
use doc_link.Base.{◌==◌, text_beq, beq_refl, find, ◌∙◌}
use doc_link.Auth.{Grant, is_live, reject_replays, require_auth}
use doc_link.Auth.Replay.{require_auth-fresh}

-- What hex and ed25519-dalek document of a key pair: decoding undoes encoding, a public key has 32
-- bytes and is valid, a signature has 64 bytes and verifies.
pub record KeyLaws (C : Crypto) (k : SigningKey) : Type 0 where
  pub decode_encode : (b : List ℕ) → C.hex_decode (C.hex_encode b) ≡ some b
  pub key_length : length k.verifying_key ≡ 32
  pub key_valid : C.from_bytes k.verifying_key ≡ true
  pub sign_length : (m : Text) → length (k.sign_bytes m) ≡ 64
  pub sign_verifies : (m : Text) → C.verify_strict k.verifying_key m (k.sign_bytes m) ≡ true

module _ (C : Crypto) (k : SigningKey) (laws : KeyLaws C k) where
  pub verify-sign :
      (m : Text) → verify C (C.hex_encode k.verifying_key) m (C.hex_encode (k.sign_bytes m)) ≡ ok tt
  unfolding verify
  verify-sign m =
      rw
        (
          laws.decode_encode k.verifying_key,
          laws.key_length,
          laws.key_valid,
          laws.decode_encode (k.sign_bytes m),
          laws.sign_length m,
          laws.sign_verifies m,
        )
        refl

  pub fingerprint-hex :
      fingerprint_from_pubkey_hex C (C.hex_encode k.verifying_key) ≡ ok (fingerprint C k)
  unfolding fingerprint_from_pubkey_hex fingerprint
  fingerprint-hex = rw (laws.decode_encode k.verifying_key) refl

  verify_signed_headers-auth_headers :
      (method path_q : Text) (body random : List ℕ) (made now : ℕ)
      → made < u64_mod
      → abs_diff now made ≤ max_skew_secs
      → verify_signed_headers C
          (auth_headers_body C k method path_q body made random)
          method
          path_q
          body
          now
        ≡ ok (
          node_id C k,
          C.hex_encode k.verifying_key,
          C.hex_encode (
              k.sign_bytes (
                canonical_peer_request C method path_q
                  (to_decimal made)
                  (C.hex_encode random)
                  body)),
        )
  unfolding verify_signed_headers auth_headers_body lookup lit text_beq node_id
      canonical_peer_request
  verify_signed_headers-auth_headers method path_q body random made now small near =
      rw (parse_unsigned-to_decimal u64_mod made small) rw
        (le→ltb max_skew_secs (abs_diff now made) near) rw
        (verify-sign
          (canonical_peer_request C method path_q (to_decimal made) (C.hex_encode random) body))
        refl

  check_grant-paired :
      (s : AppState) (g : Grant) (now : ℕ)
      → find (λ x. x.node_id == node_id C k) s.grants.content ≡ some g
      → is_live now g.expires_unix ≡ true
      → g.fingerprint ≡ fingerprint C k
      → check_grant C s (node_id C k) (C.hex_encode k.verifying_key) now ≡ ok g
  unfolding check_grant
  check_grant-paired s g now found live same =
      rw (found, live, fingerprint-hex, same, beq_refl (fingerprint C k)) refl

  -- A request that a paired node signs is accepted: for keys that keep the documented laws, when the
  -- first grant for the signer's node id is live and holds its fingerprint, the clocks of the two
  -- nodes are at most 900 seconds apart, and the signature is not in the cache, the headers that
  -- `auth_headers_body` makes for a method, a path and a body pass `require_auth` for the same
  -- method, path and body, and the grant is returned.
  pub auth_headers_body-accepted :
      (method path_q : Text) (body random : List ℕ) (made : ℕ) (s : AppState) (g : Grant)
      (now_ts now_seen now_grant : ℕ)
      → made < u64_mod
      → abs_diff now_ts made ≤ max_skew_secs
      → find (λ x. x.node_id == node_id C k) s.grants.content ≡ some g
      → is_live now_grant g.expires_unix ≡ true
      → g.fingerprint ≡ fingerprint C k
      → (reject_replays s.seen_sigs
          (C.hex_encode (
            k.sign_bytes (
              canonical_peer_request C method path_q (to_decimal made) (C.hex_encode random) body)))
          now_seen).1
        ≡ true
      → (require_auth C
          (auth_headers_body C k method path_q body made random)
          method
          path_q
          body
          s
          now_ts
          now_seen
          now_grant).1
        ≡ ok g
  auth_headers_body-accepted method path_q body random made s g now_ts now_seen now_grant small near
        found live same fresh =
      require_auth-fresh C _ method path_q body s now_ts now_seen now_grant _ _ _
        (verify_signed_headers-auth_headers method path_q body random made now_ts small near) fresh
      ∙ check_grant-paired s g now_grant found live same
