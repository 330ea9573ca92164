-- ===== src/Auth/Sound.antt =====
-- What an accepted request proves, crates/doclinkd/src/auth.rs.
use doc_link.Protocol.{lit}
use doc_link.Identity.{Crypto, verify, fingerprint_from_pubkey_hex, canonical_peer_request}
use doc_link.State.{AppState}
use doc_link.Store.{Grant, is_live}
use doc_link.Auth.{
  max_skew_secs, abs_diff, or_empty, map_err, verify_signed_headers, reject_replays, check_grant,
  require_auth,
}
use doc_link.Base.Results.{Result-cases}
use doc_link.Base.{Text, ℕ, ◌≤◌, ◌≡◌, some, List, text_eq, nat_eq}
use doc_link.Base.Map.{Map, lookup}
use doc_link.Base.Decimal.{to_decimal, parse_unsigned, u64_mod}
use doc_link.Base.Results.{ok, ◌>>◌}
use doc_link.Base.{Option-cases, inl, inr}
use doc_link.Base.{ltb, Bool-cases}
use doc_link.Base.{ltb→le, Elem, ap, true}
use doc_link.Base.{◌==◌, beq-eq, find, find-sat, find-Elem, sym, subst}
use doc_link.Auth.{AuthError}

-- The headers name the caller, and carry a signature that verifies over the request, with a
-- timestamp near the clock's.
pub IsVerified : Crypto → Map Text Text → Text → Text → List ℕ → ℕ → Text → Text → Text → Type 0
IsVerified C headers method path_q body now node pk sig =
    (lookup (lit "x-doclink-node") headers ≡ some node)
    × ((lookup (lit "x-doclink-pub") headers ≡ some pk)
        × ((lookup (lit "x-doclink-sig") headers ≡ some sig)
            × ((ts : ℕ) × ((abs_diff now ts ≤ max_skew_secs)
                  × (verify C pk
                        (canonical_peer_request C method path_q (to_decimal ts)
                          (or_empty (lookup (lit "x-doclink-nonce") headers)) body)
                        sig
                      ≡ ok tt)))))

accepted_triple :
    (C : Crypto) (x : AuthError) (msg node' pk' sig' node pk sig : Text)
    → ◌>>◌ {B = Text × Text × Text} (map_err x (verify C pk' msg sig')) (ok (node', pk', sig'))
      ≡ ok (node, pk, sig)
    → (node' ≡ node) × ((pk' ≡ pk) × ((sig' ≡ sig) × (verify C pk msg sig ≡ ok tt)))
accepted_triple C x msg node' pk' sig' node pk sig = elim (Result-cases (verify C pk' msg sig')) [
  | inl (u, e) ↦ rw e λ h. (cc, (cc, (cc, cc)))
  | inr (y, e) ↦ rw e λ h. absurd (cc)
]

verify_signed_headers-IsVerified :
    (C : Crypto) (headers : Map Text Text) (method path_q : Text) (body : List ℕ) (now : ℕ)
    (node pk sig : Text)
    → verify_signed_headers C headers method path_q body now ≡ ok (node, pk, sig)
    → IsVerified C headers method path_q body now node pk sig
unfolding verify_signed_headers IsVerified
verify_signed_headers-IsVerified C headers method path_q body now node pk sig =
    elim (Option-cases (lookup (lit "x-doclink-node") headers)) [
      | inl e ↦ rw e λ h. absurd (cc)
      | inr (node', e1) ↦ rw e1 elim (Option-cases (lookup (lit "x-doclink-pub") headers)) [
        | inl e ↦ rw e λ h. absurd (cc)
        | inr (pk', e2) ↦ rw e2 elim (Option-cases (lookup (lit "x-doclink-ts") headers)) [
          | inl e ↦ rw e λ h. absurd (cc)
          | inr (ts_text, e3) ↦ rw e3 elim (Option-cases (lookup (lit "x-doclink-sig") headers)) [
            | inl e ↦ rw e λ h. absurd (cc)
            | inr (sig', e4) ↦ rw e4 elim (Option-cases (parse_unsigned u64_mod ts_text)) [
              | inl e ↦ rw e λ h. absurd (cc)
              | inr (ts, e5) ↦ rw e5 elim (Bool-cases (ltb max_skew_secs (abs_diff now ts))) [
                | inl e ↦ rw e λ h. absurd (cc)
                | inr e6 ↦ rw e6 λ h.
                    let (a, (b, (c, d))) = accepted_triple C _ _ node' pk' sig' node pk sig h in
                    (ap some a, (ap some b, (ap some c, (ts, (ltb→le _ _ e6, d)))))
              ]
            ]
          ]
        ]
      ]
    ]

check_grant-ok :
    (C : Crypto) (s : AppState) (node pk : Text) (now : ℕ) (g : Grant)
    → check_grant C s node pk now ≡ ok g
    → Elem g s.grants.content
      × ((node ≡ g.node_id)
          × ((is_live now g.expires_unix ≡ true)
              × (fingerprint_from_pubkey_hex C pk ≡ ok g.fingerprint)))
unfolding check_grant
check_grant-ok C s node pk now g =
    elim (Option-cases (find (λ x. x.node_id == node) s.grants.content)) [
      | inl e ↦ rw e λ h. absurd (cc)
      | inr (x, e) ↦ rw e elim (Bool-cases (is_live now x.expires_unix)) [
        | inr e2 ↦ rw e2 λ h. absurd (cc)
        | inl e2 ↦ rw e2 elim (Result-cases (fingerprint_from_pubkey_hex C pk)) [
          | inr (y, e3) ↦ rw e3 λ h. absurd (cc)
          | inl (fp, e3) ↦ rw e3 elim (Bool-cases (fp == x.fingerprint)) [
            | inr e4 ↦ rw e4 λ h. absurd (cc)
            | inl e4 ↦ rw e4 λ h.
                let xg : x ≡ g = cc in
                rw (sym xg) (
                  find-Elem _ _ x e,
                  (sym (beq-eq _ _ (find-sat _ _ x e)), (e2, ap ok (beq-eq _ _ e4))),
                )
          ]
        ]
      ]
    ]

-- Whatever the clock reads and whatever the cache holds: a request that `require_auth` accepts names
-- the node of a stored grant that is live, its headers carry a signature that verifies with a public
-- key whose fingerprint is the grant's, over the method, the path, the timestamp, the nonce and the
-- body, the timestamp is at most 900 seconds from the clock, and the signature is not one that the
-- cache still held.
pub require_auth-accepts :
    (C : Crypto) (headers : Map Text Text) (method path_q : Text) (body : List ℕ) (s : AppState)
    (now_ts now_seen now_grant : ℕ) (g : Grant)
    → (require_auth C headers method path_q body s now_ts now_seen now_grant).1 ≡ ok g
    → Elem g s.grants.content
      × ((is_live now_grant g.expires_unix ≡ true)
          × ((pk : Text) × ((sig : Text) × (IsVerified C headers method path_q body now_ts g.node_id
                    pk sig
                  × ((fingerprint_from_pubkey_hex C pk ≡ ok g.fingerprint)
                      × ((reject_replays s.seen_sigs sig now_seen).1 ≡ true))))))
unfolding require_auth
require_auth-accepts C headers method path_q body s now_ts now_seen now_grant g =
    elim (Result-cases (verify_signed_headers C headers method path_q body now_ts)) [
      | inr (x, e) ↦ rw (e, require_auth) λ h. absurd (cc)
      | inl ((node, pk, sig), e) ↦
          rw (e, require_auth)
            elim (Bool-cases (reject_replays s.seen_sigs sig now_seen).1) [
              | inr e2 ↦ rw (e2, require_auth) λ h. absurd (cc)
              | inl e2 ↦
                  rw (e2, require_auth)
                    λ h.
                      let (a, (b, (c, d))) = check_grant-ok C _ node pk now_grant g h in
                      let v =
                        verify_signed_headers-IsVerified C headers method path_q body now_ts node pk
                          sig e in
                      (
                        a,
                        (
                          c,
                          (
                            pk,
                            (
                              sig,
                              (
                                subst (λ n. IsVerified C headers method path_q body now_ts n pk sig)
                                    b v,
                                (d, e2),
                              ),
                            ),
                          ),
                        ),
                      )
            ]
    ]
