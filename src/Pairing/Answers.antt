-- ===== src/Pairing/Answers.antt =====
-- What an answer of the pairing endpoints of crates/doclinkd/src/server.rs proves, and what the
-- endpoints leave alone.
use doc_link.Protocol.{PairRequest, PairStatus, PairStatusResponse, canonical_request_string}
use doc_link.Identity.{Crypto, verify, fingerprint_from_pubkey_hex}
use doc_link.State.{AppState}
use doc_link.Store.{Grant, is_live}
use doc_link.Pairing.{max_pending, admit_pending, prune_pending, response}
use doc_link.Pairing.Bounded.{IsBounded, admit_pending-IsBounded}
use doc_link.Pairing.Handlers.{checked_request, existing_grant, queue_request, pair_request}
use doc_link.Base.Map.{lookup, contains_key, lookup-insert}
use doc_link.Base.Results.{ok, Result-cases}
use doc_link.Base.{Bool-cases, Option-cases, ◌==◌, Text, beq-eq, take, ℕ, ◌≡◌, refl, sym}
use doc_link.Base.{inl, inr, true, Option, some, text_eq, nat_eq}
use doc_link.Base.{leb, beq_refl, length, find, find-sat, Elem, find-Elem, ap, ◌∙◌, ◌⊎◌}
use doc_link.Base.{not, ◌&&◌, none}

-- A pair request that passes the checks was signed by the key that it names, and its node id is the
-- first sixteen digits of that key's fingerprint.
pub checked_request-signed :
    (C : Crypto) (from_str : Text → Option PairRequest) (body : Text) (req : PairRequest)
    (fp : Text)
    → checked_request C from_str body ≡ ok (req, fp)
    → (from_str body ≡ some req)
      × (verify C req.pubkey_hex (canonical_request_string req) req.signature ≡ ok tt)
      × (fingerprint_from_pubkey_hex C req.pubkey_hex ≡ ok fp)
      × (take 16 fp ≡ req.node_id)
unfolding checked_request
checked_request-signed C from_str body req fp = elim (Option-cases (from_str body)) [
  | inl e ↦ rw e λ h. absurd (cc)
  | inr (r, e) ↦
      rw e elim (Result-cases (verify C r.pubkey_hex (canonical_request_string r) r.signature)) [
        | inr (x, e2) ↦ rw e2 λ h. absurd (cc)
        | inl (u, e2) ↦ rw e2 elim (Result-cases (fingerprint_from_pubkey_hex C r.pubkey_hex)) [
          | inr (x, e3) ↦ rw e3 λ h. absurd (cc)
          | inl (f, e3) ↦ rw e3 elim (Bool-cases (take 16 f == r.node_id)) [
            | inr e4 ↦ rw e4 λ h. absurd (cc)
            | inl e4 ↦ rw e4 λ h.
                let same : r ≡ req = cc in
                let same_fp : f ≡ fp = cc in
                rw (sym same, sym same_fp) (refl, e2, e3, beq-eq _ _ e4)
          ]
        ]
      ]
]

admitted_lookup :
    (s : AppState) (req : PairRequest) (now : ℕ)
    → (admit_pending s.pairing req now).1 ≡ true
    → lookup req.node_id (admit_pending s.pairing req now).0.pending
      ≡ some (record { request = req; received_unix = now })
unfolding admit_pending
admitted_lookup s req now =
    elim (Bool-cases (
      not (contains_key req.node_id (prune_pending s.pairing now).pending)
      && leb max_pending (length (prune_pending s.pairing now).pending))) [
        | inl e ↦ rw e λ h. absurd (cc)
        | inr e ↦
            rw e λ h. lookup-insert req.node_id req.node_id _ _ ∙ rw (beq_refl req.node_id) refl
      ]

-- What a step of the pairing endpoint keeps.
pub record Keeps (s t : AppState) : Type 0 where
  pub same_grants : t.grants ≡ s.grants
  pub same_contacts : t.contacts ≡ s.contacts
  pub bounded : IsBounded t.pairing

queue_request-Keeps :
    (s : AppState) (req : PairRequest) (now : ℕ)
    → IsBounded s.pairing
    → let (t, answer) = queue_request s req now in
      Keeps s t
      × ((resp : PairStatusResponse)
          → answer ≡ ok resp
          → (resp ≡ response PairStatus.pending none)
            × (lookup req.node_id t.pairing.pending
                ≡ some (record { request = req; received_unix = now })))
unfolding queue_request
queue_request-Keeps s req now v =
    let b = admit_pending-IsBounded s.pairing req now v in
    elim (Bool-cases (admit_pending s.pairing req now).1) [
      | inr e ↦
          rw (e, queue_request)
            (
              record { same_grants = refl; same_contacts = refl; bounded = b },
              λ resp h. absurd (cc),
            )
      | inl e ↦
          rw (e, queue_request)
            let l = admitted_lookup s req now e in
              elim (Bool-cases (contains_key req.node_id s.pairing.pending)) [
                | inl old ↦
                    rw (old, queue_request)
                      (
                        record { same_grants = refl; same_contacts = refl; bounded = b },
                        λ resp h. (cc, l),
                      )
                | inr new ↦
                    rw (new, queue_request)
                      (
                        record { same_grants = refl; same_contacts = refl; bounded = b },
                        λ resp h. (cc, l),
                      )
              ]
    ]

-- An immediate approval comes from a stored grant of that fingerprint that is live, and carries the
-- grant's expiry.
existing_grant-live :
    (s : AppState) (fp : Text) (now : ℕ) (x : Option ℕ)
    → existing_grant s fp now ≡ some x
    → (g : Grant) × Elem g s.grants.content
      × (g.fingerprint ≡ fp)
      × (g.expires_unix ≡ x)
      × (is_live now x ≡ true)
unfolding existing_grant
existing_grant-live s fp now x =
    elim (Option-cases (find (λ g. g.fingerprint == fp) s.grants.content)) [
      | inl e ↦ rw (e, existing_grant) λ h. absurd (cc)
      | inr (g, e) ↦
          rw (e, existing_grant)
            elim (Bool-cases (is_live now g.expires_unix)) [
              | inr e2 ↦ rw (e2, existing_grant) λ h. absurd (cc)
              | inl e2 ↦
                  rw (e2, existing_grant)
                    λ h.
                      let same : g.expires_unix ≡ x = cc in
                      (
                        g,
                        find-Elem _ _ g e,
                        beq-eq _ _ (find-sat _ _ g e),
                        same,
                        ap (is_live now) (sym same) ∙ e2,
                      )
            ]
    ]

-- Anyone on the network can call this endpoint, so: whatever the body says, no grant and no contact
-- changes, and the pairing state keeps its bounds. An answer other than an error means that the
-- body's request was checked, and it is either the approval that a stored live grant for the
-- signer's fingerprint already gives, or "pending", with the request in the queue.
pub pair_request_lem :
    (C : Crypto) (from_str : Text → Option PairRequest) (s : AppState) (body : Text) (now : ℕ)
    → IsBounded s.pairing
    → let (t, answer) = pair_request C from_str s body now in
      Keeps s t
      × ((resp : PairStatusResponse)
          → answer ≡ ok resp
          → (req : PairRequest) × (fp : Text) × (checked_request C from_str body ≡ ok (req, fp))
            × (((g : Grant) × Elem g s.grants.content
                  × (g.fingerprint ≡ fp)
                  × (is_live now g.expires_unix ≡ true)
                  × (resp ≡ response PairStatus.approved g.expires_unix))
                ⊎ ((resp ≡ response PairStatus.pending none)
                    × (lookup req.node_id t.pairing.pending
                        ≡ some (record { request = req; received_unix = now })))))
unfolding pair_request
pair_request_lem C from_str s body now v = elim (Result-cases (checked_request C from_str body)) [
  | inr (x, e) ↦
      rw (e, pair_request)
        (record { same_grants = refl; same_contacts = refl; bounded = v }, λ resp h. absurd (cc))
  | inl ((req, fp), e) ↦
      rw (e, pair_request)
        elim (Option-cases (existing_grant s fp now)) [
          | inr (x, e2) ↦
              rw (e2, pair_request)
                (
                  record { same_grants = refl; same_contacts = refl; bounded = v },
                  λ resp h.
                      let (g, member, same_fp, same, live) = existing_grant-live s fp now x e2 in
                      (req, fp, refl, inl (g, member, same_fp, rw same live, rw same cc)),
                )
          | inl e2 ↦
              rw (e2, pair_request)
                let (k, f) = queue_request-Keeps s req now v in
                  (k, λ resp h. (req, fp, refl, inr (f resp h)))
        ]
]
