-- ===== src/Contacts/Pinned.antt =====
-- A PC is added only if both of its connections carried the certificate of the fingerprint that is
-- stored: `add_contact` of crates/doclinkd/src/admin.rs and `check` of crates/doclinkd/src/peer.rs.
use doc_link.Contacts.{
  Reply, Lan, same_ignoring_case, check, valid_node_id, bad_gateway, normalize_id,
  resolve_peer_base, checked_id, fetch_identity, signed_request, asked, stored_contact, add_contact,
}
use doc_link.Protocol.{
  HttpError, http_error, lit, NodeInfo, PairRequest, PairStatusResponse, canonical_request_string,
}
use doc_link.Identity.{Crypto, SigningKey, node_id, fingerprint}
use doc_link.Auth.Complete.{KeyLaws, verify-sign, fingerprint-hex}
use doc_link.Pairing.Handlers.{checked_request}
use doc_link.State.{AppState}
use doc_link.Store.{Contact, upsert_contact, save}
use doc_link.Base.Results.{Result, ok, err, Result-cases}
use doc_link.Base.{if◌then◌else◌, Bool-cases, Option-cases, ◌==◌, Text, beq_refl, beq-eq}
use doc_link.Base.{ℕ, ◌≡◌, refl, sym, ap, ◌∙◌, ◌⊎◌, inl, inr, Bool, true, false}
use doc_link.Base.{Option, none, some, [], text_eq, nat_eq}

-- A certificate that passes the pin hashes to what was expected, but for the case of its letters.
check-some :
    (certificate : Result Text Text) (want got : Text)
    → check certificate (some want) ≡ ok got
    → (certificate ≡ ok got) × (same_ignoring_case got want ≡ true)
unfolding check
check-some (err e) want got = λ h. absurd (cc)
check-some (ok fp) want got = elim (Bool-cases (same_ignoring_case fp want)) [
  | inr e ↦ rw e λ h. absurd (cc)
  | inl e ↦ rw e λ h. let same : fp ≡ got = cc in (cc, rw same at e)
]

check-none :
    (certificate : Result Text Text) (got : Text)
    → check certificate none ≡ ok got
    → certificate ≡ ok got
unfolding check
check-none (err e) got h = absurd (cc)
check-none (ok fp) got h = h

bad_gateway-ok :
    {A : Type 0} (prefix : Text) (r : Result Text A) (a : A)
    → bad_gateway prefix r ≡ ok a
    → r ≡ ok a
bad_gateway-ok prefix (ok b) a h = let same : b ≡ a = cc in ap ok same
bad_gateway-ok prefix (err e) a h = absurd (cc)

module _ (lan : Lan) where
  -- What a PC said of itself over a connection with the certificate that it named.
  abbrev pub IsIdentity : Text → Text → NodeInfo → Type 0
  IsIdentity base id info =
      (r : Reply NodeInfo) × (fp : Text) × (lan.get_info base ≡ ok r)
      × (r.certificate ≡ ok fp)
      × (r.body ≡ ok info)
      × (info.node_id ≡ id)
      × (same_ignoring_case fp info.fingerprint ≡ true)

  fetch_identity-IsIdentity :
      (base id : Text) (info : NodeInfo)
      → fetch_identity lan base id ≡ ok info
      → IsIdentity base id info
  unfolding fetch_identity
  fetch_identity-IsIdentity base id info =
      elim (Result-cases (bad_gateway (lit "peer unreachable: ") (lan.get_info base))) [
        | inr (x, e) ↦ rw e λ h. absurd (cc)
        | inl (r, e) ↦ elim (Result-cases (bad_gateway [] (check r.certificate none))) [
          | inr (x, e₁) ↦ rw (e, e₁) λ h. absurd (cc)
          | inl (fp, e₁) ↦ elim (Result-cases (bad_gateway (lit "bad peer response: ") r.body)) [
            | inr (x, e₂) ↦ rw (e, e₁, e₂) λ h. absurd (cc)
            | inl (told, e₂) ↦ elim (Bool-cases (told.node_id == id)) [
              | inr e₃ ↦ rw (e, e₁, e₂, e₃) λ h. absurd (cc)
              | inl e₃ ↦ elim (Bool-cases (same_ignoring_case fp told.fingerprint)) [
                | inr e₄ ↦ rw (e, e₁, e₂, e₃, e₄) λ h. absurd (cc)
                | inl e₄ ↦
                    rw (e, e₁, e₂, e₃, e₄)
                      λ h.
                        let same : told ≡ info = cc in
                        (
                          r,
                          fp,
                          bad_gateway-ok (lit "peer unreachable: ") (lan.get_info base) r e,
                          check-none r.certificate fp
                              (bad_gateway-ok [] (check r.certificate none) fp e₁),
                          bad_gateway-ok (lit "bad peer response: ") r.body told e₂ ∙ ap ok same,
                          ap (λ i. i.node_id) (sym same) ∙ beq-eq told.node_id id e₃,
                          ap (λ i. same_ignoring_case fp i.fingerprint) (sym same) ∙ e₄,
                        )
              ]
            ]
          ]
        ]
      ]

  -- A contact that was made with the other PC: who that is, and that both connections were its own.
  abbrev pub IsPinned :
      Crypto → SigningKey → AppState → Text → ℕ → Contact → PairStatusResponse → Type 0
  IsPinned C k s id duration_secs c status =
      (c.node_id ≡ id)
      × (valid_node_id id ≡ true)
      × (id == s.node.node_id ≡ false)
      × ((base fp : Text) × (info : NodeInfo) × (r : Reply PairStatusResponse) × IsIdentity base id
            info
          × (c.fingerprint ≡ info.fingerprint)
          × (lan.post_request base (signed_request lan C k s.node duration_secs) ≡ ok r)
          × (r.certificate ≡ ok fp)
          × (same_ignoring_case fp info.fingerprint ≡ true)
          × (r.body ≡ ok status))

  checked_id-ok :
      (s : AppState) (id : Text) (u : Unit)
      → checked_id lan s id ≡ ok u
      → (valid_node_id id ≡ true) × (id == s.node.node_id ≡ false)
  unfolding checked_id
  checked_id-ok s id u = elim (Bool-cases (valid_node_id id)) [
    | inr e ↦ rw e λ h. absurd (cc)
    | inl e ↦ elim (Bool-cases (id == s.node.node_id)) [
      | inl e₁ ↦ rw (e, e₁) λ h. absurd (cc)
      | inr e₁ ↦ λ h. (e, e₁)
    ]
  ]

  asked-IsPinned :
      (C : Crypto) (k : SigningKey) (s : AppState) (id alias : Text) (host : Option Text)
      (duration_secs : ℕ) (c : Contact) (status : PairStatusResponse)
      → asked lan C k s id alias host duration_secs ≡ ok (c, status)
      → IsPinned C k s id duration_secs c status
  unfolding asked
  asked-IsPinned C k s id alias host duration_secs c status =
      let post = lit "pair request failed: " in
      elim (Result-cases (checked_id lan s id)) [
        | inr (x, e) ↦ rw e λ h. absurd (cc)
        | inl (u, e) ↦ elim (Option-cases (resolve_peer_base lan id host)) [
          | inl e₁ ↦ rw (e, e₁) λ h. absurd (cc)
          | inr ((base, told), e₁) ↦ elim (Result-cases (fetch_identity lan base id)) [
            | inr (x, e₂) ↦ rw (e, e₁, e₂) λ h. absurd (cc)
            | inl (info, e₂) ↦
                let sent = lan.post_request base (signed_request lan C k s.node duration_secs) in
                elim (Result-cases (bad_gateway post sent)) [
                  | inr (x, e₃) ↦ rw (e, e₁, e₂, e₃) λ h. absurd (cc)
                  | inl (r, e₃) ↦
                      let pinned = check r.certificate (some info.fingerprint) in
                      elim (Result-cases (bad_gateway [] pinned)) [
                        | inr (x, e₄) ↦ rw (e, e₁, e₂, e₃, e₄) λ h. absurd (cc)
                        | inl (fp, e₄) ↦
                            elim (Result-cases (bad_gateway (lit "bad pair response: ") r.body)) [
                              | inr (x, e₅) ↦ rw (e, e₁, e₂, e₃, e₄, e₅) λ h. absurd (cc)
                              | inl (answer, e₅) ↦
                                  rw (e, e₁, e₂, e₃, e₄, e₅)
                                    λ h.
                                      let (valid, other) = checked_id-ok s id u e in
                                      let named : c.node_id ≡ id = cc in
                                      let kept : c.fingerprint ≡ info.fingerprint = cc in
                                      let same : answer ≡ status = cc in
                                      let (certified, hashes) =
                                        check-some r.certificate info.fingerprint fp
                                          (bad_gateway-ok [] pinned fp e₄) in
                                      (
                                        named,
                                        valid,
                                        other,
                                        (
                                          base,
                                          fp,
                                          info,
                                          r,
                                          fetch_identity-IsIdentity base id info e₂,
                                          kept,
                                          bad_gateway-ok post sent r e₃,
                                          certified,
                                          hashes,
                                          bad_gateway-ok (lit "bad pair response: ") r.body answer
                                                e₅
                                              ∙ ap ok same,
                                        ),
                                      )
                            ]
                      ]
                ]
          ]
        ]
      ]

  stored_contact-ok :
      (s : AppState) (writable : Bool) (c : Contact) (status : PairStatusResponse)
      → ((stored_contact lan s writable (ok (c, status))).0.contacts.content
          ≡ upsert_contact s.contacts.content c)
        × ((stored_contact lan s writable (ok (c, status))).1
            ≡ (if writable then ok status else err (http_error 500 (lit "write failed"))))
  unfolding save
  stored_contact-ok s true c status = (refl, refl)
  stored_contact-ok s false c status = (refl, refl)

  -- Adding a PC either changes nothing and is refused, or stores a contact under the id that was
  -- given, which is well formed and not this PC's own, with the fingerprint that the certificates of
  -- both connections to it hash to, in place of an older contact of the id; it then answers what the
  -- other PC answered, unless the store cannot be written.
  pub add_contact-IsPinned :
      (C : Crypto) (k : SigningKey) (s : AppState) (raw alias : Text) (host : Option Text)
      (duration_secs : ℕ) (writable : Bool)
      → ((e : HttpError) × (add_contact lan C k s raw alias host duration_secs writable
            ≡ (s, err e)))
        ⊎ ((c : Contact) × (status : PairStatusResponse) × IsPinned C k s
              (normalize_id lan raw)
              duration_secs
              c
              status
            × ((add_contact lan C k s raw alias host duration_secs writable).0.contacts.content
                ≡ upsert_contact s.contacts.content c)
            × ((add_contact lan C k s raw alias host duration_secs writable).1
                ≡ (if writable then ok status else err (http_error 500 (lit "write failed")))))
  unfolding add_contact
  add_contact-IsPinned C k s raw alias host duration_secs writable =
      elim (Result-cases (asked lan C k s (normalize_id lan raw) alias host duration_secs)) [
        | inr (x, e) ↦ rw (e, add_contact) (inl (x, refl))
        | inl ((c, status), e) ↦
            let pinned =
              asked-IsPinned C k s (normalize_id lan raw) alias host duration_secs c status e in
            let (now_stored, answers) = stored_contact-ok s writable c status in
            rw (e, add_contact) (inr (c, status, pinned, now_stored, answers))
      ]

  -- The request that adding a PC sends passes the checks of the other PC's pairing endpoint, which
  -- take it for the sender's: for keys that keep the documented laws, and if the body is read as
  -- the request that was sent.
  pub signed_request-checked :
      (C : Crypto) (k : SigningKey) (laws : KeyLaws C k) (node : NodeInfo) (duration_secs : ℕ)
      (from_str : Text → Option PairRequest) (body : Text)
      → node.node_id ≡ node_id C k
      → from_str body ≡ some (signed_request lan C k node duration_secs)
      → checked_request C from_str body
        ≡ ok (signed_request lan C k node duration_secs, fingerprint C k)
  unfolding checked_request signed_request node_id canonical_request_string
  signed_request-checked C k laws node duration_secs from_str body own read =
      rw
        (
          read,
          verify-sign C k laws
              (canonical_request_string (signed_request lan C k node duration_secs)),
          fingerprint-hex C k laws,
          own,
          beq_refl (node_id C k),
        )
        refl
