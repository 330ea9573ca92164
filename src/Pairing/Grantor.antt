-- ===== src/Pairing/Grantor.antt =====
-- What a pushed decision can do on the requester's side, `pair_decision` of
-- crates/doclinkd/src/server.rs.
use doc_link.Protocol.{HttpError, PairDecision, canonical_decision_string}
use doc_link.Identity.{Crypto, verify, fingerprint_from_pubkey_hex}
use doc_link.State.{AppState}
use doc_link.Store.{Contact, ContactsFile, save, Store}
use doc_link.Pairing.Handlers.{checked_decision, relabel, pair_decision, update_contact}
use doc_link.Base.Results.{ok, Result-cases, err}
use doc_link.Base.{if◌then◌else◌, Bool-cases, Option-cases, ◌==◌, Text, beq-eq, any, find}
use doc_link.Base.{◌≡◌, refl, sym, ap, inl, inr, true, false, Option, some, [], ◌∷◌}
use doc_link.Base.{text_eq, nat_eq}
use doc_link.Base.{ℕ, ◌∙◌, subst, ◌⊎◌, Bool}
use doc_link.Pairing.Bounded.{IsBounded, remember_decision-IsBounded}
use doc_link.Base.Map.{Map, lookup, contains_key, lookup-remove}
use doc_link.State.{PairingState}
use doc_link.Protocol.{PairStatusResponse}
use doc_link.Base.{leb, length, not, ◌&&◌, ◌++◌, none}
use doc_link.Pairing.{response, expiry, remember_decision, evict, oldest_from}
use doc_link.Pairing.Handlers.{decided_status, label}

-- A decision that passes the checks: signed by the key that it names, addressed to this node, and
-- from a key whose fingerprint a contact has.
pub record IsFromContact (C : Crypto) (s : AppState) (d : PairDecision) (fp : Text) : Type 0 where
  pub signed : verify C d.pubkey_hex (canonical_decision_string d) d.signature ≡ ok tt
  pub addressed : d.requester_node_id ≡ s.node.node_id
  pub key_fingerprint : fingerprint_from_pubkey_hex C d.pubkey_hex ≡ ok fp
  pub known : any (λ c. c.fingerprint == fp) s.contacts.content ≡ true

pub checked_decision-IsFromContact :
    (C : Crypto) (from_str : Text → Option PairDecision) (s : AppState) (body : Text)
    (d : PairDecision) (fp : Text)
    → checked_decision C from_str s body ≡ ok (d, fp)
    → (from_str body ≡ some d) × IsFromContact C s d fp
unfolding checked_decision
checked_decision-IsFromContact C from_str s body d fp = elim (Option-cases (from_str body)) [
  | inl e ↦ rw e λ h. absurd (cc)
  | inr (r, e) ↦
      rw e elim (Result-cases (verify C r.pubkey_hex (canonical_decision_string r) r.signature)) [
        | inr (x, e2) ↦ rw e2 λ h. absurd (cc)
        | inl (u, e2) ↦ rw e2 elim (Bool-cases (r.requester_node_id == s.node.node_id)) [
          | inr e3 ↦ rw e3 λ h. absurd (cc)
          | inl e3 ↦ rw e3 elim (Result-cases (fingerprint_from_pubkey_hex C r.pubkey_hex)) [
            | inr (x, e4) ↦ rw e4 λ h. absurd (cc)
            | inl (f, e4) ↦
                rw e4 elim (Bool-cases (any (λ c. c.fingerprint == f) s.contacts.content)) [
                  | inr e5 ↦ rw e5 λ h. absurd (cc)
                  | inl e5 ↦ rw e5 λ h.
                      let same : r ≡ d = cc in
                      let same_fp : f ≡ fp = cc in
                      rw (sym same, sym same_fp)
                        (
                          refl,
                          record {
                            signed = e2;
                            addressed = beq-eq _ _ e3;
                            key_fingerprint = e4;
                            known = e5;
                          },
                        )
                ]
          ]
        ]
      ]
]

-- The first contact with the fingerprint has the status, and every other one is as before.
abbrev pub IsRelabelled : Text → Text → ContactsFile → Contact → ContactsFile → Type 0
IsRelabelled fp l before c after =
    (front : ContactsFile) × (back : ContactsFile) × (before ≡ front ++ (c ∷ back))
    × (after ≡ front ++ (record c { status = l } ∷ back))
    × (c.fingerprint ≡ fp)
    × (any (λ x. x.fingerprint == fp) front ≡ false)

relabel-IsRelabelled :
    (fp l : Text) (cs : ContactsFile) (c : Contact)
    → find (λ x. x.fingerprint == fp) cs ≡ some c
    → IsRelabelled fp l cs c (relabel fp l cs)
unfolding relabel find any
relabel-IsRelabelled fp l [] c = λ h. absurd (cc)
relabel-IsRelabelled fp l (x ∷ xs) c = elim (Bool-cases (x.fingerprint == fp)) [
  | inl e ↦ rw e λ h.
      let same : x ≡ c = cc in rw (sym same) ([], xs, refl, refl, beq-eq x.fingerprint fp e, refl)
  | inr e ↦ rw e λ h.
      let (front, back, was, is, mine, first) = relabel-IsRelabelled fp l xs c h in
      (x ∷ front, back, ap (λ r. x ∷ r) was, ap (λ r. x ∷ r) is, mine, rw e first)
]

-- Whoever has the status already is relabelled to it.
IsRelabelled-same :
    (fp l : Text) (cs : ContactsFile) (c : Contact)
    → find (λ x. x.fingerprint == fp) cs ≡ some c
    → c.status ≡ l
    → IsRelabelled fp l cs c cs
IsRelabelled-same fp l cs c found e =
    let (front, back, was, is, mine, first) = relabel-IsRelabelled fp l cs c found in
    (front, back, was, was ∙ ap (λ z. front ++ (record c { status = z } ∷ back)) e, mine, first)

update_contact_lem :
    (contacts : Store ContactsFile) (fp l : Text) (writable : Bool) (c : Contact)
    → find (λ x. x.fingerprint == fp) contacts.content ≡ some c
    → let after = update_contact contacts fp l writable in
      IsRelabelled fp l contacts.content c after.content
      × (after.on_disk
          ≡ (if writable && not (c.status == l) then some after.content else contacts.on_disk))
unfolding update_contact save
update_contact_lem contacts fp l writable c found = elim (Bool-cases (c.status == l)) [
  | inl e ↦
      rw (found, update_contact) rw (e, update_contact)
        (
          IsRelabelled-same fp l contacts.content c found (beq-eq c.status l e),
          elim (Bool-cases writable) [ inl w ↦ rw w refl | inr w ↦ rw w refl ],
        )
  | inr e ↦
      let new = relabel-IsRelabelled fp l contacts.content c found in
      rw (found, update_contact) rw (e, update_contact)
        elim (Bool-cases writable) [
          | inl w ↦ rw (w, save) (new, refl)
          | inr w ↦ rw (w, save) (new, refl)
        ]
]

-- The decision is what a lookup finds, and any other decision is as before, but for one that gives
-- way if there were already `MAX_DECISIONS` others.
abbrev pub IsRemembered :
    Text
    → PairStatusResponse × ℕ
    → Map Text (PairStatusResponse × ℕ)
    → Map Text (PairStatusResponse × ℕ)
    → Type 0
IsRemembered id new before after =
    (old : Text) × ((j : Text)
      → lookup j after ≡ (
          if id == j
          then some new
          else if not (contains_key id before) && leb 256 (length before)
          then (if old == j then none else lookup j before)
          else lookup j before))

evict_lem :
    (d : Map Text (PairStatusResponse × ℕ))
    → (old : Text) × ((j : Text) → lookup j (evict d) ≡ (if old == j then none else lookup j d))
unfolding evict lookup
evict_lem [] = ([], λ j. elim (Bool-cases ([] == j)) [ inl e ↦ rw e refl | inr e ↦ rw e refl ])
evict_lem ((k, (r, at)) ∷ d) =
    (oldest_from (k, at) d, λ j. lookup-remove j (oldest_from (k, at) d) ((k, (r, at)) ∷ d))

remember_decision-IsRemembered :
    (p : PairingState) (id : Text) (resp : PairStatusResponse) (now : ℕ)
    → IsBounded p
    → IsRemembered id (resp, now) p.decisions (remember_decision p id resp now).decisions
remember_decision-IsRemembered p id resp now v =
    let (b, l) = remember_decision-IsBounded p id resp now v in
    let (old, gone) = evict_lem p.decisions in
    (
      old,
      elim (Bool-cases (not (contains_key id p.decisions) && leb 256 (length p.decisions))) [
        | inl full ↦ rw full λ j.
            l j
            ∙ (ap
                  (λ b.
                    if id == j
                    then some (resp, now)
                    else lookup j (if b then evict p.decisions else p.decisions))
                  full
                ∙ ap (λ r. if id == j then some (resp, now) else r) (gone j))
        | inr room ↦ rw room λ j.
            l j
            ∙ ap
                (λ b.
                  if id == j
                  then some (resp, now)
                  else lookup j (if b then evict p.decisions else p.decisions))
                room
      ],
    )

any-find :
    (p : Contact → Bool) (cs : ContactsFile)
    → any p cs ≡ true
    → (c : Contact) × (find p cs ≡ some c)
unfolding any find
any-find p [] = λ h. absurd (cc)
any-find p (x ∷ xs) = elim (Bool-cases (p x)) [
  | inl e ↦ rw e λ h. (x, refl)
  | inr e ↦ rw e λ h. any-find p xs h
]

-- Anyone on the network can call this endpoint, so: nothing changes but the decisions and the
-- contacts, the pairing state keeps its bounds, and a refused decision changes nothing. A decision
-- that is taken was signed by a key whose fingerprint a contact has and is addressed to this node;
-- it is remembered for this node, every other decision is as before, but for one that gives way if
-- the table is full, and the first contact with that fingerprint gets the decision's label as its
-- status, while all else about the contacts is as before. Their file is written, if it can be, just
-- if the label is a new one.
pub pair_decision_lem :
    (C : Crypto) (from_str : Text → Option PairDecision) (s : AppState) (body : Text) (now : ℕ)
    (writable : Bool)
    → IsBounded s.pairing
    → let (t, answer) = pair_decision C from_str s body now writable in
      (t ≡ record s {
        pairing = record s.pairing { decisions = t.pairing.decisions };
        contacts = t.contacts;
      })
      × IsBounded t.pairing
      × (((e : HttpError) × (answer ≡ err e) × (t ≡ s))
          ⊎ ((d : PairDecision) × (fp : Text) × (c : Contact) × (answer ≡ ok tt)
              × (from_str body ≡ some d)
              × IsFromContact C s d fp
              × IsRemembered s.node.node_id
                  (response (decided_status d.decision) (expiry now d.duration_secs), now)
                  s.pairing.decisions
                  t.pairing.decisions
              × IsRelabelled fp
                  (label (decided_status d.decision))
                  s.contacts.content
                  c
                  t.contacts.content
              × (t.contacts.on_disk ≡ (
                  if writable && not (c.status == label (decided_status d.decision))
                  then some t.contacts.content
                  else s.contacts.on_disk))))
unfolding pair_decision remember_decision
pair_decision_lem C from_str s body now writable v =
    elim (Result-cases (checked_decision C from_str s body)) [
      | inr (x, e) ↦ rw (e, pair_decision) (refl, v, inl (x, refl, refl))
      | inl ((d, fp), e) ↦
          rw (e, pair_decision)
            let resp = response (decided_status d.decision) (expiry now d.duration_secs) in
              let (b, l) = remember_decision-IsBounded s.pairing d.requester_node_id resp now v in
              let (read, good) = checked_decision-IsFromContact C from_str s body d fp e in
              let (c, found) = any-find _ _ good.known in
              let (mine, file) =
                update_contact_lem s.contacts fp (label (decided_status d.decision)) writable c
                  found in
              let decided =
                subst
                  (λ j.
                    IsRemembered j (resp, now) s.pairing.decisions
                      (remember_decision s.pairing d.requester_node_id resp now).decisions)
                  good.addressed
                  (remember_decision-IsRemembered s.pairing d.requester_node_id resp now v) in
              (refl, b, inr (d, fp, c, refl, read, good, decided, mine, file))
    ]
