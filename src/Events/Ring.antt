-- ===== src/Events/Ring.antt =====
-- The ring keeps the newest events under consecutive ids, and each expiry is announced once.
use doc_link.Events.{cap_events, Event, Events, no_events, shrink, push}
use doc_link.Base.{
  ltb, Bool-cases, Text, length, length-append, ℕ, ◌+◌, ◌-◌, ◌≤◌, min, max, ◌≡◌, ◌⊎◌,
}
use doc_link.Base.{refl, subst, inl, inr, List, [], ◌∷◌, ◌++◌, arith}
use doc_link.Base.{text_beq_iff, beq_refl, retain, any, sym, true, false}
use doc_link.Events.{claim_expiry, pair_beq, since}
use doc_link.Base.{text_eq, nat_eq}

-- The ids count on from `n`.
abbrev pub CountsFrom : ℕ → List Event → Type 0
CountsFrom n [] = Unit
CountsFrom n (e ∷ es) = (e.id ≡ n + 1) × CountsFrom (n + 1) es

-- The ring holds the last `length items` events, at most `CAP` of them.
pub record IsRing (s : Events) : Type 0 where
  pub bounded : length s.items ≤ cap_events
  pub issued : length s.items ≤ s.next_id
  pub counted : CountsFrom (s.next_id - length s.items) s.items

CountsFrom-append :
    (n : ℕ) (es : List Event) (e : Event)
    → CountsFrom n es
    → e.id ≡ n + length es + 1
    → CountsFrom n (es ++ (e ∷ []))
CountsFrom-append n [] e c h = (omega arith, tt)
CountsFrom-append n (x ∷ es) e (hx, c) h = (hx, CountsFrom-append (n + 1) es e c (omega arith))

length-shrink : (es : List Event) → length (shrink es) ≡ min (length es) cap_events
unfolding shrink
length-shrink [] = omega arith
length-shrink (e ∷ es) = ground (arith, length-shrink es)

CountsFrom-shrink :
    (n : ℕ) (es : List Event)
    → CountsFrom n es
    → CountsFrom (n + (length es - length (shrink es))) (shrink es)
unfolding shrink
CountsFrom-shrink n [] c = tt
CountsFrom-shrink n (e ∷ es) (he, c) = elim (Bool-cases (ltb cap_events (length (e ∷ es)))) [
  | inl over ↦ rw over (
      subst (λ k. CountsFrom k (shrink es)) (ground (arith, length-shrink es))
        (CountsFrom-shrink (n + 1) es c))
  | inr fits ↦ rw fits (subst (λ k. CountsFrom k (e ∷ es)) (omega arith) (he, c))
]

pub no_events-IsRing : IsRing no_events
no_events-IsRing = record { bounded = omega arith; issued = omega arith; counted = tt }

-- A push keeps the ring: it appends one event under the next id and drops the oldest beyond `CAP`.
pub push-IsRing :
    (s : Events) (kind title body : Text) (now : ℕ)
    → IsRing s
    → let (t, ev) = push s kind title body now in
      IsRing t
      × (ev.id ≡ t.next_id)
      × (t.next_id ≡ s.next_id + 1)
      × (length t.items ≡ min (length s.items + 1) cap_events)
unfolding push
push-IsRing s kind title body now v =
    let ev : Event = record {
      id = s.next_id + 1;
      kind = kind;
      title = title;
      body = body;
      unix = now;
    } in
    let grown = CountsFrom-append _ s.items ev v.counted (omega (arith, v.issued)) in
    let l1 = length-shrink (s.items ++ (ev ∷ [])) in
    let l2 = length-append s.items (ev ∷ []) in
    (
      record {
        bounded = omega (arith, l1);
        issued = omega (arith, l1, l2, v.issued);
        counted =
            subst (λ k. CountsFrom k (shrink (s.items ++ (ev ∷ []))))
              (omega (arith, l1, l2, v.issued, v.bounded)) (CountsFrom-shrink _ _ grown);
      },
      refl,
      refl,
      omega (arith, l1, l2),
    )

retain_newer :
    (n last : ℕ) (es : List Event)
    → CountsFrom n es
    → last ≤ n
    → retain (λ e. ltb last e.id) es ≡ es
unfolding retain
retain_newer n last [] c h = refl
retain_newer n last (e ∷ es) (he, c) h = ground (arith, retain_newer (n + 1) last es c)

retain-CountsFrom :
    (n last : ℕ) (es : List Event)
    → CountsFrom n es
    → n ≤ last
    → last ≤ n + length es
    → CountsFrom last (retain (λ e. ltb last e.id) es)
      × (length (retain (λ e. ltb last e.id) es) + last ≡ n + length es)
unfolding retain
retain-CountsFrom n last [] c h k = (tt, omega arith)
retain-CountsFrom n last (e ∷ es) (he, c) h k = elim (Bool-cases (ltb last e.id)) [
  | inl newer ↦
      let same : last ≡ n = ground (arith, newer, he) in
      rw (newer, retain_newer (n + 1) last es c (omega arith))
        ((omega arith, subst (λ m. CountsFrom (m + 1) es) (sym same) c), omega arith)
  | inr older ↦
      let (c', l) = retain-CountsFrom (n + 1) last es c (ground (arith, older, he)) (omega arith) in
      rw older (c', omega (arith, l))
]

leb_cases : (a b : ℕ) → (a ≤ b) ⊎ (b ≤ a)
leb_cases a b = elim (Bool-cases (ltb a b)) [
  | inl h ↦ inl (ground (arith, h))
  | inr h ↦ inr (ground (arith, h))
]

retain_all :
    (n last : ℕ) (es : List Event)
    → CountsFrom n es
    → last ≤ n + length es
    → CountsFrom (max last n) (retain (λ e. ltb last e.id) es)
      × (length (retain (λ e. ltb last e.id) es) + max last n ≡ n + length es)
retain_all n last es c k = elim (leb_cases last n) [
  | inl h ↦
      rw (retain_newer n last es c h)
        (subst (λ m. CountsFrom m es) (omega (arith, h)) c, omega (arith, h))
  | inr h ↦
      let (c', l) = retain-CountsFrom n last es c h k in
      (
        subst (λ m. CountsFrom m (retain (λ e. ltb last e.id) es)) (omega (arith, h)) c',
        omega (arith, h, l),
      )
]

-- A poll is handed the events with the ids after its cursor up to the newest, in order and each
-- once, as far as the ring still holds them: from the cursor on, or from the oldest event in the
-- ring if the cursor is older. The cursor is at most the newest id.
pub since_complete :
    (s : Events) (last : ℕ)
    → IsRing s
    → last ≤ s.next_id
    → let start = max last (s.next_id - length s.items) in
      CountsFrom start (since s last) × (length (since s last) + start ≡ s.next_id)
unfolding since
since_complete s last v k =
    let (c, l) =
      retain_all (s.next_id - length s.items) last s.items v.counted (omega (arith, v.issued, k)) in
    (c, omega (arith, l, v.issued))

pair_beq_refl : (p : Text × ℕ) → pair_beq p p ≡ true
pair_beq_refl (f, t) = ground (arith, beq_refl f)

pair_beq-eq : (p q : Text × ℕ) → pair_beq p q ≡ true → p ≡ q
pair_beq-eq (f, t) (g, u) h = ground (arith, text_beq_iff f g)

-- A pair of fingerprint and expiry is announced once: a second claim answers `false`, and a claim
-- changes the answer for no other pair.
pub claim_expiry_once :
    (s : Events) (f g : Text) (t u : ℕ)
    → let after = (claim_expiry s f t).0 in
      ((claim_expiry after f t).1 ≡ false)
      × (pair_beq (g, u) (f, t) ≡ false → (claim_expiry after g u).1 ≡ (claim_expiry s g u).1)
unfolding claim_expiry any
claim_expiry_once s f g t u =
    let r = pair_beq_refl (f, t) in
    elim (Bool-cases (any (pair_beq (f, t)) s.expiry_announced)) [
      | inl old ↦ (ground (arith, old), λ ne. ground (arith, old))
      | inr new ↦ (ground (arith, new, r), λ ne. ground (arith, new, ne))
    ]
