-- ===== src/Subtract/Adds.antt =====
-- The new scope grants nothing that the old one did not.
use doc_link.Scope.{within, can_read_file}
use doc_link.Scope.Laws.{Inside, Inside-trans, within_iff, can_read_file_iff}
use doc_link.Subtract.{
  Outcome, out_of_fuel, nothing, kept, push_front, extend, survivors, walk, narrow, changed,
  or_no_access, if_changed, subtract_from_scope, no_access,
}
use doc_link.Subtract.Total.{IsListing}
use doc_link.Base.{Bool-cases, Option-cases, ◌==◌, Text, All, All-append, Elem, All-Elem}
use doc_link.Base.{All-of_Elem, here, there, ℕ, zero, suc, ◌≡◌, refl, sym, subst, ◌≢◌, ◌⊎◌}
use doc_link.Base.{inl, inr, Bool, true, false, not, ◌&&◌, Option, List, [], ◌∷◌, arith}
use doc_link.Base.{text_eq, nat_eq}
use doc_link.Base.Strings.{has_char}
use doc_link.Subtract.{is_empty}
use doc_link.Subtract.Hides.{subtract_hides}

abbrev AllKept : (Text → Type 0) → Outcome → Type 0
AllKept P out_of_fuel = Unit
AllKept P nothing = Unit
AllKept P (kept qs) = All P qs

module _ (P : Text → Type 0) where
  AllKept-extend : (a b : Outcome) → AllKept P a → AllKept P b → AllKept P (extend a b)
  AllKept-extend out_of_fuel b ha hb = tt
  AllKept-extend nothing b ha hb = tt
  AllKept-extend (kept ps) out_of_fuel ha hb = tt
  AllKept-extend (kept ps) nothing ha hb = tt
  AllKept-extend (kept ps) (kept qs) ha hb = All-append P ps qs ha hb

  AllKept-push_front : (p : Text) (b : Outcome) → P p → AllKept P b → AllKept P (push_front p b)
  AllKept-push_front p out_of_fuel h hb = tt
  AllKept-push_front p nothing h hb = tt
  AllKept-push_front p (kept qs) h hb = (h, hb)

AllKept-map :
    (P Q : Text → Type 0) → ((q : Text) → P q → Q q) → (a : Outcome) → AllKept P a → AllKept Q a
AllKept-map P Q f out_of_fuel h = tt
AllKept-map P Q f nothing h = tt
AllKept-map P Q f (kept qs) h = All-of_Elem Q qs (λ q m. f q (All-Elem P qs q h m))

module _ (children : Text → Option (List Text)) (removed : Text) (lawful : IsListing children) where
  survivors-Inside :
      (d : Text) (deeper : Text → Outcome) (ks : List Text)
      → ((k : Text) → Elem k ks → Inside k d)
      → ((k : Text) → Elem k ks → within removed k ≡ true → AllKept (λ q. Inside q k) (deeper k))
      → AllKept (λ q. Inside q d) (survivors children removed deeper ks)
  unfolding survivors
  survivors-Inside d deeper [] inside h = tt
  survivors-Inside d deeper (k ∷ ks) inside h =
      let rest = survivors-Inside d deeper ks (λ j m. inside j (there m)) (λ j m. h j (there m)) in
      elim (Bool-cases (k == removed)) [
        | inl same ↦ rw same rest
        | inr other ↦ elim (Bool-cases (within removed k)) [
          | inl above ↦
              let here_inside = inside k (here refl) in
              rw (other, above)
                (AllKept-extend (λ q. Inside q d) _ _
                  (AllKept-map (λ q. Inside q k) (λ q. Inside q d)
                    (λ q i. Inside-trans q k d i here_inside) _ (h k (here refl) above))
                  rest)
          | inr aside ↦
              rw (other, aside)
                (AllKept-push_front (λ q. Inside q d) k _ (inside k (here refl)) rest)
        ]
      ]

  -- What the walk below a directory keeps lies inside the directory.
  walk-Inside :
      (fuel : ℕ) (d : Text) → d ≢ [] → AllKept (λ q. Inside q d) (walk children removed fuel d)
  unfolding walk
  walk-Inside zero d n = tt
  walk-Inside (suc fuel) d n = elim (Option-cases (children d)) [
    | inl e ↦ rw (e, walk) tt
    | inr (ks, e) ↦
        rw (e, walk)
          (survivors-Inside d (walk children removed fuel) ks
            (λ k m. (within_iff k d).0 ((lawful d k ks e m).1 n))
            (λ k m w. walk-Inside fuel k ((within_iff removed k).0 w).0))
  ]

  -- Granted before: one of the old paths, or inside one of them.
  abbrev Old : List Text → Text → Type 0
  Old ps q = (p : Text) × Elem p ps × ((q ≡ p) ⊎ Inside q p)

  Old-there : (p : Text) (ps : List Text) (q : Text) → Old ps q → Old (p ∷ ps) q
  Old-there p ps q (r, m, c) = (r, there m, c)

  narrow-Old : (fuel : ℕ) (ps : List Text) → AllKept (Old ps) (narrow children removed fuel ps)
  unfolding narrow
  narrow-Old fuel [] = tt
  narrow-Old fuel (p ∷ ps) =
      let rest = AllKept-map (Old ps) (Old (p ∷ ps)) (Old-there p ps) _ (narrow-Old fuel ps) in
      elim (Bool-cases (p == removed)) [
        | inl same ↦ rw same rest
        | inr other ↦ elim (Bool-cases (not (is_empty p) && within removed p)) [
          | inl above ↦
              let w : within removed p ≡ true = ground (arith, above) in
              rw (other, above)
                (AllKept-extend (Old (p ∷ ps)) _ _
                  (AllKept-map (λ q. Inside q p) (Old (p ∷ ps)) (λ q i. (p, here refl, inr i)) _
                    (walk-Inside fuel p ((within_iff removed p).0 w).0))
                  rest)
          | inr aside ↦
              rw (other, aside)
                (AllKept-push_front (Old (p ∷ ps)) p _ (p, here refl, inl refl) rest)
        ]
      ]

  -- An old path, or the sentinel.
  abbrev OldOrNone : List Text → Text → Type 0
  OldOrNone ps q = (q ≡ no_access) ⊎ Old ps q

  or_no_access-Old :
      (ps : List Text) (out : Outcome)
      → AllKept (Old ps) out
      → AllKept (OldOrNone ps) (or_no_access children removed out)
  or_no_access-Old ps out_of_fuel h = tt
  or_no_access-Old ps nothing h = tt
  or_no_access-Old ps (kept []) h = (inl refl, tt)
  or_no_access-Old ps (kept (q ∷ qs)) h =
      All-of_Elem (OldOrNone ps) (q ∷ qs) (λ r m. inr (All-Elem (Old ps) (q ∷ qs) r h m))

  if_changed-Old :
      (ps : List Text) (b : Bool) (out : Outcome)
      → AllKept (Old ps) out
      → AllKept (Old ps) (if_changed children removed b out)
  if_changed-Old ps true out h = h
  if_changed-Old ps false out_of_fuel h = tt
  if_changed-Old ps false nothing h = tt
  if_changed-Old ps false (kept qs) h = tt

  readable_before :
      (ps : List Text) (f q : Text)
      → has_char 0 f ≡ false
      → OldOrNone ps q
      → (f ≡ q) ⊎ Inside f q
      → can_read_file ps f ≡ true
  unfolding has_char
  readable_before ps f q z (inl e) (inl s) = absurd (ground (arith, z, s, e))
  readable_before ps f q z (inl e) (inr (n, (r, s))) = absurd (ground (arith, z, s, e))
  readable_before ps f q z (inr (p, m, c)) (inl s) =
      (can_read_file_iff ps f).1 (inr (p, m, subst (λ t. (t ≡ p) ⊎ Inside t p) (sym s) c))
  readable_before ps f q z (inr (p, m, inl e)) (inr i) =
      (can_read_file_iff ps f).1 (inr (p, m, inr (subst (Inside f) e i)))
  readable_before ps f q z (inr (p, m, inr c)) (inr i) =
      (can_read_file_iff ps f).1 (inr (p, m, inr (Inside-trans f q p i c)))

  subtract-Old :
      (fuel : ℕ) (p : Text) (ps : List Text)
      → AllKept (OldOrNone (p ∷ ps)) (subtract_from_scope children removed fuel (p ∷ ps))
  unfolding subtract_from_scope
  subtract-Old fuel p ps =
      or_no_access-Old (p ∷ ps) _
        (if_changed-Old (p ∷ ps) (changed children removed (p ∷ ps)) _ (narrow-Old fuel (p ∷ ps)))

  from_some :
      (f : Text) (p : Text) (ps out : List Text)
      → has_char 0 f ≡ false
      → All (OldOrNone (p ∷ ps)) out
      → out ≢ []
      → can_read_file out f ≡ true
      → can_read_file (p ∷ ps) f ≡ true
  from_some f p ps out z a n h = elim ((can_read_file_iff out f).0 h) [
    | inl e ↦ absurd (n e)
    | inr (q, m, c) ↦ readable_before (p ∷ ps) f q z (All-Elem (OldOrNone (p ∷ ps)) out q a m) c
  ]

  -- With lawful listings every file (without a NUL in its name) that can be read under the new
  -- scope could be read under the old one.
  pub subtract_adds_nothing :
      (fuel : ℕ) (paths out : List Text) (f : Text)
      → subtract_from_scope children removed fuel paths ≡ kept out
      → has_char 0 removed ≡ false
      → has_char 0 f ≡ false
      → can_read_file out f ≡ true
      → can_read_file paths f ≡ true
  subtract_adds_nothing fuel [] out f e zr z h = (can_read_file_iff [] f).1 (inl refl)
  subtract_adds_nothing fuel (p ∷ ps) out f e zr z h =
      from_some f p ps out z (subst (AllKept (OldOrNone (p ∷ ps))) e (subtract-Old fuel p ps))
        (subtract_hides children removed fuel (p ∷ ps) out zr e).0 h
