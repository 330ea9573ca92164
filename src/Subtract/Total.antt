-- ===== src/Subtract/Total.antt =====
-- The recursion over the ancestors ends, and the new scope grants nothing new.
use doc_link.Scope.{within}
use doc_link.Subtract.{
  Outcome, out_of_fuel, nothing, kept, push_front, extend, survivors, walk, narrow, changed,
  or_no_access, if_changed, subtract_from_scope,
}
use doc_link.Base.{Bool-cases, Option-cases, ◌==◌, Text, length, Elem, here, there, ℕ, zero}
use doc_link.Base.{suc, ◌+◌, ◌≤◌, ◌<◌, ◌≡◌, refl, ◌≢◌, inl, inr, Bool, true, false, not}
use doc_link.Base.{◌&&◌, Option, some, List, [], ◌∷◌, arith, text_eq, nat_eq}
use doc_link.Subtract.{is_empty}

-- What a listing is: its entries lie below the listed directory, and have a name.
abbrev pub IsListing : (Text → Option (List Text)) → Type 0
IsListing children =
    (d k : Text) (ks : List Text)
    → children d ≡ some ks
    → Elem k ks
    → (length d < length k) × (d ≢ [] → within k d ≡ true)

length-within : (p a : Text) → within p a ≡ true → length a < length p
unfolding within
length-within p a h = ground arith

module _ (children : Text → Option (List Text)) (removed : Text) (lawful : IsListing children) where
  extend-ne-out_of_fuel :
      (a b : Outcome) → a ≢ out_of_fuel → b ≢ out_of_fuel → extend a b ≢ out_of_fuel
  extend-ne-out_of_fuel out_of_fuel b ha hb = ha
  extend-ne-out_of_fuel nothing b ha hb = ha
  extend-ne-out_of_fuel (kept ps) out_of_fuel ha hb = hb
  extend-ne-out_of_fuel (kept ps) nothing ha hb = hb
  extend-ne-out_of_fuel (kept ps) (kept qs) ha hb = λ e. cc

  push_front-ne-out_of_fuel :
      (p : Text) (b : Outcome) → b ≢ out_of_fuel → push_front p b ≢ out_of_fuel
  push_front-ne-out_of_fuel p out_of_fuel hb = hb
  push_front-ne-out_of_fuel p nothing hb = hb
  push_front-ne-out_of_fuel p (kept qs) hb = λ e. cc

  survivors-total :
      (deeper : Text → Outcome) (ks : List Text)
      → ((k : Text) → Elem k ks → within removed k ≡ true → deeper k ≢ out_of_fuel)
      → survivors children removed deeper ks ≢ out_of_fuel
  unfolding survivors
  survivors-total deeper [] h = λ e. cc
  survivors-total deeper (k ∷ ks) h = elim (Bool-cases (k == removed)) [
    | inl same ↦ rw same (survivors-total deeper ks (λ j m. h j (there m)))
    | inr other ↦ elim (Bool-cases (within removed k)) [
      | inl above ↦
          rw (other, above)
            (extend-ne-out_of_fuel _ _ (h k (here refl) above)
              (survivors-total deeper ks (λ j m. h j (there m))))
      | inr aside ↦
          rw (other, aside)
            (push_front-ne-out_of_fuel k _ (survivors-total deeper ks (λ j m. h j (there m))))
    ]
  ]

  walk-total :
      (fuel : ℕ) (d : Text)
      → length removed < fuel + length d
      → (length d ≤ length removed)
      → walk children removed fuel d ≢ out_of_fuel
  unfolding walk
  walk-total zero d h b = absurd (omega arith)
  walk-total (suc fuel) d h b = elim (Option-cases (children d)) [
    | inl e ↦ rw (e, walk) (λ z. cc)
    | inr (ks, e) ↦
        rw (e, walk)
          (survivors-total (walk children removed fuel) ks (λ k m w.
            walk-total fuel k (omega (arith, (lawful d k ks e m).0))
              (omega (arith, length-within removed k w))))
  ]

  narrow-total :
      (fuel : ℕ) (ps : List Text)
      → length removed < fuel
      → narrow children removed fuel ps ≢ out_of_fuel
  unfolding narrow
  narrow-total fuel [] h = λ e. cc
  narrow-total fuel (p ∷ ps) h = elim (Bool-cases (p == removed)) [
    | inl same ↦ rw same (narrow-total fuel ps h)
    | inr other ↦ elim (Bool-cases (not (is_empty p) && within removed p)) [
      | inl above ↦
          let w : within removed p ≡ true = ground (arith, above) in
          rw (other, above)
            (extend-ne-out_of_fuel _ _
              (walk-total fuel p (omega arith) (omega (arith, length-within removed p w)))
              (narrow-total fuel ps h))
      | inr aside ↦ rw (other, aside) (push_front-ne-out_of_fuel p _ (narrow-total fuel ps h))
    ]
  ]

  or_no_access-total :
      (out : Outcome) → out ≢ out_of_fuel → or_no_access children removed out ≢ out_of_fuel
  or_no_access-total out_of_fuel h = h
  or_no_access-total nothing h = h
  or_no_access-total (kept []) h = λ e. cc
  or_no_access-total (kept (p ∷ ps)) h = λ e. cc

  if_changed-total :
      (b : Bool) (out : Outcome)
      → out ≢ out_of_fuel
      → if_changed children removed b out ≢ out_of_fuel
  if_changed-total true out h = h
  if_changed-total false out_of_fuel h = h
  if_changed-total false nothing h = h
  if_changed-total false (kept ps) h = λ e. cc

  -- With listings whose entries are longer than the directory, the recursion ends: fuel beyond the
  -- length of the removed path is enough for every scope.
  pub subtract_total :
      (fuel : ℕ) (paths : List Text)
      → length removed < fuel
      → subtract_from_scope children removed fuel paths ≢ out_of_fuel
  unfolding subtract_from_scope
  subtract_total fuel [] h = or_no_access-total _ (walk-total fuel [] (omega arith) (omega arith))
  subtract_total fuel (p ∷ ps) h =
      or_no_access-total _
        (if_changed-total (changed children removed (p ∷ ps)) _ (narrow-total fuel (p ∷ ps) h))
