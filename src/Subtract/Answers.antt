-- ===== src/Subtract/Answers.antt =====
-- The subtraction yields a new scope for an item that can be read (`subtract_from_scope` of
-- crates/doclinkd/src/admin.rs).
use doc_link.Scope.{within, can_read_file}
use doc_link.Subtract.{
  Outcome, out_of_fuel, nothing, kept, push_front, extend, survivors, walk, narrow, changed,
  or_no_access, subtract_from_scope, is_empty,
}
use doc_link.Base.{
  Bool-cases, Option-cases, ◌==◌, any, text_beq_iff, Text, ℕ, zero, suc, ◌≡◌, refl, sym, ◌∙◌,
}
use doc_link.Base.{◌≢◌, inl, inr, true, false, not, ◌&&◌, ◌||◌, Option, none, List, [], ◌∷◌, arith}
use doc_link.Base.{text_eq, nat_eq}

module _ (children : Text → Option (List Text)) (removed : Text) where
  within-nonempty : (p : Text) → within removed p ≡ true → is_empty p ≡ false
  unfolding within
  within-nonempty [] h = absurd (cc)
  within-nonempty (c ∷ p) h = refl

  changed_one :
      (p : Text)
      → (removed == p || within removed p)
        ≡ (p == removed || (not (is_empty p) && within removed p))
  changed_one p = elim (Bool-cases (within removed p)) [
    | inl w ↦ ground (arith, w, within-nonempty p w, text_beq_iff p removed, text_beq_iff removed p)
    | inr w ↦ ground (arith, w, text_beq_iff p removed, text_beq_iff removed p)
  ]

  covers_any_iff :
      (qs : List Text)
      → any (λ q. removed == q || within removed q) qs
        ≡ any (λ q. q == removed || (not (is_empty q) && within removed q)) qs
  unfolding any
  covers_any_iff [] = refl
  covers_any_iff (q ∷ qs) = ground (arith, changed_one q, covers_any_iff qs)

  -- The flag of the loop says whether a scope of some paths lets the item be read.
  pub changed_iff :
      (p : Text) (ps : List Text)
      → can_read_file (p ∷ ps) removed ≡ changed children removed (p ∷ ps)
  unfolding can_read_file changed
  changed_iff p ps = covers_any_iff (p ∷ ps)

module _ (children : Text → Option (List Text)) (removed : Text) (in_share : children [] ≢ none)
    (above : (d : Text) → within removed d ≡ true → children d ≢ none) where
  extend-ne-nothing : (a b : Outcome) → a ≢ nothing → b ≢ nothing → extend a b ≢ nothing
  extend-ne-nothing out_of_fuel b ha hb = ha
  extend-ne-nothing nothing b ha hb = absurd (ha refl)
  extend-ne-nothing (kept ps) out_of_fuel ha hb = hb
  extend-ne-nothing (kept ps) nothing ha hb = absurd (hb refl)
  extend-ne-nothing (kept ps) (kept qs) ha hb = λ e. cc

  push_front-ne-nothing : (p : Text) (b : Outcome) → b ≢ nothing → push_front p b ≢ nothing
  push_front-ne-nothing p out_of_fuel hb = hb
  push_front-ne-nothing p nothing hb = hb
  push_front-ne-nothing p (kept qs) hb = λ e. cc

  survivors-answers :
      (deeper : Text → Outcome) (ks : List Text)
      → ((k : Text) → within removed k ≡ true → deeper k ≢ nothing)
      → survivors children removed deeper ks ≢ nothing
  unfolding survivors
  survivors-answers deeper [] h = λ e. cc
  survivors-answers deeper (k ∷ ks) h = elim (Bool-cases (k == removed)) [
    | inl same ↦ rw same (survivors-answers deeper ks h)
    | inr other ↦ elim (Bool-cases (within removed k)) [
      | inl w ↦ rw (other, w) (extend-ne-nothing _ _ (h k w) (survivors-answers deeper ks h))
      | inr aside ↦ rw (other, aside) (push_front-ne-nothing k _ (survivors-answers deeper ks h))
    ]
  ]

  walk-answers : (fuel : ℕ) (d : Text) → children d ≢ none → walk children removed fuel d ≢ nothing
  unfolding walk
  walk-answers zero d h = λ e. cc
  walk-answers (suc fuel) d h = elim (Option-cases (children d)) [
    | inl e ↦ absurd (h e)
    | inr (ks, e) ↦
        rw (e, walk)
          (survivors-answers (walk children removed fuel) ks
            (λ k w. walk-answers fuel k (above k w)))
  ]

  narrow-answers : (fuel : ℕ) (ps : List Text) → narrow children removed fuel ps ≢ nothing
  unfolding narrow
  narrow-answers fuel [] = λ e. cc
  narrow-answers fuel (p ∷ ps) = elim (Bool-cases (p == removed)) [
    | inl same ↦ rw same (narrow-answers fuel ps)
    | inr other ↦ elim (Bool-cases (not (is_empty p) && within removed p)) [
      | inl walked ↦
          let w : within removed p ≡ true = ground (arith, walked) in
          rw (other, walked)
            (extend-ne-nothing _ _ (walk-answers fuel p (above p w)) (narrow-answers fuel ps))
      | inr aside ↦ rw (other, aside) (push_front-ne-nothing p _ (narrow-answers fuel ps))
    ]
  ]

  or_no_access-answers :
      (out : Outcome) → out ≢ nothing → or_no_access children removed out ≢ nothing
  or_no_access-answers out_of_fuel h = h
  or_no_access-answers nothing h = h
  or_no_access-answers (kept []) h = λ e. cc
  or_no_access-answers (kept (p ∷ ps)) h = λ e. cc

  -- If the share root and each folder above the item are listed, then a scope under which the item
  -- can be read is not left as it is.
  pub subtract_answers :
      (fuel : ℕ) (paths : List Text)
      → can_read_file paths removed ≡ true
      → subtract_from_scope children removed fuel paths ≢ nothing
  unfolding subtract_from_scope
  subtract_answers fuel [] h = or_no_access-answers _ (walk-answers fuel [] in_share)
  subtract_answers fuel (p ∷ ps) h =
      let flag : changed children removed (p ∷ ps) ≡ true =
        sym (changed_iff children removed p ps) ∙ h in
      rw flag (or_no_access-answers _ (narrow-answers fuel (p ∷ ps)))
