-- ===== src/Subtract/Hides.antt =====
-- After the subtraction the item is no longer readable.
use doc_link.Base.{ℕ, zero, suc, Text, Bool, true, false, not, ◌&&◌, ◌||◌, List, [], ◌∷◌}
use doc_link.Base.{
  ◌≢◌, subst, beq-eq, Option, any, ◌==◌, text_eq, ◌≡◌, refl, arith, All, All-append,
}
use doc_link.Scope.{within, can_read_file}
use doc_link.Subtract.{
  Outcome, out_of_fuel, nothing, kept, survivors, walk, narrow, subtract_from_scope, no_access,
}
use doc_link.Subtract.{push_front, changed, or_no_access}
use doc_link.Subtract.{is_empty}
use doc_link.Subtract.{extend}
use doc_link.Base.{text_beq_iff}
use doc_link.Base.{Option-cases}
use doc_link.Base.{Bool-cases}
use doc_link.Subtract.{if_changed}
use doc_link.Base.{inl}
use doc_link.Base.{inr}
use doc_link.Base.Strings.{has_char}
use doc_link.Scope.Laws.{Inside, within_iff}

module _ (children : Text → Option (List Text)) (removed : Text) where
  -- A granted path that does not cover `removed`.
  abbrev Spares : Text → Type 0
  Spares p = (removed == p || within removed p) ≡ false

  abbrev AllSpare : Outcome → Type 0
  AllSpare out_of_fuel = Unit {0}
  AllSpare nothing = Unit {0}
  AllSpare (kept ps) = All Spares ps

  extend-AllSpare : (a b : Outcome) → AllSpare a → AllSpare b → AllSpare (extend a b)
  extend-AllSpare out_of_fuel b ha hb = tt
  extend-AllSpare nothing b ha hb = tt
  extend-AllSpare (kept ps) out_of_fuel ha hb = tt
  extend-AllSpare (kept ps) nothing ha hb = tt
  extend-AllSpare (kept ps) (kept qs) ha hb = All-append Spares ps qs ha hb

  push_front-AllSpare : (p : Text) (b : Outcome) → Spares p → AllSpare b → AllSpare (push_front p b)
  push_front-AllSpare p out_of_fuel h hb = tt
  push_front-AllSpare p nothing h hb = tt
  push_front-AllSpare p (kept qs) h hb = (h, hb)

  spares : (k : Text) → (k == removed) ≡ false → within removed k ≡ false → Spares k
  spares k h w = ground (arith, text_beq_iff k removed, text_beq_iff removed k, w)

  survivors-AllSpare :
      (deeper : Text → Outcome)
      → ((k : Text) → AllSpare (deeper k))
      → (ks : List Text) → AllSpare (survivors children removed deeper ks)
  unfolding survivors
  survivors-AllSpare deeper h [] = tt
  survivors-AllSpare deeper h (k ∷ ks) = elim (Bool-cases (k == removed)) [
    | inl same ↦ rw same (survivors-AllSpare deeper h ks)
    | inr other ↦ elim (Bool-cases (within removed k)) [
      | inl above ↦
          rw (other, above) (extend-AllSpare (deeper k) _ (h k) (survivors-AllSpare deeper h ks))
      | inr aside ↦
          rw (other, aside)
            (push_front-AllSpare k _ (spares k other aside) (survivors-AllSpare deeper h ks))
    ]
  ]

  walk-AllSpare : (fuel : ℕ) (dir : Text) → AllSpare (walk children removed fuel dir)
  unfolding walk
  walk-AllSpare zero dir = tt
  walk-AllSpare (suc fuel) dir = elim (Option-cases (children dir)) [
    | inl e ↦ rw (e, walk) tt
    | inr (ks, e) ↦
        rw (e, walk) (survivors-AllSpare (walk children removed fuel) (walk-AllSpare fuel) ks)
  ]

  -- An empty path covers nothing, so the extra test changes nothing.
  not_above : (p : Text) → (not (is_empty p) && within removed p) ≡ false → within removed p ≡ false
  unfolding within
  not_above [] h = refl
  not_above (c ∷ p) h = h

  narrow-AllSpare : (fuel : ℕ) (ps : List Text) → AllSpare (narrow children removed fuel ps)
  unfolding narrow
  narrow-AllSpare fuel [] = tt
  narrow-AllSpare fuel (p ∷ ps) = elim (Bool-cases (p == removed)) [
    | inl same ↦ rw same (narrow-AllSpare fuel ps)
    | inr other ↦ elim (Bool-cases (not (is_empty p) && within removed p)) [
      | inl above ↦
          rw (other, above) (extend-AllSpare _ _ (walk-AllSpare fuel p) (narrow-AllSpare fuel ps))
      | inr aside ↦
          rw (other, aside)
            (push_front-AllSpare p _ (spares p other (not_above p aside)) (narrow-AllSpare fuel ps))
    ]
  ]

  nothing_covers :
      (ps : List Text) → All Spares ps → any (λ p. removed == p || within removed p) ps ≡ false
  unfolding any
  nothing_covers [] h = refl
  nothing_covers (p ∷ ps) (hp, h) = ground (arith, hp, nothing_covers ps h)

  -- A path with no NUL is not the sentinel, nor does it lie below it.
  no_access-Spares : has_char 0 removed ≡ false → Spares no_access
  unfolding has_char
  no_access-Spares h = elim (Bool-cases (removed == no_access)) [
    | inl same ↦ absurd (sentinel_NUL (beq-eq removed no_access same))
    | inr other ↦ elim (Bool-cases (within removed no_access)) [
      | inl below ↦ absurd (below_NUL ((within_iff removed no_access).0 below))
      | inr aside ↦ rw (other, aside)
    ]
  ]
    where
      sentinel_NUL : removed ≡ no_access → ⊥
      sentinel_NUL e = ground (arith, h, e)

      below_NUL : Inside removed no_access → ⊥
      below_NUL (z, (r, e)) = ground (arith, h, e)

  abbrev Unreadable : Outcome → Type 0
  Unreadable out_of_fuel = Unit {0}
  Unreadable nothing = Unit {0}
  Unreadable (kept ps) = (ps ≢ []) × (can_read_file ps removed ≡ false)

  or_no_access-Unreadable :
      (out : Outcome)
      → has_char 0 removed ≡ false
      → AllSpare out
      → Unreadable (or_no_access children removed out)
  unfolding can_read_file
  or_no_access-Unreadable out_of_fuel h a = tt
  or_no_access-Unreadable nothing h a = tt
  or_no_access-Unreadable (kept []) h a =
      (λ e. cc, nothing_covers (no_access ∷ []) (no_access-Spares h, tt))
  or_no_access-Unreadable (kept (p ∷ ps)) h a = (λ e. cc, nothing_covers (p ∷ ps) a)

  if_changed-AllSpare :
      (b : Bool) (out : Outcome) → AllSpare out → AllSpare (if_changed children removed b out)
  if_changed-AllSpare true out a = a
  if_changed-AllSpare false out_of_fuel a = tt
  if_changed-AllSpare false nothing a = tt
  if_changed-AllSpare false (kept ps) a = tt

  subtract-Unreadable :
      (fuel : ℕ) (ps : List Text)
      → has_char 0 removed ≡ false
      → Unreadable (subtract_from_scope children removed fuel ps)
  unfolding subtract_from_scope
  subtract-Unreadable fuel [] h = or_no_access-Unreadable _ h (walk-AllSpare fuel [])
  subtract-Unreadable fuel (p ∷ ps) h =
      or_no_access-Unreadable _ h
        (if_changed-AllSpare (changed children removed (p ∷ ps)) _ (narrow-AllSpare fuel (p ∷ ps)))

  -- Whenever the subtraction yields a new scope for an item without a NUL character, that scope is
  -- not empty (an empty one would mean full access) and the item cannot be read under it. This holds
  -- for any listings, also wrong ones.
  pub subtract_hides :
      (fuel : ℕ) (paths out : List Text)
      → has_char 0 removed ≡ false
      → subtract_from_scope children removed fuel paths ≡ kept out
      → (out ≢ []) × (can_read_file out removed ≡ false)
  subtract_hides fuel paths out h e = subst Unreadable e (subtract-Unreadable fuel paths h)
