-- ===== src/Subtract.antt =====
-- Removing one item from a grant's scope: `subtract_from_scope` and `NO_ACCESS` of
-- crates/doclinkd/src/admin.rs. `children` is the listing that the caller fetched beforehand.
pub mod Hides
pub mod Keeps
pub mod Total
pub mod Adds
pub mod Answers
use doc_link.Base.{ℕ, zero, suc, Text, Bool, true, false, not, ◌&&◌, ◌||◌, List, [], ◌∷◌, ◌++◌}
use doc_link.Base.{Option, none, some, any, ◌==◌, text_eq, if◌then◌else◌}
use doc_link.Base.Strings.{is_empty, codes}
use doc_link.Scope.{within}

-- The scope value that lists and reads nothing: "\u{0}none".
abbrev pub no_access : Text
no_access = 0 ∷ codes "none"

-- `nothing` is the `None` of the source: the scope stays as it is. Running out of fuel is apart.
pub data Outcome : Type 0 where
  out_of_fuel nothing : Outcome
  kept : List Text → Outcome

abbrev pub push_front : Text → Outcome → Outcome
push_front k out_of_fuel = out_of_fuel
push_front k nothing = nothing
push_front k (kept ks) = kept (k ∷ ks)

abbrev pub extend : Outcome → Outcome → Outcome
extend out_of_fuel rest = out_of_fuel
extend nothing rest = nothing
extend (kept ks) out_of_fuel = out_of_fuel
extend (kept ks) nothing = nothing
extend (kept ks) (kept ls) = kept (ks ++ ls)

module _ (children : Text → Option (List Text)) (removed : Text) where
  -- The loop of `walk` over the entries of one directory; `deeper` is the call for a subdirectory.
  unfoldable pub survivors : (Text → Outcome) → List Text → Outcome
  survivors deeper [] = kept []
  survivors deeper (k ∷ ks) =
      let rest = survivors deeper ks in
      if k == removed
      then rest
      else if within removed k
      then extend (deeper k) rest
      else push_front k rest

  unfoldable pub walk : ℕ → Text → Outcome
  walk zero dir = out_of_fuel
  walk (suc fuel) dir = elim (children dir) [ none ↦ nothing | some ks ↦ survivors (walk fuel) ks ]

  -- The loop over the granted paths.
  unfoldable pub narrow : ℕ → List Text → Outcome
  narrow fuel [] = kept []
  narrow fuel (p ∷ ps) =
      let rest = narrow fuel ps in
      if p == removed
      then rest
      else if not (is_empty p) && within removed p
      then extend (walk fuel p) rest
      else push_front p rest

  -- The flag that the loop sets.
  unfoldable pub changed : List Text → Bool
  changed = any λ p. p == removed || (not (is_empty p) && within removed p)

  abbrev pub or_no_access : Outcome → Outcome
  or_no_access out_of_fuel = out_of_fuel
  or_no_access nothing = nothing
  or_no_access (kept []) = kept (no_access ∷ [])
  or_no_access (kept (p ∷ ps)) = kept (p ∷ ps)

  -- `None` of the loop comes before the test of the flag.
  abbrev pub if_changed : Bool → Outcome → Outcome
  if_changed true out = out
  if_changed false out_of_fuel = out_of_fuel
  if_changed false nothing = nothing
  if_changed false (kept ps) = nothing

  unfoldable pub subtract_from_scope : ℕ → List Text → Outcome
  subtract_from_scope fuel [] = or_no_access (walk fuel [])
  subtract_from_scope fuel (p ∷ ps) =
      or_no_access (if_changed (changed (p ∷ ps)) (narrow fuel (p ∷ ps)))
