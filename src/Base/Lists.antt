-- ===== src/Base/Lists.antt =====
-- Lists measured by native numbers, and the searches that the source makes in vectors.
use Prim.Native.Nat.{ℕ, zero, suc, ◌+◌, ◌≤◌}
use mathlib.Core.Path.{◌≡◌, refl, sym, subst}
use mathlib.Core.Bool.{Bool, true, false, ◌||◌}
use mathlib.Core.List.{List, [], ◌∷◌, ◌++◌}
use mathlib.Core.Option.{Option, none, some}
use native.Mathlib.Omega.{arith}
use doc_link.Base.Tests.{if◌then◌else◌, Bool-cases}
use mathlib.Core.Logic.{inl, inr}

module _ {ℓ} {A : Type ℓ} where
  abbrev pub length : List A → ℕ
  length [] = 0
  length (x ∷ xs) = suc (length xs)

  abbrev pub get_elem? : List A → ℕ → Option A
  get_elem? [] i = none
  get_elem? (x ∷ xs) zero = some x
  get_elem? (x ∷ xs) (suc i) = get_elem? xs i

  abbrev pub take : ℕ → List A → List A
  take zero xs = []
  take (suc n) [] = []
  take (suc n) (x ∷ xs) = x ∷ take n xs

  -- `retain`, `iter().filter`.
  unfoldable pub retain : (A → Bool) → List A → List A
  retain p [] = []
  retain p (x ∷ xs) = let rest = retain p xs in if p x then x ∷ rest else rest

  -- `iter().any`.
  unfoldable pub any : (A → Bool) → List A → Bool
  any p [] = false
  any p (x ∷ xs) = p x || any p xs

  -- `iter().find`.
  unfoldable pub find : (A → Bool) → List A → Option A
  find p [] = none
  find p (x ∷ xs) = if p x then some x else find p xs

  -- A predicate of every entry.
  abbrev pub All {κ} : (A → Type κ) → List A → Type κ
  All P [] = Unit
  All P (x ∷ xs) = P x × All P xs

module _ {ℓ} {A : Type ℓ} where
  pub length-append : (xs ys : List A) → length (xs ++ ys) ≡ length xs + length ys
  length-append [] ys = omega arith
  length-append (x ∷ xs) ys = omega (arith, length-append xs ys)

  pub length-retain-le : (p : A → Bool) (xs : List A) → length (retain p xs) ≤ length xs
  unfolding retain
  length-retain-le p [] = omega arith
  length-retain-le p (x ∷ xs) = ground (arith, length-retain-le p xs)

  pub find-sat : (p : A → Bool) (xs : List A) (x : A) → find p xs ≡ some x → p x ≡ true
  unfolding find
  find-sat p [] x h = cc
  find-sat p (y ∷ xs) x h = ground (arith, find-sat p xs x)

  pub find-append_none :
      (p : A → Bool) (xs ys : List A) → find p xs ≡ none → find p (xs ++ ys) ≡ find p ys
  unfolding find
  find-append_none p [] ys h = refl
  find-append_none p (x ∷ xs) ys h = ground (arith, find-append_none p xs ys)

  pub any-append : (p : A → Bool) (xs ys : List A) → any p (xs ++ ys) ≡ (any p xs || any p ys)
  unfolding any
  any-append p [] ys = refl
  any-append p (x ∷ xs) ys = ground (arith, any-append p xs ys)

  pub All-append {κ} :
      (P : A → Type κ) (front back : List A) → All P front → All P back → All P (front ++ back)
  All-append P [] back left right = right
  All-append P (x ∷ front) back (first, left) right = (first, All-append P front back left right)

  pub All-retain {κ} :
      (P : A → Type κ) (p : A → Bool) (xs : List A) → All P xs → All P (retain p xs)
  unfolding retain
  All-retain P p [] h = tt
  All-retain P p (x ∷ xs) (hx, h) = ground (arith, All-retain P p xs h)

-- One of the entries, with its place.
pub data Elem {ℓ} {A : Type ℓ} (a : A) : List A → Type ℓ where
  here : {x : A} {xs : List A} → a ≡ x → Elem a (x ∷ xs)
  there : {x : A} {xs : List A} → Elem a xs → Elem a (x ∷ xs)

module _ {ℓ} {A : Type ℓ} where
  pub any-Elem : (p : A → Bool) (xs : List A) → any p xs ≡ true → (a : A) × Elem a xs × (p a ≡ true)
  unfolding any
  any-Elem p [] h = absurd (cc)
  any-Elem p (x ∷ xs) h = elim (Bool-cases (p x)) [
    | inl this ↦ (x, here refl, this)
    | inr not_this ↦ let (a, m, e) = any-Elem p xs (rw not_this at h) in (a, there m, e)
  ]

  pub any_of_Elem : (p : A → Bool) (xs : List A) (a : A) → Elem a xs → p a ≡ true → any p xs ≡ true
  unfolding any
  any_of_Elem p [] a m h = elim m [ ]
  any_of_Elem p (x ∷ xs) a (here e) h = ground (arith, h, e)
  any_of_Elem p (x ∷ xs) a (there m) h = ground (arith, any_of_Elem p xs a m h)

  pub any_mono :
      (p q : A → Bool)
      → ((a : A) → p a ≡ true → q a ≡ true)
      → (xs : List A) → any p xs ≡ true
      → any q xs ≡ true
  any_mono p q f xs h = let (a, m, e) = any-Elem p xs h in any_of_Elem q xs a m (f a e)

  pub any-congr : (p q : A → Bool) → ((a : A) → p a ≡ q a) → (xs : List A) → any p xs ≡ any q xs
  unfolding any
  any-congr p q f [] = refl
  any-congr p q f (x ∷ xs) = ground (arith, f x, any-congr p q f xs)

  pub Elem-append_left : (a : A) (xs ys : List A) → Elem a xs → Elem a (xs ++ ys)
  Elem-append_left a [] ys m = elim m [ ]
  Elem-append_left a (x ∷ xs) ys (here e) = here e
  Elem-append_left a (x ∷ xs) ys (there m) = there (Elem-append_left a xs ys m)

  pub Elem-append_right : (a : A) (xs ys : List A) → Elem a ys → Elem a (xs ++ ys)
  Elem-append_right a [] ys m = m
  Elem-append_right a (x ∷ xs) ys m = there (Elem-append_right a xs ys m)

  pub All-Elem {κ} : (P : A → Type κ) (xs : List A) (a : A) → All P xs → Elem a xs → P a
  All-Elem P [] a h m = elim m [ ]
  All-Elem P (x ∷ xs) a h (here e) = subst P (sym e) h.0
  All-Elem P (x ∷ xs) a h (there m) = All-Elem P xs a h.1 m

  pub All-of_Elem {κ} : (P : A → Type κ) (xs : List A) → ((a : A) → Elem a xs → P a) → All P xs
  All-of_Elem P [] h = tt
  All-of_Elem P (x ∷ xs) h = (h x (here refl), All-of_Elem P xs (λ a m. h a (there m)))

  pub All-retain_test : (p : A → Bool) (xs : List A) → All (λ x. p x ≡ true) (retain p xs)
  unfolding retain
  All-retain_test p [] = tt
  All-retain_test p (x ∷ xs) = ground (arith, All-retain_test p xs)

  pub retain-All : (p : A → Bool) (xs : List A) → All (λ x. p x ≡ true) xs → retain p xs ≡ xs
  unfolding retain
  retain-All p [] h = refl
  retain-All p (x ∷ xs) (hx, h) = ground (arith, hx, retain-All p xs h)

  -- Nothing was dropped if the length is the same.
  pub retain_of_length :
      (p : A → Bool) (xs : List A) → length (retain p xs) ≡ length xs → retain p xs ≡ xs
  unfolding retain
  retain_of_length p [] h = refl
  retain_of_length p (x ∷ xs) h = ground (arith, retain_of_length p xs, length-retain-le p xs)

module _ {ℓ} {A : Type ℓ} where
  pub find-Elem : (p : A → Bool) (xs : List A) (x : A) → find p xs ≡ some x → Elem x xs
  unfolding find
  find-Elem p [] x = λ h. absurd (cc)
  find-Elem p (y ∷ xs) x = elim (Bool-cases (p y)) [
    | inl e ↦ rw e λ h. here (cc)
    | inr e ↦ rw e λ h. there (find-Elem p xs x h)
  ]
