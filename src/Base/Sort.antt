-- ===== src/Base/Sort.antt =====
-- The stable sorts of the standard library, as insertion sort by a test, and the order of strings.
use mathlib.Core.List.{Perm}
use mathlib.Core.List.Perm
use doc_link.Base.{ltb, if◌then◌else◌, Bool-cases, ◌==◌, Text, All, ◌≡◌, refl, inl}
use doc_link.Base.{inr, Bool, true, false, ◌&&◌, ◌||◌, List, [], ◌∷◌, arith, text_eq}
use doc_link.Base.{nat_eq}

-- `s <= t` for strings: the order of the code points is that of the bytes of UTF-8.
unfoldable pub text_le : Text → Text → Bool
text_le [] t = true
text_le (c ∷ s) [] = false
text_le (c ∷ s) (d ∷ t) = ltb c d || (c == d && text_le s t)

-- What `sort_by` is given: any two entries compare, and the comparison is transitive.
pub record IsOrder {ℓ} {A : Type ℓ} (le : A → A → Bool) : Type ℓ where
  pub total : (a b : A) → le a b ≡ false → le b a ≡ true
  pub transitive : (a b c : A) → le a b ≡ true → le b c ≡ true → le a c ≡ true

module _ {ℓ} {A : Type ℓ} (le : A → A → Bool) where
  -- In front of the first entry that is not smaller.
  unfoldable pub insert_by : A → List A → List A
  insert_by x [] = x ∷ []
  insert_by x (y ∷ ys) = let rest = insert_by x ys in if le x y then x ∷ y ∷ ys else y ∷ rest

  unfoldable pub sort_by : List A → List A
  sort_by [] = []
  sort_by (x ∷ xs) = insert_by x (sort_by xs)

  -- Each entry is at most every later one.
  abbrev pub IsSortedBy : List A → Type 0
  IsSortedBy [] = Unit
  IsSortedBy (x ∷ xs) = All (λ y. le x y ≡ true) xs × IsSortedBy xs

  insert_by-Perm : (x : A) (xs : List A) → Perm (insert_by x xs) (x ∷ xs)
  unfolding insert_by
  insert_by-Perm x [] = Perm.refl (x ∷ [])
  insert_by-Perm x (y ∷ ys) = elim (Bool-cases (le x y)) [
    | inl e ↦ rw e (Perm.refl (x ∷ y ∷ ys))
    | inr e ↦ rw e (Perm.trans (Perm.cons y (insert_by-Perm x ys)) (Perm.swap x y ys))
  ]

  pub sort_by-Perm : (xs : List A) → Perm (sort_by xs) xs
  unfolding sort_by
  sort_by-Perm [] = Perm.refl []
  sort_by-Perm (x ∷ xs) = Perm.trans (insert_by-Perm x (sort_by xs)) (Perm.cons x (sort_by-Perm xs))

  pub insert_by-All {κ} :
      (P : A → Type κ) (x : A) (xs : List A) → P x → All P xs → All P (insert_by x xs)
  unfolding insert_by
  insert_by-All P x [] p h = (p, tt)
  insert_by-All P x (y ∷ ys) p h = elim (Bool-cases (le x y)) [
    | inl e ↦ rw e (p, h)
    | inr e ↦ rw e (h.0, insert_by-All P x ys p h.1)
  ]

  pub sort_by-All {κ} : (P : A → Type κ) (xs : List A) → All P xs → All P (sort_by xs)
  unfolding sort_by
  sort_by-All P [] h = tt
  sort_by-All P (x ∷ xs) h = insert_by-All P x (sort_by xs) h.0 (sort_by-All P xs h.1)

module _ {ℓ} {A : Type ℓ} (le : A → A → Bool) (order : IsOrder le) where
  le-All :
      (x y : A) (ys : List A)
      → le x y ≡ true
      → All (λ z. le y z ≡ true) ys
      → All (λ z. le x z ≡ true) ys
  le-All x y [] e h = tt
  le-All x y (z ∷ zs) e h = (order.transitive x y z e h.0, le-All x y zs e h.1)

  insert_by-IsSortedBy :
      (x : A) (xs : List A) → IsSortedBy le xs → IsSortedBy le (insert_by le x xs)
  unfolding insert_by
  insert_by-IsSortedBy x [] h = (tt, tt)
  insert_by-IsSortedBy x (y ∷ ys) h = elim (Bool-cases (le x y)) [
    | inl e ↦ rw e ((e, le-All x y ys e h.0), h)
    | inr e ↦ rw e (
      insert_by-All le (λ z. le y z ≡ true) x ys (order.total x y e) h.0,
      insert_by-IsSortedBy x ys h.1,
    )
  ]

  pub sort_by-IsSortedBy : (xs : List A) → IsSortedBy le (sort_by le xs)
  unfolding sort_by
  sort_by-IsSortedBy [] = tt
  sort_by-IsSortedBy (x ∷ xs) = insert_by-IsSortedBy x (sort_by le xs) (sort_by-IsSortedBy xs)

text_le-total : (s t : Text) → text_le s t ≡ false → text_le t s ≡ true
unfolding text_le
text_le-total [] t h = absurd (cc)
text_le-total (c ∷ s) [] h = refl
text_le-total (c ∷ s) (d ∷ t) h = ground (arith, text_le-total s t)

text_le_trans : (s t u : Text) → text_le s t ≡ true → text_le t u ≡ true → text_le s u ≡ true
unfolding text_le
text_le_trans [] t u h k = refl
text_le_trans (c ∷ s) [] u h k = absurd (cc)
text_le_trans (c ∷ s) (d ∷ t) [] h k = absurd (cc)
text_le_trans (c ∷ s) (d ∷ t) (e ∷ u) h k = ground (arith, text_le_trans s t u)

pub text_le-IsOrder : IsOrder text_le
text_le-IsOrder = record { total = text_le-total; transitive = text_le_trans }
