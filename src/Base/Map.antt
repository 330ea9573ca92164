-- ===== src/Base/Map.antt =====
-- The hash maps of the source, as association lists. The order of the list is the order in which
-- the map happens to be walked.
use doc_link.Base.Tests.{Eq, ◌==◌, if◌then◌else◌, beq_refl, beq-eq, Bool-cases}
use doc_link.Base.Lists.{length, retain}
use Prim.Native.Nat.{◌+◌, ◌≤◌}
use mathlib.Core.Path.{◌≡◌, refl}
use mathlib.Core.Logic.{inl, inr}
use mathlib.Core.Bool.{Bool, true, false}
use mathlib.Core.List.{List, [], ◌∷◌}
use mathlib.Core.Option.{Option, none, some}
use native.Mathlib.Omega.{arith}

abbrev pub Map {ℓ κ} : Type ℓ → Type κ → Type (ℓ ⊔ κ)
Map K V = List (K × V)

module _ {ℓ κ} {K : Type ℓ} {V : Type κ} ⦃e : Eq K⦄ where
  -- `get`
  unfoldable pub lookup : K → Map K V → Option V
  lookup k [] = none
  lookup k ((j, v) ∷ m) = if j == k then some v else lookup k m

  -- `contains_key`
  unfoldable pub contains_key : K → Map K V → Bool
  contains_key k [] = false
  contains_key k ((j, v) ∷ m) = if j == k then true else contains_key k m

  -- `insert`, in the place of an old entry for the key.
  unfoldable pub insert : K → V → Map K V → Map K V
  insert key new [] = (key, new) ∷ []
  insert key new ((j, old) ∷ rest) =
      if j == key then (key, new) ∷ rest else (j, old) ∷ insert key new rest

  -- `remove`; the old value is what `lookup` gives.
  unfoldable pub remove : K → Map K V → Map K V
  remove k [] = []
  remove k ((j, w) ∷ m) = let rest = remove k m in if j == k then rest else (j, w) ∷ rest

module _ {ℓ κ} {K : Type ℓ} {V : Type κ} ⦃e : Eq K⦄ where
  -- No key is listed twice: what a hash map is.
  abbrev pub NodupKeys : Map K V → Type κ
  NodupKeys [] = Unit
  NodupKeys ((k, v) ∷ m) = (lookup k m ≡ none) × NodupKeys m

  pub contains_key-lookup-none :
      (k : K) (m : Map K V) → lookup k m ≡ none → contains_key k m ≡ false
  unfolding contains_key lookup
  contains_key-lookup-none k [] h = refl
  contains_key-lookup-none k ((j, v) ∷ m) h = ground (arith, contains_key-lookup-none k m)

  pub contains_key-lookup-some :
      (k : K) (v : V) (m : Map K V) → lookup k m ≡ some v → contains_key k m ≡ true
  unfolding contains_key lookup
  contains_key-lookup-some k v [] h = cc
  contains_key-lookup-some k v ((j, w) ∷ m) h = ground (arith, contains_key-lookup-some k v m)

  pub lookup-insert :
      (j k : K) (v : V) (m : Map K V)
      → lookup j (insert k v m) ≡ (if k == j then some v else lookup j m)
  unfolding lookup insert
  lookup-insert j k v [] = refl
  lookup-insert j k v ((i, w) ∷ m) =
      ground (arith, e.equal_iff k j, e.equal_iff i k, e.equal_iff i j, lookup-insert j k v m)

  pub lookup-insert_self : (k : K) (v : V) (m : Map K V) → lookup k (insert k v m) ≡ some v
  lookup-insert_self k v m = rw (lookup-insert, beq_refl k)

  pub lookup-remove :
      (j k : K) (m : Map K V) → lookup j (remove k m) ≡ (if k == j then none else lookup j m)
  unfolding lookup remove
  lookup-remove j k [] = ground arith
  lookup-remove j k ((i, w) ∷ m) =
      ground (arith, e.equal_iff k j, e.equal_iff i k, e.equal_iff i j, lookup-remove j k m)

  pub lookup-remove_self : (k : K) (m : Map K V) → lookup k (remove k m) ≡ none
  lookup-remove_self k m = rw (lookup-remove, beq_refl k)

  pub contains_key-insert :
      (j k : K) (v : V) (m : Map K V)
      → contains_key j (insert k v m) ≡ (if k == j then true else contains_key j m)
  unfolding contains_key insert
  contains_key-insert j k v [] = refl
  contains_key-insert j k v ((i, w) ∷ m) =
      ground (arith, e.equal_iff k j, e.equal_iff i k, e.equal_iff i j, contains_key-insert j k v m)

  pub length-insert :
      (k : K) (v : V) (m : Map K V)
      → length (insert k v m) ≡ (if contains_key k m then length m else length m + 1)
  unfolding contains_key insert
  length-insert k v [] = ground arith
  length-insert k v ((i, w) ∷ m) = ground (arith, length-insert k v m)

  pub length-remove-le : (k : K) (m : Map K V) → length (remove k m) ≤ length m
  unfolding remove
  length-remove-le k [] = omega arith
  length-remove-le k ((i, w) ∷ m) = ground (arith, length-remove-le k m)

  -- Removing a key that is there makes the map shorter.
  pub length-remove-lt :
      (k : K) (v : V) (m : Map K V) → lookup k m ≡ some v → length (remove k m) + 1 ≤ length m
  unfolding remove lookup
  length-remove-lt k v [] h = absurd (cc)
  length-remove-lt k v ((i, w) ∷ m) h = ground (arith, length-remove-lt k v m, length-remove-le k m)

  pub lookup-retain-none :
      (p : K × V → Bool) (k : K) (m : Map K V) → lookup k m ≡ none → lookup k (retain p m) ≡ none
  unfolding lookup retain
  lookup-retain-none p k [] h = refl
  lookup-retain-none p k ((i, w) ∷ m) h = ground (arith, lookup-retain-none p k m)

  -- With distinct keys an entry is kept just if it passes the test.
  pub lookup-retain :
      (p : K × V → Bool) (k : K) (v : V) (m : Map K V)
      → NodupKeys m
      → lookup k m ≡ some v
      → lookup k (retain p m) ≡ (if p (k, v) then some v else none)
  unfolding lookup retain
  lookup-retain p k v [] u h = absurd (cc)
  lookup-retain p k v ((i, w) ∷ m) (fresh, u) h = elim (Bool-cases (i == k)) [
    | inl same ↦
        let here = beq-eq i k same in
        ground (arith, here, e.equal_iff i k, lookup-retain-none p k m)
    | inr other ↦ ground (arith, other, lookup-retain p k v m u)
  ]

  pub retain-NodupKeys : (p : K × V → Bool) (m : Map K V) → NodupKeys m → NodupKeys (retain p m)
  unfolding retain
  retain-NodupKeys p [] u = tt
  retain-NodupKeys p ((i, w) ∷ m) (fresh, u) =
      ground (arith, retain-NodupKeys p m u, lookup-retain-none p i m fresh)

  pub insert-NodupKeys : (k : K) (v : V) (m : Map K V) → NodupKeys m → NodupKeys (insert k v m)
  unfolding insert lookup
  insert-NodupKeys k v [] u = (refl, tt)
  insert-NodupKeys k v ((i, w) ∷ m) (fresh, u) =
      ground
        (arith, e.equal_iff i k, e.equal_iff k i, insert-NodupKeys k v m u, lookup-insert i k v m)

  pub remove-NodupKeys : (k : K) (m : Map K V) → NodupKeys m → NodupKeys (remove k m)
  unfolding remove
  remove-NodupKeys k [] u = tt
  remove-NodupKeys k ((i, w) ∷ m) (fresh, u) =
      ground (arith, remove-NodupKeys k m u, lookup-remove i k m)
