-- ===== src/Store/Keyed.antt =====
-- Lists with one entry to a key, for the grant list (by fingerprint) and the contact list (by id).
use doc_link.Base.{if◌then◌else◌, Bool-cases, Option-cases, ◌==◌, Text, text_beq_iff}
use doc_link.Base.{beq_refl, beq-eq, retain, find, ◌≡◌, refl, ◌∙◌, subst, ◌⊎◌, inl, inr}
use doc_link.Base.{Bool, false, not, Option, none, some, List, [], ◌∷◌, ◌++◌, arith}
use doc_link.Base.{text_eq, nat_eq}

module _ {A : Type 0} (key : A → Text) where
  abbrev pub find_key : Text → List A → Option A
  find_key k = find λ a. key a == k

  abbrev pub without : Text → List A → List A
  without k = retain λ a. not (key a == k)

  -- No key has two entries.
  abbrev pub OnePerKey : List A → Type 0
  OnePerKey [] = Unit
  OnePerKey (x ∷ xs) = (find_key (key x) xs ≡ none) × OnePerKey xs

module _ {A : Type 0} (key : A → Text) where
  find_key-retain-none :
      (p : A → Bool) (k : Text) (xs : List A)
      → find_key key k xs ≡ none
      → find_key key k (retain p xs) ≡ none
  unfolding find retain
  find_key-retain-none p k [] h = refl
  find_key-retain-none p k (x ∷ xs) h = ground (arith, find_key-retain-none p k xs)

  pub retain-OnePerKey :
      (p : A → Bool) (xs : List A) → OnePerKey key xs → OnePerKey key (retain p xs)
  unfolding retain
  retain-OnePerKey p [] u = tt
  retain-OnePerKey p (x ∷ xs) (fresh, u) =
      ground (arith, retain-OnePerKey p xs u, find_key-retain-none p (key x) xs fresh)

  -- With one entry to a key, retaining keeps just the entries that pass.
  pub find_key-retain :
      (p : A → Bool) (k : Text) (a : A) (xs : List A)
      → OnePerKey key xs
      → find_key key k xs ≡ some a
      → find_key key k (retain p xs) ≡ (if p a then some a else none)
  unfolding find retain
  find_key-retain p k a [] u h = absurd (cc)
  find_key-retain p k a (x ∷ xs) (fresh, u) h = elim (Bool-cases (key x == k)) [
    | inl same ↦
        let e = beq-eq (key x) k same in
        let gone = find_key-retain-none p k xs (subst (λ t. find_key key t xs ≡ none) e fresh) in
        ground (arith, same, gone)
    | inr other ↦ ground (arith, other, find_key-retain p k a xs u)
  ]

  pub find_key-without :
      (j k : Text) (xs : List A)
      → find_key key j (without key k xs) ≡ (if k == j then none else find_key key j xs)
  unfolding find retain
  find_key-without j k [] = ground arith
  find_key-without j k (x ∷ xs) = ground (
    arith,
    text_beq_iff (key x) k,
    text_beq_iff k j,
    text_beq_iff (key x) j,
    find_key-without j k xs,
  )

  find_key-append :
      (j : Text) (xs : List A) (a : A)
      → find_key key j xs ≡ none
      → find_key key j (xs ++ (a ∷ [])) ≡ (if key a == j then some a else none)
  unfolding find
  find_key-append j [] a h = refl
  find_key-append j (x ∷ xs) a h = ground (arith, find_key-append j xs a)

  find_key-append_some :
      (j : Text) (xs : List A) (a b : A)
      → find_key key j xs ≡ some b
      → find_key key j (xs ++ (a ∷ [])) ≡ some b
  unfolding find
  find_key-append_some j [] a b h = absurd (cc)
  find_key-append_some j (x ∷ xs) a b h = ground (arith, find_key-append_some j xs a b)

  append-OnePerKey :
      (xs : List A) (a : A)
      → OnePerKey key xs
      → find_key key (key a) xs ≡ none
      → OnePerKey key (xs ++ (a ∷ []))
  unfolding find
  append-OnePerKey [] a u h = (refl, tt)
  append-OnePerKey (x ∷ xs) a (fresh, u) h =
      let other : (key a == key x) ≡ false =
        ground (arith, text_beq_iff (key x) (key a), text_beq_iff (key a) (key x)) in
      (find_key-append (key x) xs a fresh ∙ rw other, append-OnePerKey xs a u (ground arith))

  -- The entry with the key of `a` becomes `a`; every other entry is what it was.
  pub find_key-upsert :
      (j : Text) (xs : List A) (a : A)
      → find_key key j (without key (key a) xs ++ (a ∷ []))
        ≡ (if key a == j then some a else find_key key j xs)
  find_key-upsert j xs a = elim (Bool-cases (key a == j)) [
    | inl same ↦ rw same (
        find_key-append j (without key (key a) xs) a (find_key-without j (key a) xs ∙ rw same)
        ∙ rw same)
    | inr other ↦ rw other (others other (Option-cases (find_key key j xs)))
  ]
    where
      others :
          (key a == j) ≡ false
          → (find_key key j xs ≡ none) ⊎ ((b : A) × (find_key key j xs ≡ some b))
          → find_key key j (without key (key a) xs ++ (a ∷ [])) ≡ find_key key j xs
      others other (inl e) = rw e (
          find_key-append j (without key (key a) xs) a
            (find_key-without j (key a) xs ∙ rw (other, e))
          ∙ rw other)
      others other (inr (b, e)) = rw e (
          find_key-append_some j (without key (key a) xs) a b
            (find_key-without j (key a) xs ∙ rw (other, e)))

  pub upsert-OnePerKey :
      (xs : List A) (a : A) → OnePerKey key xs → OnePerKey key (without key (key a) xs ++ (a ∷ []))
  upsert-OnePerKey xs a u =
      append-OnePerKey (without key (key a) xs) a
        (retain-OnePerKey (λ x. not (key x == key a)) xs u)
        (find_key-without (key a) (key a) xs ∙ rw (beq_refl (key a)))
