-- ===== src/ShareRoot/Inside.antt =====
-- Nothing outside the share root is resolved or deleted.
use doc_link.Serve.{not_found, outside_root, is_root}
use doc_link.ShareRoot.{
  RealPath, FileSystem, components, path_starts_with, same_path, suspicious, resolve, delete,
}
use doc_link.Base.Strings.{is_empty}
use doc_link.Base.Results.{ok, err, Result-cases}
use doc_link.Base.{if◌then◌else◌, Bool-cases, Option-cases, Text, beq_refl, length, ◌<◌}
use doc_link.Base.{◌≡◌, refl, ◌⊎◌, inl, inr, true, false, none, some, [], ◌∷◌, arith}
use doc_link.Base.{text_eq, nat_eq}

same_path_refl : (p : RealPath) → same_path p p ≡ true
unfolding same_path
same_path_refl [] = refl
same_path_refl (n ∷ p) = ground (arith, beq_refl n, same_path_refl p)

path_starts_with-length :
    (p q : RealPath) → path_starts_with p q ≡ true → same_path p q ≡ false → length q < length p
unfolding path_starts_with same_path
path_starts_with-length [] [] h k = absurd (cc)
path_starts_with-length (m ∷ p) [] h k = omega arith
path_starts_with-length [] (n ∷ q) h k = absurd (cc)
path_starts_with-length (m ∷ p) (n ∷ q) h k = ground (arith, path_starts_with-length p q)

module _ {F : Type 0} (fs : FileSystem F) (root : RealPath) where
  -- A path that is resolved was not suspicious, is what the file system says, and lies at or below
  -- the share root, whatever the file system says.
  pub resolve-inside :
      (s : F) (rel : Text) (p : RealPath)
      → resolve fs root s rel ≡ ok p
      → (suspicious fs.windows rel ≡ false)
        × (fs.canonicalize s root (components fs.windows rel) ≡ some p)
        × (path_starts_with p root ≡ true)
  unfolding resolve
  resolve-inside s rel p = elim (Bool-cases (suspicious fs.windows rel)) [
    | inl e ↦ rw e λ h. absurd (cc)
    | inr e ↦ elim (Option-cases (fs.canonicalize s root (components fs.windows rel))) [
      | inl c ↦ rw (e, c) λ h. absurd (cc)
      | inr (q, c) ↦ elim (Bool-cases (path_starts_with q root)) [
        | inl i ↦ rw (e, c, i) λ h. (refl, cc, (let same : q ≡ p = cc in rw same at i))
        | inr i ↦ rw (e, c, i) λ h. absurd (cc)
      ]
    ]
  ]

  -- What a resolution can answer: a suspicious path and one that leads out are refused alike.
  pub resolve_lem :
      (s : F) (rel : Text)
      → (suspicious fs.windows rel ≡ true → resolve fs root s rel ≡ err outside_root)
        × (suspicious fs.windows rel ≡ false
            → fs.canonicalize s root (components fs.windows rel) ≡ none
            → resolve fs root s rel ≡ err not_found)
        × ((p : RealPath)
            → suspicious fs.windows rel ≡ false
            → fs.canonicalize s root (components fs.windows rel) ≡ some p
            → resolve fs root s rel ≡ (if path_starts_with p root then ok p else err outside_root))
  unfolding resolve
  resolve_lem s rel = (λ e. rw e refl, λ e c. rw (e, c) refl, λ p e c. rw (e, c) (ground arith))

  -- A deletion that succeeds removed one real path strictly below the share root.
  pub delete-inside :
      (s after : F) (rel : Text)
      → delete fs root s rel ≡ ok after
      → (p : RealPath) × (resolve fs root s rel ≡ ok p)
        × (path_starts_with p root ≡ true)
        × (length root < length p)
        × ((fs.is_directory s p ≡ ok true) × (fs.remove_dir_all s p ≡ ok after)
            ⊎ (fs.is_directory s p ≡ ok false) × (fs.remove_file s p ≡ ok after))
  unfolding delete
  delete-inside s after rel = elim (Bool-cases (is_empty rel)) [
    | inl e ↦ rw e λ h. absurd (cc)
    | inr e ↦ elim (Result-cases (resolve fs root s rel)) [
      | inr (x, r) ↦ rw (e, r) λ h. absurd (cc)
      | inl (p, r) ↦ elim (Bool-cases (same_path p root)) [
        | inl same ↦ rw (e, r, same) λ h. absurd (cc)
        | inr other ↦ elim (Result-cases (fs.is_directory s p)) [
          | inr (x, d) ↦ rw (e, r, other, d) λ h. absurd (cc)
          | inl (true, d) ↦
              rw (e, r, other, d)
                λ h.
                  let inside = (resolve-inside s rel p r).2 in
                  (p, refl, inside, path_starts_with-length p root inside other, inl (d, h))
          | inl (false, d) ↦
              rw (e, r, other, d)
                λ h.
                  let inside = (resolve-inside s rel p r).2 in
                  (p, refl, inside, path_starts_with-length p root inside other, inr (d, h))
        ]
      ]
    ]
  ]

  -- The share root is never deleted, by whatever path it is named.
  pub delete-root :
      (s : F) (rel : Text) → resolve fs root s rel ≡ ok root → delete fs root s rel ≡ err is_root
  unfolding delete
  delete-root s rel r = rw (r, same_path_refl root) (ground arith)
