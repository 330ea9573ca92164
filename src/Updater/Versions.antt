-- ===== src/Updater/Versions.antt =====
-- Versions: parsing, and the order in which one is newer than another.
use doc_link.Updater.{Version, parse_version, parse_parts, parse_part, without_v, newer, version_gt}
use doc_link.Base.Strings.{split, is_whitespace}
use doc_link.Base.Split.{split-append, split_whole, trim-solid}
use doc_link.Base.Decimal.{
  to_decimal, IsDigits, to_decimal-IsDigits, parse_unsigned-to_decimal, u32_mod,
}
use doc_link.Base.{Option-cases, ◌==◌, Text, any, All, All-append, ℕ, ◌<◌, ◌≡◌, refl, ◌⊎◌}
use doc_link.Base.{inl, inr, Bool, true, false, none, some, [], ◌∷◌, ◌++◌, arith, text_eq}
use doc_link.Base.{nat_eq}

-- `3.1.4`
abbrev pub version_text : Version → Text
version_text v = to_decimal v.major ++ (b'.' ∷ (to_decimal v.minor ++ (b'.' ∷ to_decimal v.patch)))

digits-solid : (s : Text) → IsDigits s → All (λ c. is_whitespace c ≡ false) s
unfolding is_whitespace
digits-solid [] h = tt
digits-solid (c ∷ s) (hc, h) = (ground arith, digits-solid s h)

dot-solid : is_whitespace b'.' ≡ false
unfolding is_whitespace
dot-solid = refl

version_text-solid : (v : Version) → All (λ c. is_whitespace c ≡ false) (version_text v)
version_text-solid v =
    let solid : (n : ℕ) → All (λ c. is_whitespace c ≡ false) (to_decimal n) =
      λ n. digits-solid (to_decimal n) (to_decimal-IsDigits n) in
    All-append _ (to_decimal v.major) _ (solid v.major)
      (dot-solid, All-append _ (to_decimal v.minor) _ (solid v.minor) (dot-solid, solid v.patch))

any-digits : (s : Text) → IsDigits s → any (λ c. c == b'.') s ≡ false
unfolding any
any-digits [] h = refl
any-digits (c ∷ s) (hc, h) = ground (arith, any-digits s h)

parse_part-to_decimal : (n : ℕ) → n < u32_mod → parse_part (to_decimal n) ≡ some n
unfolding parse_part
parse_part-to_decimal n h =
    rw (trim-solid (to_decimal n) (digits-solid (to_decimal n) (to_decimal-IsDigits n)))
      (parse_unsigned-to_decimal u32_mod n h)

split-version :
    (v : Version)
    → split (λ c. c == b'.') (version_text v)
      ≡ to_decimal v.major ∷ to_decimal v.minor ∷ to_decimal v.patch ∷ []
split-version v =
    let p : ℕ → Bool = λ c. c == b'.' in
    let one : (n : ℕ) → split p (to_decimal n) ≡ to_decimal n ∷ [] =
      λ n. split_whole p (to_decimal n) (any-digits (to_decimal n) (to_decimal-IsDigits n)) in
    rw
      (
        split-append p b'.' (to_decimal v.major) (to_decimal v.minor ++ (b'.' ∷ to_decimal v.patch))
            refl,
        split-append p b'.' (to_decimal v.minor) (to_decimal v.patch) refl,
        one v.major,
        one v.minor,
        one v.patch,
      )
      refl

without_v-digits : (s t : Text) → IsDigits s → without_v (s ++ (b'.' ∷ t)) ≡ s ++ (b'.' ∷ t)
unfolding without_v
without_v-digits [] t h = refl
without_v-digits (c ∷ s) t (hc, h) = ground arith

parse_parts-version :
    (v : Version)
    → v.major < u32_mod
    → v.minor < u32_mod
    → v.patch < u32_mod
    → parse_parts (to_decimal v.major ∷ to_decimal v.minor ∷ to_decimal v.patch ∷ []) ≡ some v
unfolding parse_parts
parse_parts-version v a b c =
    rw
      (
        parse_part-to_decimal v.major a,
        parse_part-to_decimal v.minor b,
        parse_part-to_decimal v.patch c,
      )
      refl

without_v-cons : (s : Text) → without_v (b'v' ∷ s) ≡ without_v s
unfolding without_v
without_v-cons s = refl

v_solid : is_whitespace b'v' ≡ false
unfolding is_whitespace
v_solid = refl

-- A printed version is read as the version that was meant, with a `v` in front or without it.
pub parse_version-printed :
    (v : Version)
    → v.major < u32_mod
    → v.minor < u32_mod
    → v.patch < u32_mod
    → (parse_version (version_text v) ≡ some v) × (parse_version (b'v' ∷ version_text v) ≡ some v)
unfolding parse_version
parse_version-printed v a b c =
    let solid = version_text-solid v in
    let bare =
      without_v-digits (to_decimal v.major) (to_decimal v.minor ++ (b'.' ∷ to_decimal v.patch))
        (to_decimal-IsDigits v.major) in
    let read = parse_parts-version v a b c in
    (
      rw (trim-solid (version_text v) solid, bare, split-version v) read,
      rw
          (
            trim-solid (b'v' ∷ version_text v) (v_solid, solid),
            without_v-cons (version_text v),
            bare,
            split-version v,
          )
          read,
    )

newer_total : (a b : Version) → (newer a b ≡ true) ⊎ (newer b a ≡ true) ⊎ (a ≡ b)
unfolding newer
newer_total a b = grind arith

-- Being newer is a strict order of the versions that can be read, any two of which compare; a
-- version that can be read is newer than a text that cannot, and such a text than nothing.
pub version_gt-order :
    (s t u : Text) (a b : Version)
    → parse_version s ≡ some a
    → parse_version t ≡ some b
    → (version_gt s s ≡ false)
      × (version_gt s t ≡ true → version_gt t s ≡ false)
      × (version_gt s t ≡ true → version_gt t u ≡ true → version_gt s u ≡ true)
      × ((version_gt s t ≡ true) ⊎ (version_gt t s ≡ true) ⊎ (a ≡ b))
      × (parse_version u ≡ none → (version_gt s u ≡ true) × (version_gt u s ≡ false))
unfolding version_gt newer
version_gt-order s t u a b hs ht =
    rw (hs, ht)
      (
        ground arith,
        λ h. ground arith,
        elim (Option-cases (parse_version u)) [
          | inl e ↦ rw e λ h k. refl
          | inr (c, e) ↦ rw e λ h k. ground arith
        ],
        newer_total a b,
        λ e. rw e (refl, refl),
      )
