-- ===== src/Base/Split.antt =====
-- How `split` and `rsplit_once` cut a text, and what `trim` leaves.
use doc_link.Base.Strings.{
  rsplit_once, has_char, strip_prefix, split, cons_head, trim, trim_start, trim_end, is_whitespace,
}
use doc_link.Base.{Bool-cases, Text, any, All, ℕ, ◌≡◌, refl, ap, ◌∙◌, ◌≢◌, inl, inr, Bool}
use doc_link.Base.{true, false, List, [], ◌∷◌, ◌++◌, arith}
use doc_link.Base.{Option-cases, ◌==◌, beq-eq, sym, none, some, text_eq, nat_eq}

cons_head-ne-nil : (c : ℕ) (ws : List Text) → cons_head c ws ≢ []
cons_head-ne-nil c [] = λ e. cc
cons_head-ne-nil c (w ∷ ws) = λ e. cc

split-ne-nil : (p : ℕ → Bool) (s : Text) → split p s ≢ []
unfolding split
split-ne-nil p [] = λ e. cc
split-ne-nil p (c ∷ s) = elim (Bool-cases (p c)) [
  | inl k ↦ rw k λ e. cc
  | inr k ↦ rw k (cons_head-ne-nil c (split p s))
]

-- The first part grows, and the others stay.
cons_head-append :
    (c : ℕ) (ws vs : List Text) → ws ≢ [] → cons_head c (ws ++ vs) ≡ cons_head c ws ++ vs
cons_head-append c [] vs h = absurd (h refl)
cons_head-append c (w ∷ ws) vs h = refl

pub split-append :
    (p : ℕ → Bool) (c : ℕ) (a b : Text)
    → p c ≡ true
    → split p (a ++ (c ∷ b)) ≡ split p a ++ split p b
unfolding split
split-append p c [] b h = rw h refl
split-append p c (d ∷ a) b h = elim (Bool-cases (p d)) [
  | inl k ↦ rw k (ap (λ ws. [] ∷ ws) (split-append p c a b h))
  | inr k ↦
      rw (k, split-append p c a b h) (cons_head-append d (split p a) (split p b) (split-ne-nil p a))
]

pub split_whole : (p : ℕ → Bool) (s : Text) → any p s ≡ false → split p s ≡ s ∷ []
unfolding split any
split_whole p [] h = refl
split_whole p (c ∷ s) h = ground (arith, split_whole p s)

trim_start-solid : (s : Text) → All (λ c. is_whitespace c ≡ false) s → trim_start s ≡ s
unfolding trim_start
trim_start-solid [] h = refl
trim_start-solid (c ∷ s) h = rw h.0 refl

trim_end-solid : (s : Text) → All (λ c. is_whitespace c ≡ false) s → trim_end s ≡ s
unfolding trim_end
trim_end-solid [] h = refl
trim_end-solid (c ∷ s) h = rw (h.0, trim_end-solid s h.1) refl

-- A text without white space is trimmed to itself.
pub trim-solid : (s : Text) → All (λ c. is_whitespace c ≡ false) s → trim s ≡ s
unfolding trim
trim-solid s h = ap trim_end (trim_start-solid s h) ∙ trim_end-solid s h

rsplit_once-none : (c : ℕ) (s : Text) → rsplit_once c s ≡ none → has_char c s ≡ false
unfolding rsplit_once has_char
rsplit_once-none c [] = λ h. refl
rsplit_once-none c (d ∷ s) = elim (Option-cases (rsplit_once c s)) [
  | inr (ab, e) ↦ rw e λ h. absurd (cc)
  | inl e ↦ elim (Bool-cases (d == c)) [
    | inl k ↦ rw (e, k) λ h. absurd (cc)
    | inr k ↦ rw (e, k, rsplit_once-none c s e) λ h. refl
  ]
]

pub rsplit_once-split :
    (c : ℕ) (s a b : Text)
    → rsplit_once c s ≡ some (a, b)
    → (s ≡ a ++ (c ∷ b)) × (has_char c b ≡ false)
unfolding rsplit_once
rsplit_once-split c [] a b = λ h. absurd (cc)
rsplit_once-split c (d ∷ s) a b = elim (Option-cases (rsplit_once c s)) [
  | inr ((a₁, b₁), e) ↦ rw e λ h.
      let (k, free) = rsplit_once-split c s a₁ b₁ e in
      let front : d ∷ a₁ ≡ a = cc in
      let back : b₁ ≡ b = cc in (rw (k, sym front, sym back) refl, rw back at free)
  | inl e ↦ elim (Bool-cases (d == c)) [
    | inr k ↦ rw (e, k) λ h. absurd (cc)
    | inl k ↦
        rw (e, k)
          λ h.
            let front : [] ≡ a = cc in
            let back : s ≡ b = cc in
            (rw (sym front, sym back, beq-eq d c k) refl, rw back at (rsplit_once-none c s e))
  ]
]

pub strip_prefix-split : (s p r : Text) → strip_prefix s p ≡ some r → s ≡ p ++ r
unfolding strip_prefix
strip_prefix-split s [] r h = cc
strip_prefix-split [] (d ∷ p) r h = absurd (cc)
strip_prefix-split (c ∷ s) (d ∷ p) r h = ground (arith, strip_prefix-split s p r)
