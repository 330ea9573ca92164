-- ===== src/Inbox/Allowed.antt =====
-- An allowed name by its first and last characters: `valid_name` of crates/doclinkd/src/inbox.rs.
use doc_link.Inbox.{valid_name, reserved, sidecar_suffix, all}
use doc_link.Base.Strings.{
  is_empty, has_char, starts_with, ends_with, trim, trim_start, trim_end, is_whitespace,
}
use doc_link.Base.{if◌then◌else◌, Bool-cases, ◌==◌, Text, text_beq, beq-eq, length}
use doc_link.Base.{length-append, ℕ, ◌≤◌, ◌≡◌, refl, ap, inl, inr, Bool, true, false, not}
use doc_link.Base.{◌&&◌, List, [], ◌∷◌, ◌++◌, arith, text_eq, nat_eq}
use doc_link.Base.{sym, ◌∙◌}
use doc_link.Base.{beq_refl, any}
use doc_link.ShareRoot.{components, normal, is_separator, leading, part, parts}
use doc_link.Base.Split.{split_whole}

pub all-append {ℓ} :
    {A : Type ℓ} (p : A → Bool) (xs ys : List A) → all p (xs ++ ys) ≡ (all p xs && all p ys)
unfolding all
all-append p [] ys = refl
all-append p (x ∷ xs) ys = ground (arith, all-append p xs ys)

-- A text that is not empty has a last character.
pub snoc : (x : ℕ) (s : Text) → (body : Text) × (z : ℕ) × (x ∷ s ≡ body ++ (z ∷ []))
snoc x [] = ([], x, refl)
snoc x (y ∷ s) = let (body, z, e) = snoc y s in (x ∷ body, z, ap (λ t. x ∷ t) e)

pub ends_with-snoc : (s : Text) (y z : ℕ) → ends_with (s ++ (z ∷ [])) (y ∷ []) ≡ (z == y)
unfolding ends_with text_beq
ends_with-snoc [] y z = ground arith
ends_with-snoc (x ∷ []) y z = ground (arith, ends_with-snoc [] y z)
ends_with-snoc (x ∷ w ∷ s) y z = ground (arith, ends_with-snoc (w ∷ s) y z)

pub ends_with-split : (s t : Text) → ends_with s t ≡ true → (r : Text) × (s ≡ r ++ t)
unfolding ends_with
ends_with-split [] [] h = ([], refl)
ends_with-split [] (d ∷ t) h = absurd (cc)
ends_with-split (c ∷ s) t h = elim (Bool-cases ((c ∷ s) == t)) [
  | inl e ↦ ([], beq-eq (c ∷ s) t e)
  | inr e ↦ let (r, k) = ends_with-split s t (rw e at h) in (c ∷ r, ap (λ u. c ∷ u) k)
]

length-trim_start : (s : Text) → length (trim_start s) ≤ length s
unfolding trim_start
length-trim_start [] = omega arith
length-trim_start (c ∷ s) = ground (arith, length-trim_start s)

length-trim_end : (s : Text) → length (trim_end s) ≤ length s
unfolding trim_end
length-trim_end [] = omega arith
length-trim_end (c ∷ s) = ground (arith, length-trim_end s)

trim_end-snoc :
    (s : Text) (z : ℕ) → is_whitespace z ≡ false → trim_end (s ++ (z ∷ [])) ≡ s ++ (z ∷ [])
unfolding trim_end
trim_end-snoc [] z h = rw h refl
trim_end-snoc (c ∷ s) z h = elim (Bool-cases (is_whitespace c)) [
  | inr e ↦ rw (e, trim_end-snoc s z h) refl
  | inl e ↦
      rw (e, trim_end-snoc s z h)
        (elim s
          as (λ t.
            (if true && is_empty (t ++ (z ∷ [])) then [] else c ∷ (t ++ (z ∷ [])))
            ≡ c ∷ (t ++ (z ∷ []))) [ [] ↦ refl | x ∷ t ↦ refl ])
]

length-trim_end-snoc :
    (s : Text) (z : ℕ) → is_whitespace z ≡ true → length (trim_end (s ++ (z ∷ []))) ≤ length s
unfolding trim_end
length-trim_end-snoc [] z h = rw h (omega arith)
length-trim_end-snoc (c ∷ s) z h = ground (arith, length-trim_end-snoc s z h)

trim_start-plain : (x : ℕ) (s : Text) → is_whitespace x ≡ false → trim_start (x ∷ s) ≡ x ∷ s
unfolding trim_start
trim_start-plain x s h = rw h refl

trim_of_start : (x : ℕ) (s : Text) → is_whitespace x ≡ false → trim (x ∷ s) ≡ trim_end (x ∷ s)
unfolding trim
trim_of_start x s h = ap trim_end (trim_start-plain x s h)

-- Nothing is trimmed just if neither end is white space.
trim-whole :
    (x : ℕ) (s body : Text) (z : ℕ)
    → x ∷ s ≡ body ++ (z ∷ [])
    → is_whitespace x ≡ false
    → is_whitespace z ≡ false
    → trim (x ∷ s) ≡ x ∷ s
trim-whole x s body z e hx hz =
    trim_of_start x s hx ∙ (ap trim_end e ∙ (trim_end-snoc body z hz ∙ sym e))

length-trim_of_start :
    (x : ℕ) (s : Text) → is_whitespace x ≡ true → length (trim (x ∷ s)) ≤ length s
unfolding trim trim_start
length-trim_of_start x s h =
    rw h (omega (arith, length-trim_end (trim_start s), length-trim_start s))

trim-ends :
    (x : ℕ) (s body : Text) (z : ℕ)
    → x ∷ s ≡ body ++ (z ∷ [])
    → x ∷ s ≡ trim (x ∷ s)
    → (is_whitespace x ≡ false) × (is_whitespace z ≡ false)
trim-ends x s body z e h = elim (Bool-cases (is_whitespace x)) [
  | inl hx ↦ absurd (omega (arith, ap (λ t. length t) h, length-trim_of_start x s hx))
  | inr hx ↦ elim (Bool-cases (is_whitespace z)) [
    | inr hz ↦ (hx, hz)
    | inl hz ↦
        let chain : body ++ (z ∷ []) ≡ trim_end (body ++ (z ∷ [])) =
          sym e ∙ (h ∙ (trim_of_start x s hx ∙ ap trim_end e)) in
        absurd (
          omega (
            arith,
            ap (λ t. length t) chain,
            length-trim_end-snoc body z hz,
            length-append body (z ∷ []),
          ))
  ]
]

-- What an allowed name is, by its first and its last character.
pub record IsAllowed (x : ℕ) (s : Text) (z : ℕ) : Type 0 where
  pub first_dot : x == b'.' ≡ false
  pub first_white : is_whitespace x ≡ false
  pub last_dot : z == b'.' ≡ false
  pub last_white : is_whitespace z ≡ false
  pub suffix : ends_with (x ∷ s) sidecar_suffix ≡ false
  pub plain : all (λ c. not (has_char c reserved)) (x ∷ s) ≡ true

pub valid_name-IsAllowed :
    (windows : Bool) (x : ℕ) (s body : Text) (z : ℕ)
    → x ∷ s ≡ body ++ (z ∷ [])
    → valid_name windows (x ∷ s) ≡ true
    → IsAllowed x s z
unfolding valid_name starts_with
valid_name-IsAllowed windows x s body z e h =
    let same : x ∷ s ≡ trim (x ∷ s) = beq-eq (x ∷ s) (trim (x ∷ s)) (ground arith) in
    let (hx, hz) = trim-ends x s body z e same in
    let last : ends_with (x ∷ s) (b'.' ∷ []) ≡ (z == b'.') =
      ap (λ t. ends_with t (b'.' ∷ [])) e ∙ ends_with-snoc body b'.' z in
    record {
      first_dot = ground arith;
      first_white = hx;
      last_dot = ground (arith, last);
      last_white = hz;
      suffix = ground arith;
      plain = ground arith;
    }

-- A plain name has no separator and no colon.
any-separator :
    (windows : Bool) (s : Text)
    → all (λ c. not (has_char c reserved)) s ≡ true
    → any (is_separator windows) s ≡ false
unfolding all any has_char
any-separator windows [] h = refl
any-separator windows (c ∷ s) h = ground (arith, any-separator windows s)

leading-plain :
    (windows : Bool) (x : ℕ) (s : Text)
    → x == b'.' ≡ false
    → all (λ c. not (has_char c reserved)) (x ∷ s) ≡ true
    → leading windows (x ∷ s) ≡ []
unfolding all leading has_char
leading-plain windows x [] d h = ground arith
leading-plain windows x (y ∷ s) d h = ground arith

part-plain : (x : ℕ) (s : Text) → x == b'.' ≡ false → part (x ∷ s) ≡ normal (x ∷ s) ∷ []
unfolding part text_beq
part-plain x s d = rw d refl

-- A plain name that does not start with a dot is one component.
components-plain :
    (windows : Bool) (x : ℕ) (s : Text)
    → x == b'.' ≡ false
    → all (λ c. not (has_char c reserved)) (x ∷ s) ≡ true
    → components windows (x ∷ s) ≡ normal (x ∷ s) ∷ []
unfolding components parts
components-plain windows x s d h =
    rw
      (
        leading-plain windows x s d h,
        split_whole (is_separator windows) (x ∷ s) (any-separator windows (x ∷ s) h),
        part-plain x s d,
      )
      refl

pub valid_name_of_parts :
    (windows : Bool) (x : ℕ) (s body : Text) (z : ℕ)
    → x ∷ s ≡ body ++ (z ∷ [])
    → IsAllowed x s z
    → valid_name windows (x ∷ s) ≡ true
unfolding valid_name starts_with
valid_name_of_parts windows x s body z e h =
    let last : ends_with (x ∷ s) (b'.' ∷ []) ≡ (z == b'.') =
      ap (λ t. ends_with t (b'.' ∷ [])) e ∙ ends_with-snoc body b'.' z in
    rw
      (
        components-plain windows x s h.first_dot h.plain,
        trim-whole x s body z e h.first_white h.last_white,
        last,
        h.first_dot,
        h.last_dot,
        h.suffix,
        h.plain,
        beq_refl (x ∷ s),
      )
      refl
