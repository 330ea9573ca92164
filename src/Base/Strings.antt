-- ===== src/Base/Strings.antt =====
-- The string operations of the Rust standard library that the source uses, on code points.
use doc_link.Base.Tests.{Text, text_eq, ◌==◌, nat_eq, leb, if◌then◌else◌}
use Prim.Native.Nat.{ℕ, ◌+◌}
use Prim.Native.Char.{code}
use Prim.Native.String.{String}
use mathlib.Core.Path.{◌≡◌, refl}
use mathlib.Core.Bool.{Bool, true, false, ◌&&◌, ◌||◌}
use mathlib.Core.List.{List, [], ◌∷◌, ◌++◌, map}
use mathlib.Core.Option.{Option, none, some}
use native.Mathlib.Omega.{arith}

-- The code points of a literal.
abbrev pub codes : String → Text
codes String.[] = []
codes (String.◌∷◌ c s) = code c ∷ codes s

abbrev pub is_empty {ℓ} : {A : Type ℓ} → List A → Bool
is_empty [] = true
is_empty (x ∷ xs) = false

-- `s.starts_with(t)`
unfoldable pub starts_with : Text → Text → Bool
starts_with s [] = true
starts_with [] (d ∷ t) = false
starts_with (c ∷ s) (d ∷ t) = c == d && starts_with s t

-- `s.strip_prefix(t)`
unfoldable pub strip_prefix : Text → Text → Option Text
strip_prefix s [] = some s
strip_prefix [] (d ∷ t) = none
strip_prefix (c ∷ s) (d ∷ t) = if c == d then strip_prefix s t else none

-- `s.contains(c)` for one character.
unfoldable pub has_char : ℕ → Text → Bool
has_char c [] = false
has_char c (d ∷ s) = d == c || has_char c s

-- `s.contains(t)`
unfoldable pub contains : Text → Text → Bool
unfolding starts_with
contains [] t = is_empty t
contains (c ∷ s) t = starts_with (c ∷ s) t || contains s t

-- `s.ends_with(t)`
unfoldable pub ends_with : Text → Text → Bool
ends_with [] t = is_empty t
ends_with (c ∷ s) t = (c ∷ s) == t || ends_with s t

-- `char::is_whitespace`: the White_Space property of Unicode.
unfoldable pub is_whitespace : ℕ → Bool
is_whitespace c =
    (leb 9 c && leb c 13)
    || c == 32
    || c == 0x85
    || c == 0xa0
    || c == 0x1680
    || (leb 0x2000 c && leb c 0x200a)
    || c == 0x2028
    || c == 0x2029
    || c == 0x202f
    || c == 0x205f
    || c == 0x3000

unfoldable pub trim_start : Text → Text
unfolding is_whitespace
trim_start [] = []
trim_start (c ∷ s) = if is_whitespace c then trim_start s else c ∷ s

unfoldable pub trim_end : Text → Text
unfolding is_whitespace
trim_end [] = []
trim_end (c ∷ s) =
    let rest = trim_end s in if is_whitespace c && is_empty rest then [] else c ∷ rest

unfoldable pub trim : Text → Text
unfolding trim_start trim_end
trim s = trim_end (trim_start s)

abbrev cons_left : ℕ → Option (Text × Text) → Option (Text × Text)
cons_left c none = none
cons_left c (some (a, b)) = some (c ∷ a, b)

-- `s.split_once(c)`: before and after the first `c`.
unfoldable pub split_once : ℕ → Text → Option (Text × Text)
split_once c [] = none
split_once c (d ∷ s) = if d == c then some ([], s) else cons_left d (split_once c s)

-- `s.rsplit_once(c)`: before and after the last `c`.
unfoldable pub rsplit_once : ℕ → Text → Option (Text × Text)
rsplit_once c [] = none
rsplit_once c (d ∷ s) = elim (rsplit_once c s) [
  | some (a, b) ↦ some (d ∷ a, b)
  | none ↦ if d == c then some ([], s) else none
]

abbrev pub cons_head : ℕ → List Text → List Text
cons_head c [] = (c ∷ []) ∷ []
cons_head c (w ∷ ws) = (c ∷ w) ∷ ws

-- `s.split(p)`
unfoldable pub split : (ℕ → Bool) → Text → List Text
split p [] = [] ∷ []
split p (c ∷ s) = let rest = split p s in if p c then [] ∷ rest else cons_head c rest

-- `to_ascii_lowercase`
unfoldable pub to_ascii_lowercase : Text → Text
to_ascii_lowercase = map λ c. if leb b'A' c && leb c b'Z' then c + 32 else c

pub starts_with-append : (s t : Text) → starts_with (s ++ t) s ≡ true
unfolding starts_with
starts_with-append [] t = refl
starts_with-append (c ∷ s) t = ground (arith, starts_with-append s t)

pub strip_prefix-append : (t s : Text) → strip_prefix (t ++ s) t ≡ some s
unfolding strip_prefix
strip_prefix-append [] [] = refl
strip_prefix-append [] (c ∷ s) = refl
strip_prefix-append (c ∷ t) s = ground (arith, strip_prefix-append t s)

-- A text that starts with another is that one and a rest.
pub starts_with-split : (s t : Text) → starts_with s t ≡ true → (r : Text) × (s ≡ t ++ r)
unfolding starts_with
starts_with-split s [] h = (s, refl)
starts_with-split [] (d ∷ t) h = absurd (cc)
starts_with-split (c ∷ s) (d ∷ t) h =
    let (r, e) = starts_with-split s t (ground arith) in (r, ground (arith, e))

pub has_char-append : (c : ℕ) (s t : Text) → has_char c (s ++ t) ≡ (has_char c s || has_char c t)
unfolding has_char
has_char-append c [] t = refl
has_char-append c (d ∷ s) t = ground (arith, has_char-append c s t)

-- Texts without `c` in front of a `c` can be told apart.
pub append_sep_inj :
    (c : ℕ) (a a' b b' : Text)
    → has_char c a ≡ false
    → has_char c a' ≡ false
    → a ++ (c ∷ b) ≡ a' ++ (c ∷ b')
    → (a ≡ a') × (b ≡ b')
unfolding has_char
append_sep_inj c [] [] b b' h h' e = ground arith
append_sep_inj c [] (d ∷ a') b b' h h' e = ground arith
append_sep_inj c (d ∷ a) [] b b' h h' e = ground arith
append_sep_inj c (d ∷ a) (d' ∷ a') b b' h h' e = ground (arith, append_sep_inj c a a' b b')

pub append_inj : (p a b : Text) → p ++ a ≡ p ++ b → a ≡ b
append_inj [] a b e = e
append_inj (c ∷ p) a b e = append_inj p a b (ground arith)

-- A text without `c` in front of a `c` is what `split_once` finds.
pub split_once-append :
    (c : ℕ) (a b : Text) → has_char c a ≡ false → split_once c (a ++ (c ∷ b)) ≡ some (a, b)
unfolding split_once has_char
split_once-append c [] b h = ground arith
split_once-append c (d ∷ a) b h = ground (arith, split_once-append c a b)

-- The same from the right: texts without `c` behind a `c`.
pub append_sep_inj_right :
    (c : ℕ) (a a' b b' : Text)
    → has_char c b ≡ false
    → has_char c b' ≡ false
    → a ++ (c ∷ b) ≡ a' ++ (c ∷ b')
    → (a ≡ a') × (b ≡ b')
unfolding has_char
append_sep_inj_right c [] [] b b' h h' e = ground arith
append_sep_inj_right c [] (d ∷ a') b b' h h' e =
    absurd (ground (arith, has_char-append c a' (c ∷ b'), e, h))
append_sep_inj_right c (d ∷ a) [] b b' h h' e =
    absurd (ground (arith, has_char-append c a (c ∷ b), e, h'))
append_sep_inj_right c (d ∷ a) (d' ∷ a') b b' h h' e =
    ground (arith, append_sep_inj_right c a a' b b')
