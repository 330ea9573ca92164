-- ===== src/Base/Decimal.antt =====
-- Decimal numbers: `to_string`, and `parse` into an unsigned type.
use doc_link.Base.Tests.{Text, ◌==◌, nat_eq, ltb, leb, if◌then◌else◌, Bool-cases}
use doc_link.Base.Lists.{All}
use doc_link.Base.Strings.{is_empty, has_char}
use Prim.Native.Nat.{ℕ, zero, suc, ◌+◌, ◌-◌, ◌*◌, ◌/◌, ◌%◌, ◌<◌, ◌^◌}
use mathlib.Core.Path.{◌≡◌, refl, ◌∙◌}
use mathlib.Core.Logic.{inl, inr, ◌≢◌}
use mathlib.Core.Bool.{Bool, true, false, ◌&&◌}
use mathlib.Core.List.{[], ◌∷◌}
use mathlib.Core.Option.{Option, none, some}
use native.Mathlib.Omega.{arith}

abbrev pub u64_mod : ℕ
u64_mod = 2 ^ 64

abbrev pub u32_mod : ℕ
u32_mod = 2 ^ 32

abbrev pub u16_mod : ℕ
u16_mod = 2 ^ 16

abbrev pub is_ascii_digit : ℕ → Bool
is_ascii_digit c = leb b'0' c && leb c b'9'

-- The digits of `n` in front of `rest`. The number of rounds left is the first argument.
unfoldable pub digits_onto : ℕ → ℕ → Text → Text
digits_onto zero n rest = rest
digits_onto (suc f) n rest =
    let more = digits_onto f (n / 10) ((48 + n % 10) ∷ rest) in
    if ltb n 10 then (48 + n) ∷ rest else more

unfoldable pub to_decimal : ℕ → Text
unfolding digits_onto
to_decimal n = digits_onto (suc n) n []

-- The loop of `from_str_radix`: a character that is no digit, or a value that does not fit, fails.
unfoldable pub parse_digits : ℕ → ℕ → Text → Option ℕ
parse_digits bound acc [] = some acc
parse_digits bound acc (c ∷ s) =
    let next = acc * 10 + (c - 48) in
    let rest = parse_digits bound next s in
    if is_ascii_digit c && ltb next bound then rest else none

abbrev parse_some : ℕ → Text → Option ℕ
parse_some bound [] = none
parse_some bound (c ∷ s) = parse_digits bound 0 (c ∷ s)

-- `s.parse()` into an unsigned type with `bound` values. One leading `+` is allowed.
unfoldable pub parse_unsigned : ℕ → Text → Option ℕ
unfolding parse_digits
parse_unsigned bound [] = none
parse_unsigned bound (c ∷ s) = if c == b'+' then parse_some bound s else parse_some bound (c ∷ s)

parse_last_digit :
    (bound n : ℕ) (rest : Text)
    → n < bound
    → parse_digits bound (n / 10) ((48 + n % 10) ∷ rest) ≡ parse_digits bound n rest
unfolding parse_digits
parse_last_digit bound n rest b =
    let e : n / 10 * 10 + (48 + n % 10 - 48) ≡ n = omega arith in rw e (ground arith)

parse_digits-digits_onto :
    (bound f n : ℕ) (rest : Text)
    → n < f
    → n < bound
    → parse_digits bound 0 (digits_onto f n rest) ≡ parse_digits bound n rest
unfolding digits_onto parse_digits
parse_digits-digits_onto bound zero n rest h b = absurd (omega arith)
parse_digits-digits_onto bound (suc f) n rest h b = elim (Bool-cases (ltb n 10)) [
  | inl small ↦ rw small (ground arith)
  | inr large ↦ rw large (
      parse_digits-digits_onto bound f (n / 10) ((48 + n % 10) ∷ rest) (ground arith) (ground arith)
      ∙ parse_last_digit bound n rest b)
]

abbrev pub IsDigits : Text → Type 0
IsDigits = All (λ c. is_ascii_digit c ≡ true)

digits_onto-IsDigits : (f n : ℕ) (rest : Text) → IsDigits rest → IsDigits (digits_onto f n rest)
unfolding digits_onto
digits_onto-IsDigits zero n rest h = h
digits_onto-IsDigits (suc f) n rest h =
    ground (arith, digits_onto-IsDigits f (n / 10) ((48 + n % 10) ∷ rest))

pub to_decimal-IsDigits : (n : ℕ) → IsDigits (to_decimal n)
unfolding to_decimal
to_decimal-IsDigits n = digits_onto-IsDigits (suc n) n [] tt

has_char_of_digits :
    (c : ℕ) (s : Text) → is_ascii_digit c ≡ false → IsDigits s → has_char c s ≡ false
unfolding has_char
has_char_of_digits c [] h d = refl
has_char_of_digits c (x ∷ s) h (dx, d) = ground (arith, has_char_of_digits c s h d)

-- A printed number has no character that is no digit.
pub has_char-to_decimal : (c n : ℕ) → is_ascii_digit c ≡ false → has_char c (to_decimal n) ≡ false
has_char-to_decimal c n h = has_char_of_digits c (to_decimal n) h (to_decimal-IsDigits n)

-- The printed digits, without their reading as a sign.
parse_unsigned_of_digits :
    (bound : ℕ) (s : Text) (v : ℕ)
    → IsDigits s
    → parse_some bound s ≡ some v
    → parse_unsigned bound s ≡ some v
unfolding parse_unsigned
parse_unsigned_of_digits bound [] v d h = absurd (cc)
parse_unsigned_of_digits bound (c ∷ s) v (dc, d) h = ground arith

parse_some_of_digits : (bound : ℕ) (s : Text) → s ≢ [] → parse_some bound s ≡ parse_digits bound 0 s
parse_some_of_digits bound [] h = absurd (h refl)
parse_some_of_digits bound (c ∷ s) h = refl

digits_onto-ne-nil : (f n : ℕ) (rest : Text) → n < f → digits_onto f n rest ≢ []
unfolding digits_onto
digits_onto-ne-nil zero n rest h = elim h [ ]
digits_onto-ne-nil (suc f) n rest h =
    ground (arith, digits_onto-ne-nil f (n / 10) ((48 + n % 10) ∷ rest))

empty_of_nil : (s : Text) → s ≢ [] → is_empty s ≡ false
empty_of_nil [] h = absurd (h refl)
empty_of_nil (c ∷ s) h = refl

pub is_empty-to_decimal : (n : ℕ) → is_empty (to_decimal n) ≡ false
unfolding to_decimal
is_empty-to_decimal n = empty_of_nil _ (digits_onto-ne-nil (suc n) n [] (omega arith))

-- Printing and reading a number of the type gives it back.
pub parse_unsigned-to_decimal :
    (bound n : ℕ) → n < bound → parse_unsigned bound (to_decimal n) ≡ some n
unfolding to_decimal parse_digits
parse_unsigned-to_decimal bound n h =
    parse_unsigned_of_digits bound (to_decimal n) n (to_decimal-IsDigits n) (
      parse_some_of_digits bound (to_decimal n) (digits_onto-ne-nil (suc n) n [] (omega arith))
      ∙ parse_digits-digits_onto bound (suc n) n [] (omega arith) h)

-- What is read fits the type.
parse_digits-lt :
    (bound acc : ℕ) (s : Text) (v : ℕ) → acc < bound → parse_digits bound acc s ≡ some v → v < bound
unfolding parse_digits
parse_digits-lt bound acc [] v a h = ground arith
parse_digits-lt bound acc (c ∷ s) v a h =
    ground (arith, parse_digits-lt bound (acc * 10 + (c - 48)) s v)

pub parse_unsigned-lt :
    (bound : ℕ) (s : Text) (v : ℕ) → 0 < bound → parse_unsigned bound s ≡ some v → v < bound
unfolding parse_unsigned
parse_unsigned-lt bound [] v p h = absurd (cc)
parse_unsigned-lt bound (c ∷ []) v p h = ground (arith, parse_digits-lt bound 0 (c ∷ []) v)
parse_unsigned-lt bound (c ∷ d ∷ s) v p h =
    ground (arith, parse_digits-lt bound 0 (c ∷ d ∷ s) v, parse_digits-lt bound 0 (d ∷ s) v)

pub to_decimal_inj : (m n : ℕ) → to_decimal m ≡ to_decimal n → m ≡ n
to_decimal_inj m n e = ground (
  arith,
  parse_unsigned-to_decimal (suc (m + n)) m (omega arith),
  parse_unsigned-to_decimal (suc (m + n)) n (omega arith),
  e,
)
