-- ===== src/Range/Requested.antt =====
-- A range that a client prints in the standard form, against `parse_range` of
-- crates/doclinkd/src/server.rs.
use doc_link.Range.{partial, range_end, prefix_range, parse_spec, parse_range}
use doc_link.Protocol.{lit}
use doc_link.Base.Strings.{
  strip_prefix-append, has_char, has_char-append, split_once-append, trim, trim_start, trim_end,
  is_whitespace,
}
use doc_link.Base.Decimal.{
  u64_mod, IsDigits, to_decimal-IsDigits, to_decimal, is_ascii_digit, has_char-to_decimal,
  parse_unsigned-to_decimal,
}
use doc_link.Base.{Text, ℕ, ◌-◌, ◌≤◌, ◌<◌, min, ◌≡◌, refl, true, false, some, [], ◌∷◌}
use doc_link.Base.{◌++◌, arith}
use doc_link.Base.{◌==◌, ◌∙◌, text_eq, nat_eq}
use doc_link.Base.Decimal.{is_empty-to_decimal}
use doc_link.Base.{le→ltb, lt→leb}

digit-space : (c : ℕ) → is_ascii_digit c ≡ true → is_whitespace c ≡ false
unfolding is_whitespace
digit-space c h = ground arith

trim_end-digits : (s : Text) → IsDigits s → trim_end s ≡ s
unfolding trim_end
trim_end-digits [] d = refl
trim_end-digits (c ∷ s) (dc, d) = rw (trim_end-digits s d, digit-space c dc) refl

trim-digits : (s : Text) → IsDigits s → trim s ≡ s
unfolding trim trim_start
trim-digits [] d = trim_end-digits [] tt
trim-digits (c ∷ s) (dc, d) = rw (digit-space c dc) (trim_end-digits (c ∷ s) (dc, d))

trim-to_decimal : (n : ℕ) → trim (to_decimal n) ≡ to_decimal n
trim-to_decimal n = trim-digits (to_decimal n) (to_decimal-IsDigits n)

comma_free : (a b : ℕ) → has_char b',' (to_decimal a ++ (b'-' ∷ to_decimal b)) ≡ false
unfolding has_char
comma_free a b =
    has_char-append b',' (to_decimal a) (b'-' ∷ to_decimal b)
    ∙ rw (has_char-to_decimal b',' a refl, has_char-to_decimal b',' b refl) refl

parse_spec-printed :
    (a b total : ℕ)
    → a ≤ b
    → a < total
    → b < u64_mod
    → parse_spec (to_decimal a ++ (b'-' ∷ to_decimal b)) total ≡ partial a (min b (total - 1))
unfolding parse_spec prefix_range range_end
parse_spec-printed a b total ab inside bound =
    rw
      (
        comma_free a b,
        split_once-append b'-' (to_decimal a) (to_decimal b) (has_char-to_decimal b'-' a refl),
        parse_spec,
      )
      rw
      (
        trim-to_decimal a,
        trim-to_decimal b,
        is_empty-to_decimal a,
        parse_unsigned-to_decimal u64_mod a (omega (arith, ab, bound)),
        parse_unsigned-to_decimal u64_mod b bound,
      )
      rw (lt→leb total a inside, le→ltb (min b (total - 1)) a (omega (arith, ab, inside))) refl

nat_beq_false : (n : ℕ) → 1 ≤ n → (n == 0) ≡ false
nat_beq_false n h = ground arith

-- "bytes=a-b" for two numbers with a ≤ b, both below 2 ^ 64, is answered with the bytes from a to b,
-- or to the last byte of the file if b lies behind it, when byte a is in the file.
pub parse_range-printed :
    (a b total : ℕ)
    → a ≤ b
    → a < total
    → b < u64_mod
    → parse_range (some (lit "bytes=" ++ (to_decimal a ++ (b'-' ∷ to_decimal b)))) total
      ≡ partial a (min b (total - 1))
unfolding parse_range
parse_range-printed a b total ab inside bound =
    rw
      (
        nat_beq_false total (omega (arith, inside)),
        strip_prefix-append (lit "bytes=") (to_decimal a ++ (b'-' ∷ to_decimal b)),
        parse_range,
      )
      (parse_spec-printed a b total ab inside bound)
