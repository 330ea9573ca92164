-- ===== src/Range/Laws.antt =====
-- The bounds of the byte ranges that `parse_range` of crates/doclinkd/src/server.rs accepts.
use doc_link.Range.{
  ParsedRange, full, unsatisfiable, partial, suffix_range, range_end, prefix_range, parse_spec,
  parse_range,
}
use doc_link.Protocol.{lit}
use doc_link.Base.Strings.{strip_prefix, has_char, split_once, trim, is_empty}
use doc_link.Base.Decimal.{parse_unsigned, u64_mod}
use doc_link.Base.{ltb, leb, ltb→lt, ltb→le, Bool-cases, ℕ, ◌+◌, ◌≤◌, inl, inr, Option}
use doc_link.Base.{none, some, arith}
use doc_link.Base.{Option-cases, ◌==◌, Text, ◌≡◌, false, text_eq, nat_eq}

-- A range that is served lies in the file, and only a file with bytes has one that is refused.
abbrev pub IsServable : ℕ → ParsedRange → Type 0
IsServable total full = Unit
IsServable total unsatisfiable = 1 ≤ total
IsServable total (partial start end_incl) = (start ≤ end_incl) × (end_incl + 1 ≤ total)

suffix_range-IsServable :
    (n : Option ℕ) (total : ℕ) → 1 ≤ total → IsServable total (suffix_range n total)
unfolding suffix_range
suffix_range-IsServable none total h = tt
suffix_range-IsServable (some n) total h = elim (Bool-cases (ltb 0 n)) [
  | inl e ↦ rw e (omega (arith, h, ltb→lt 0 n e), omega (arith, h))
  | inr e ↦ rw e tt
]

range_end-lt : (b : Option ℕ) (total : ℕ) → 1 ≤ total → range_end b total + 1 ≤ total
unfolding range_end
range_end-lt none total h = omega (arith, h)
range_end-lt (some e) total h = omega (arith, h)

prefix_range-IsServable :
    (a b : Option ℕ) (total : ℕ) → 1 ≤ total → IsServable total (prefix_range a b total)
unfolding prefix_range range_end
prefix_range-IsServable none b total h = tt
prefix_range-IsServable (some start) b total h = elim (Bool-cases (leb total start)) [
  | inl e ↦ rw e h
  | inr e ↦ rw e elim (Bool-cases (ltb (range_end b total) start)) [
    | inl e2 ↦ rw e2 tt
    | inr e2 ↦ rw e2 (ltb→le _ _ e2, range_end-lt b total h)
  ]
]

parse_spec-IsServable :
    (spec : Text) (total : ℕ) → 1 ≤ total → IsServable total (parse_spec spec total)
unfolding parse_spec
parse_spec-IsServable spec total h = elim (Bool-cases (has_char b',' spec)) [
  | inl e ↦ rw e tt
  | inr e ↦ rw e elim (Option-cases (split_once b'-' spec)) [
    | inl e2 ↦ rw e2 tt
    | inr ((a, b), e2) ↦
        rw (e2, parse_spec)
          elim (Bool-cases (is_empty (trim a))) [
            | inl e3 ↦
                rw (e3, parse_spec)
                  (suffix_range-IsServable (parse_unsigned u64_mod (trim b)) total h)
            | inr e3 ↦
                rw (e3, parse_spec)
                  (prefix_range-IsServable (parse_unsigned u64_mod (trim a))
                    (parse_unsigned u64_mod (trim b)) total h)
          ]
  ]
]

nonzero : (n : ℕ) → (n == 0) ≡ false → 1 ≤ n
nonzero n h = ground (arith, h)

-- Whatever the header says, the range that is served lies inside the file, its first byte not after
-- its last, and a range is refused as unsatisfiable only for a file that has bytes.
pub parse_range-IsServable :
    (hdr : Option Text) (total : ℕ) → IsServable total (parse_range hdr total)
unfolding parse_range
parse_range-IsServable none total = elim (Bool-cases (total == 0)) [
  | inl e ↦ rw e tt
  | inr e ↦ rw e tt
]
parse_range-IsServable (some range) total = elim (Bool-cases (total == 0)) [
  | inl e ↦ rw e tt
  | inr e ↦ rw e elim (Option-cases (strip_prefix range (lit "bytes="))) [
    | inl e2 ↦ rw (e2, parse_range) tt
    | inr (spec, e2) ↦ rw (e2, parse_range) (parse_spec-IsServable spec total (nonzero total e))
  ]
]
