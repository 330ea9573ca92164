-- ===== src/Range.antt =====
-- Byte ranges of a download, `parse_range` of crates/doclinkd/src/server.rs. A text is trimmed of
-- white space as `trim` does, and a number is a u64.
pub mod Laws
pub mod Requested
use doc_link.Protocol.{lit}
use doc_link.Base.Strings.{strip_prefix, has_char, split_once, trim, is_empty}
use doc_link.Base.Decimal.{parse_unsigned, u64_mod}
use doc_link.Base.{ltb, leb, if◌then◌else◌, ◌==◌, Text, ◌-◌, min, Option, none, some}
use doc_link.Base.{text_eq, nat_eq, ℕ}

pub data ParsedRange : Type 0 where
  full unsatisfiable : ParsedRange
  partial : ℕ → ℕ → ParsedRange

-- The suffix form, the last n bytes.
unfoldable pub suffix_range : Option ℕ → ℕ → ParsedRange
suffix_range none total = full
suffix_range (some n) total = if ltb 0 n then partial (total - min n total) (total - 1) else full

-- `match b.trim().parse()` of the prefix form: the last byte that is wanted.
unfoldable pub range_end : Option ℕ → ℕ → ℕ
range_end none total = total - 1
range_end (some e) total = min e (total - 1)

-- The prefix form, from a first byte.
unfoldable pub prefix_range : Option ℕ → Option ℕ → ℕ → ParsedRange
prefix_range none last total = full
prefix_range (some start) last total =
    if leb total start
    then unsatisfiable
    else let end_incl = range_end last total in
      if ltb end_incl start then full else partial start end_incl

-- What follows "bytes=".
unfoldable pub parse_spec : Text → ℕ → ParsedRange
parse_spec spec total = if has_char b',' spec then full else elim (split_once b'-' spec) [
  | none ↦ full
  | some (a, b) ↦
      if is_empty (trim a)
      then suffix_range (parse_unsigned u64_mod (trim b)) total
      else prefix_range (parse_unsigned u64_mod (trim a)) (parse_unsigned u64_mod (trim b)) total
]

-- `parse_range`
unfoldable pub parse_range : Option Text → ℕ → ParsedRange
parse_range hdr total = if total == 0 then full else elim hdr [
  | none ↦ full
  | some range ↦ elim (strip_prefix range (lit "bytes=")) [
    | none ↦ full
    | some spec ↦ parse_spec spec total
  ]
]
