-- ===== src/Tests/ScopeRuns.antt =====
-- Runs of the scopes and the ranges, on a share with the folder d (files a and b) and the file p.
use doc_link.Protocol.{lit}
use doc_link.Scope.{within, can_read_file}
use doc_link.Scope.Laws.{Inside, can_read_file_iff}
use doc_link.Subtract.{out_of_fuel, subtract_from_scope}
use doc_link.Subtract.Hides.{subtract_hides}
use doc_link.Subtract.Adds.{subtract_adds_nothing}
use doc_link.Subtract.Total.{IsListing, subtract_total}
use doc_link.Subtract.Keeps.{deeper, listed, in_share, subtract_keeps}
use doc_link.Range.{parse_range}
use doc_link.Range.Laws.{IsServable, parse_range-IsServable}
use doc_link.Base.Strings.{starts_with}
use doc_link.Base.{if◌then◌else◌, Bool-cases, Text, text_beq, beq-eq, length, Elem, here}
use doc_link.Base.{
  there, ◌-◌, ◌<◌, min, ◌≡◌, refl, sym, subst, ◌≢◌, ◌==◌, text_beq_iff, ◌↔◌, ◌⊎◌, inl, inr,
}
use doc_link.Base.{true, false, Option, none, some, List, [], ◌∷◌, ◌++◌, arith, text_eq}
use doc_link.Base.{nat_eq}
use doc_link.Base.{any}

abbrev folder : Text
folder = lit "d"

abbrev file_a : Text
file_a = lit "d/a"

abbrev file_b : Text
file_b = lit "d/b"

abbrev file_p : Text
file_p = lit "p"

unfoldable listing : Text → Option (List Text)
listing [] = some (folder ∷ file_p ∷ [])
listing (c ∷ s) = if text_beq (c ∷ s) folder then some (file_a ∷ file_b ∷ []) else none

abbrev left : List Text
left = file_b ∷ file_p ∷ []

in_folder :
    (d k : Text)
    → d ≡ folder
    → Elem k (file_a ∷ file_b ∷ [])
    → (length d < length k) × (d ≢ [] → within k d ≡ true)
unfolding within lit starts_with
in_folder d k e (here k_a) = rw (e, k_a) (omega arith, λ h. refl)
in_folder d k e (there (here k_b)) = rw (e, k_b) (omega arith, λ h. refl)
in_folder d k e (there (there m)) = elim m [ ]

abbrev root : Text
root = []

abbrev whole : List Text
whole = []

in_root :
    (k : Text)
    → Elem k (folder ∷ file_p ∷ [])
    → (length root < length k) × (root ≢ [] → within k root ≡ true)
unfolding lit
in_root k (here e) = rw e (omega arith, λ h. absurd (h refl))
in_root k (there (here e)) = rw e (omega arith, λ h. absurd (h refl))
in_root k (there (there m)) = elim m [ ]

listing_lem :
    (k : Text) (d : Text) (ks : List Text)
    → listing d ≡ some ks
    → Elem k ks
    → (length d < length k) × (d ≢ [] → within k d ≡ true)
unfolding listing
listing_lem k [] ks =
    λ h m. let same : (folder ∷ file_p ∷ []) ≡ ks = cc in in_root k (subst (Elem k) (sym same) m)
listing_lem k (c ∷ s) ks = elim (Bool-cases (text_beq (c ∷ s) folder)) [
  | inl e ↦ rw e λ h m.
      let same : (file_a ∷ file_b ∷ []) ≡ ks = cc in
      in_folder (c ∷ s) k (beq-eq (c ∷ s) folder e) (subst (Elem k) (sym same) m)
  | inr e ↦ rw e λ h m. absurd (cc)
]

listing-IsListing : IsListing listing
listing-IsListing d k ks h m = listing_lem k d ks h m

can_read_file_iff_example : (can_read_file (folder ∷ []) file_a ≡ true) ↔ (
    ((folder ∷ []) ≡ []) ⊎ ((p : Text) × Elem p (folder ∷ []) × ((file_a ≡ p) ⊎ Inside file_a p)))
can_read_file_iff_example = can_read_file_iff (folder ∷ []) file_a

subtract_hides_example : (left ≢ []) × (can_read_file left file_a ≡ false)
unfolding doc_link.Base.Strings.has_char lit subtract_from_scope doc_link.Subtract.walk listing
    doc_link.Subtract.survivors text_beq within starts_with
subtract_hides_example = subtract_hides listing file_a 10 whole left refl refl

subtract_adds_nothing_example : can_read_file whole file_b ≡ true
unfolding subtract_from_scope doc_link.Subtract.walk listing doc_link.Subtract.survivors text_beq
    lit within starts_with doc_link.Base.Strings.has_char can_read_file doc_link.Base.any
subtract_adds_nothing_example =
    subtract_adds_nothing listing file_a listing-IsListing 10 whole left file_b refl refl refl refl

subtract_total_example : subtract_from_scope listing file_a 4 whole ≢ out_of_fuel
unfolding lit
subtract_total_example = subtract_total listing file_a listing-IsListing 4 whole (omega arith)

distinct : (s t : Text) → (s == t) ≡ false → s ≢ t
distinct s t h e = ground (arith, text_beq_iff s t, h, e)

subtract_keeps_example : Elem file_b left
unfolding lit subtract_from_scope doc_link.Subtract.walk listing doc_link.Subtract.survivors
    text_beq within starts_with
subtract_keeps_example =
    subtract_keeps listing file_a 10 whole left file_b refl (distinct file_b file_a refl) refl (
      in_share refl (
        deeper (folder ∷ file_p ∷ []) folder refl (here refl) (distinct folder file_a refl) refl
          (listed (file_a ∷ file_b ∷ []) refl (there (here refl)))))

parse_range-IsServable_example : IsServable 100 (parse_range (some (lit "bytes=90-")) 100)
parse_range-IsServable_example = parse_range-IsServable (some (lit "bytes=90-")) 100
