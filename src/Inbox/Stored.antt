-- ===== src/Inbox/Stored.antt =====
-- The name that an upload is stored under is itself an allowed name: `valid_name` and
-- `dedupe_in_dir` of crates/doclinkd/src/inbox.rs.
use doc_link.Inbox.{reserved, sidecar_suffix, all, valid_name, candidate}
use doc_link.Inbox.Allowed.{ends_with-snoc, ends_with-split}
use doc_link.Base.Split.{rsplit_once-split}
use doc_link.Base.Strings.{codes, has_char, ends_with, rsplit_once, append_sep_inj_right}
use doc_link.Base.Decimal.{IsDigits, to_decimal, to_decimal-IsDigits}
use doc_link.Base.{Bool-cases, Option-cases, ◌==◌, Text, ℕ, ◌≡◌, refl, sym, ap, ◌∙◌}
use doc_link.Base.{inl, inr, true, false, not, [], ◌∷◌, ◌++◌, append_assoc}
use doc_link.Base.{arith, text_eq, nat_eq}
use doc_link.Base.{Bool}
use doc_link.Inbox.Allowed.{all-append, snoc, valid_name-IsAllowed, valid_name_of_parts}
use doc_link.Base.Strings.{is_empty, is_whitespace}
use doc_link.Base.{subst}

digits_plain : (s : Text) → IsDigits s → all (λ c. not (has_char c reserved)) s ≡ true
unfolding all has_char
digits_plain [] h = refl
digits_plain (c ∷ s) (hc, h) = ground (arith, digits_plain s h)

-- A text with another last character does not end in the suffix of the sidecars.
suffix_by_last :
    (body : Text) (z : ℕ) → z == b'n' ≡ false → ends_with (body ++ (z ∷ [])) sidecar_suffix ≡ false
suffix_by_last body z h = elim (Bool-cases (ends_with (body ++ (z ∷ [])) sidecar_suffix)) [
  | inr e ↦ e
  | inl e ↦
      let (r, k) = ends_with-split (body ++ (z ∷ [])) sidecar_suffix e in
      let split_off : body ++ (z ∷ []) ≡ (r ++ codes ".doclink.jso") ++ (b'n' ∷ []) =
        k ∙ sym (append_assoc r (codes ".doclink.jso") (b'n' ∷ [])) in
      let ends = ap (λ t. ends_with t (b'n' ∷ [])) split_off in
      absurd (
        ground (
          arith,
          ends,
          h,
          ends_with-snoc body b'n' z,
          ends_with-snoc (r ++ codes ".doclink.jso") b'n' b'n',
        ))
]

bracket_not_white : is_whitespace b')' ≡ false
unfolding is_whitespace
bracket_not_white = refl

json_no_dot : has_char b'.' (codes "json") ≡ false
unfolding has_char
json_no_dot = refl

-- The number in its brackets.
abbrev bracketed : ℕ → Text
bracketed n = codes " (" ++ (to_decimal n ++ codes ")")

bracketed_plain : (n : ℕ) → all (λ c. not (has_char c reserved)) (bracketed n) ≡ true
unfolding all has_char
bracketed_plain n =
    rw
      (
        all-append (λ c. not (has_char c reserved)) (to_decimal n) (codes ")"),
        digits_plain (to_decimal n) (to_decimal-IsDigits n),
      )
      refl

bracketed-snoc :
    (front : Text) (n : ℕ)
    → front ++ bracketed n ≡ (front ++ (codes " (" ++ to_decimal n)) ++ (b')' ∷ [])
bracketed-snoc front n = sym (append_assoc front (codes " (" ++ to_decimal n) (b')' ∷ []))

numbered_allowed :
    (windows : Bool) (x : ℕ) (s : Text) (n : ℕ)
    → valid_name windows (x ∷ s) ≡ true
    → valid_name windows ((x ∷ s) ++ bracketed n) ≡ true
numbered_allowed windows x s n h =
    let (body, z, e) = snoc x s in
    let old = valid_name-IsAllowed windows x s body z e h in
    let split_off = bracketed-snoc (x ∷ s) n in
    let front = (x ∷ s) ++ (codes " (" ++ to_decimal n) in
    valid_name_of_parts windows x (s ++ bracketed n) front b')' split_off (record {
      first_dot = old.first_dot;
      first_white = old.first_white;
      last_dot = refl;
      last_white = bracket_not_white;
      suffix = ap (λ t. ends_with t sidecar_suffix) split_off ∙ suffix_by_last front b')' refl;
      plain =
          rw
            (
              all-append (λ c. not (has_char c reserved)) (x ∷ s) (bracketed n),
              old.plain,
              bracketed_plain n,
            )
            refl;
    })

-- A name whose part before the last dot ends in a bracket is no sidecar's.
suffix_by_stem :
    (front ext : Text)
    → has_char b'.' ext ≡ false
    → ends_with ((front ++ (b')' ∷ [])) ++ (b'.' ∷ ext)) sidecar_suffix ≡ false
suffix_by_stem front ext h =
    let name = (front ++ (b')' ∷ [])) ++ (b'.' ∷ ext) in
    elim (Bool-cases (ends_with name sidecar_suffix)) [
      | inr e ↦ e
      | inl e ↦
          let (r, k) = ends_with-split name sidecar_suffix e in
          let split_off : name ≡ (r ++ codes ".doclink") ++ (b'.' ∷ codes "json") =
            k ∙ sym (append_assoc r (codes ".doclink") (b'.' ∷ codes "json")) in
          let stems =
            (append_sep_inj_right b'.' (front ++ (b')' ∷ [])) (r ++ codes ".doclink") ext
              (codes "json") h json_no_dot split_off).0 in
          let shorter = append_assoc r (codes ".doclin") (b'k' ∷ []) in
          absurd (
            ground (
              arith,
              ap (λ t. ends_with t (b'k' ∷ [])) (stems ∙ sym shorter),
              ends_with-snoc front b'k' b')',
              ends_with-snoc (r ++ codes ".doclin") b'k' b'k',
            ))
    ]

plain_between :
    (front mid back : Text)
    → all (λ c. not (has_char c reserved)) (front ++ back) ≡ true
    → all (λ c. not (has_char c reserved)) mid ≡ true
    → all (λ c. not (has_char c reserved)) (front ++ (mid ++ back)) ≡ true
plain_between front mid back h g =
    let p : ℕ → Bool = λ c. not (has_char c reserved) in
    ground (
      arith,
      all-append p front back,
      all-append p front (mid ++ back),
      all-append p mid back,
      h,
      g,
    )

-- The last character of a name that has an extension is that of the extension.
extension_filled :
    (windows : Bool) (x : ℕ) (s ext : Text)
    → valid_name windows (x ∷ (s ++ (b'.' ∷ ext))) ≡ true
    → is_empty ext ≡ false
extension_filled windows x s [] h =
    let old = valid_name-IsAllowed windows x (s ++ (b'.' ∷ [])) (x ∷ s) b'.' refl h in
    absurd (ground (arith, old.last_dot))
extension_filled windows x s (c ∷ ext) h = refl

stem_allowed :
    (windows : Bool) (x : ℕ) (s ext : Text) (n : ℕ)
    → has_char b'.' ext ≡ false
    → is_empty ext ≡ false
    → valid_name windows (x ∷ (s ++ (b'.' ∷ ext))) ≡ true
    → valid_name windows (x ∷ (s ++ (bracketed n ++ (b'.' ∷ ext)))) ≡ true
stem_allowed windows x s [] n free filled h = absurd (cc)
stem_allowed windows x s (c ∷ rest) n free filled h =
    let (body, z, e) = snoc c rest in
    let tail = ap (λ t. b'.' ∷ t) e in
    let name_end : x ∷ (s ++ (b'.' ∷ c ∷ rest)) ≡ (x ∷ (s ++ (b'.' ∷ body))) ++ (z ∷ []) =
      ap (λ t. (x ∷ s) ++ t) tail ∙ sym (append_assoc (x ∷ s) (b'.' ∷ body) (z ∷ [])) in
    let stored_end : x ∷ (s ++ (bracketed n ++ (b'.' ∷ c ∷ rest)))
        ≡ (x ∷ (s ++ (bracketed n ++ (b'.' ∷ body)))) ++ (z ∷ []) =
      ap (λ t. (x ∷ s) ++ (bracketed n ++ t)) tail
      ∙ (ap (λ t. (x ∷ s) ++ t) (sym (append_assoc (bracketed n) (b'.' ∷ body) (z ∷ [])))
          ∙ sym (append_assoc (x ∷ s) (bracketed n ++ (b'.' ∷ body)) (z ∷ []))) in
    let stem_end : x ∷ (s ++ (bracketed n ++ (b'.' ∷ c ∷ rest)))
        ≡ (((x ∷ s) ++ (codes " (" ++ to_decimal n)) ++ (b')' ∷ [])) ++ (b'.' ∷ c ∷ rest) =
      sym (append_assoc (x ∷ s) (bracketed n) (b'.' ∷ c ∷ rest))
      ∙ ap (λ t. t ++ (b'.' ∷ c ∷ rest)) (bracketed-snoc (x ∷ s) n) in
    let old =
      valid_name-IsAllowed windows x (s ++ (b'.' ∷ c ∷ rest)) (x ∷ (s ++ (b'.' ∷ body))) z name_end
        h in
    valid_name_of_parts windows x (s ++ (bracketed n ++ (b'.' ∷ c ∷ rest)))
      (x ∷ (s ++ (bracketed n ++ (b'.' ∷ body)))) z stored_end
      (record {
        first_dot = old.first_dot;
        first_white = old.first_white;
        last_dot = old.last_dot;
        last_white = old.last_white;
        suffix =
            ap (λ t. ends_with t sidecar_suffix) stem_end
            ∙ suffix_by_stem ((x ∷ s) ++ (codes " (" ++ to_decimal n)) (c ∷ rest) free;
        plain = plain_between (x ∷ s) (bracketed n) (b'.' ∷ c ∷ rest) old.plain (bracketed_plain n);
      })

valid_name-nil : (windows : Bool) → valid_name windows [] ≡ false
unfolding valid_name
valid_name-nil windows = refl

-- A number in front of the extension, or at the end, leaves an allowed name allowed.
pub candidate_allowed :
    (windows : Bool) (name : Text) (n : ℕ)
    → valid_name windows name ≡ true
    → valid_name windows (candidate name n) ≡ true
unfolding candidate
candidate_allowed windows [] n h = absurd (ground (arith, valid_name-nil windows))
candidate_allowed windows (x ∷ s) n h = elim (Option-cases (rsplit_once b'.' (x ∷ s))) [
  | inl e ↦ rw (e, candidate) (numbered_allowed windows x s n h)
  | inr (([], ext), e) ↦ rw (e, candidate) (numbered_allowed windows x s n h)
  | inr ((y ∷ stem, ext), e) ↦
      let (k, free) = rsplit_once-split b'.' (x ∷ s) (y ∷ stem) ext e in
      let whole : valid_name windows (y ∷ (stem ++ (b'.' ∷ ext))) ≡ true =
        subst (λ t. valid_name windows t ≡ true) k h in
      rw (e, candidate)
        (subst (λ t. valid_name windows (y ∷ (stem ++ (codes " (" ++ t))) ≡ true)
          (append_assoc (to_decimal n) (codes ")") (b'.' ∷ ext))
          (stem_allowed windows y stem ext n free (extension_filled windows y stem ext whole)
            whole))
]
