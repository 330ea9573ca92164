-- ===== src/ShareRoot/Refused.antt =====
-- Which paths `resolve` refuses before it asks the file system.
use doc_link.ShareRoot.{
  Component, prefix, root_dir, cur_dir, parent_dir, normal, is_separator, dot_dot, part, parts,
  leading, components, has_root, is_absolute, is_hostile, suspicious, entry_path,
}
use doc_link.Base.Split.{split-append, split_whole}
use doc_link.Base.Strings.{has_char, split, is_empty, has_char-append}
use doc_link.Base.{◌==◌, Text, any, any-append, ◌≡◌, refl, Bool, false, ◌||◌, List}
use doc_link.Base.{[], ◌∷◌, arith, text_eq, nat_eq}
use doc_link.Base.{nat_beq, Bool-cases, text_beq, inl, inr, true}
use doc_link.Base.{◌++◌}
use doc_link.ShareRoot.{slash}

abbrev starts_apart : Bool → Text → Bool
starts_apart windows [] = false
starts_apart windows (c ∷ s) = is_separator windows c

-- An independent description: a colon, a separator in front, or two dots between separators.
abbrev pub is_refused : Bool → Text → Bool
is_refused windows rel =
    has_char b':' rel
    || starts_apart windows rel
    || any (λ s. s == dot_dot) (split (is_separator windows) rel)

any-part : (s : Text) → any is_hostile (part s) ≡ (s == dot_dot)
unfolding any part text_beq
any-part [] = refl
any-part (c ∷ []) = elim (Bool-cases (nat_beq c b'.')) [ inl e ↦ rw e refl | inr e ↦ rw e refl ]
any-part (c ∷ d ∷ []) = elim (Bool-cases (nat_beq c b'.')) [
  | inl e ↦ elim (Bool-cases (nat_beq d b'.')) [ inl k ↦ rw (e, k) refl | inr k ↦ rw (e, k) refl ]
  | inr e ↦ rw e refl
]
any-part (c ∷ d ∷ i ∷ s) = elim (Bool-cases (nat_beq c b'.')) [
  | inl e ↦ elim (Bool-cases (nat_beq d b'.')) [ inl k ↦ rw (e, k) refl | inr k ↦ rw (e, k) refl ]
  | inr e ↦ rw e refl
]

any-parts : (ss : List Text) → any is_hostile (parts ss) ≡ any (λ s. s == dot_dot) ss
unfolding any parts
any-parts [] = refl
any-parts (s ∷ ss) = rw (any-append is_hostile (part s) (parts ss), any-part s, any-parts ss) refl

any-leading :
    (windows : Bool) (rel : Text)
    → has_char b':' rel ≡ false
    → any is_hostile (leading windows rel) ≡ starts_apart windows rel
unfolding any leading has_char
any-leading windows [] h = refl
any-leading windows (c ∷ []) h = ground arith
any-leading true (c ∷ d ∷ s) h = ground arith
any-leading false (c ∷ d ∷ s) h = ground arith

-- What is absolute has a component that is refused.
has_root_of_plain :
    (windows : Bool) (cs : List Component) → any is_hostile cs ≡ false → has_root windows cs ≡ false
unfolding has_root any
has_root_of_plain windows [] h = refl
has_root_of_plain windows (prefix ∷ cs) h = absurd (cc)
has_root_of_plain windows (root_dir ∷ cs) h = absurd (cc)
has_root_of_plain windows (cur_dir ∷ cs) h = refl
has_root_of_plain windows (parent_dir ∷ cs) h = absurd (cc)
has_root_of_plain windows (normal s ∷ cs) h = refl

any-components :
    (windows : Bool) (rel : Text)
    → has_char b':' rel ≡ false
    → any is_hostile (components windows rel)
      ≡ (starts_apart windows rel || any (λ s. s == dot_dot) (split (is_separator windows) rel))
unfolding components
any-components windows rel h =
    rw
      (
        any-append is_hostile (leading windows rel) (parts (split (is_separator windows) rel)),
        any-leading windows rel h,
        any-parts (split (is_separator windows) rel),
      )
      refl

-- A path is refused outright just if it has a colon, starts with a separator, or has two dots
-- between separators; on Windows a backslash separates as well.
pub suspicious_iff : (windows : Bool) (rel : Text) → suspicious windows rel ≡ is_refused windows rel
unfolding suspicious is_absolute
suspicious_iff windows rel = elim (Bool-cases (has_char b':' rel)) [
  | inl e ↦ rw e refl
  | inr e ↦ elim (Bool-cases (any is_hostile (components windows rel))) [
    | inl k ↦ ground (arith, e, k, any-components windows rel e)
    | inr k ↦ ground (
      arith,
      e,
      k,
      any-components windows rel e,
      has_root_of_plain windows (components windows rel) k,
    )
  ]
]

-- What the name of an item in a directory is.
abbrev pub IsFileName : Bool → Text → Type 0
IsFileName windows name =
    (is_empty name ≡ false)
    × (any (is_separator windows) name ≡ false)
    × (has_char b':' name ≡ false)
    × (name == dot_dot ≡ false)

starts_apart-name :
    (windows : Bool) (name : Text)
    → any (is_separator windows) name ≡ false
    → starts_apart windows name ≡ false
unfolding any
starts_apart-name windows [] h = refl
starts_apart-name windows (c ∷ s) h = ground arith

-- The path of an entry is refused no more than the path of its folder.
pub entry_path_accepted :
    (windows : Bool) (rel name : Text)
    → suspicious windows rel ≡ false
    → IsFileName windows name
    → suspicious windows (entry_path rel name) ≡ false
unfolding entry_path has_char any
entry_path_accepted windows [] name h (filled, whole, plain, up) =
    rw
      (
        suspicious_iff windows name,
        plain,
        starts_apart-name windows name whole,
        split_whole (is_separator windows) name whole,
        up,
      )
      refl
entry_path_accepted windows (c ∷ rel) name h (filled, whole, plain, up) =
    let clear : is_refused windows (c ∷ rel) ≡ false = rw (suspicious_iff windows (c ∷ rel)) at h in
    let parts_of = split-append (is_separator windows) slash (c ∷ rel) name refl in
    rw
      (
        suspicious_iff windows (c ∷ (rel ++ (slash ∷ name))),
        parts_of,
        split_whole (is_separator windows) name whole,
        any-append (λ s. s == dot_dot) (split (is_separator windows) (c ∷ rel)) (name ∷ []),
        has_char-append b':' rel (slash ∷ name),
      )
      (ground (arith, clear, up, plain))
