-- ===== src/ShareItem/Fetched.antt =====
-- What `share_item` of crates/doclinkd/src/admin.rs fetches before it changes the scopes.
use doc_link.Scope.{DirEntry, slash, within}
use doc_link.Scope.Laws.{within_iff}
use doc_link.ShareItem.{folders_above, kids, fetch_all}
use doc_link.Subtract.Total.{IsListing}
use doc_link.Base.Map.{lookup, insert, lookup-insert}
use doc_link.Base.Strings.{is_empty, ends_with}
use doc_link.Base.{
  Bool-cases, Option-cases, append-nil, text_beq_iff, ℕ, ◌==◌, Text, beq-eq, Elem, here, there,
  retain, map,
}
use doc_link.Base.{
  ◌≡◌, ◌≢◌, refl, sym, ap, subst, ◌∙◌, ◌⊎◌, inl, inr, true, false, not, ◌&&◌, ◌||◌, Option, none,
  some, List, [], ◌∷◌, ◌++◌, arith,
}
use doc_link.Base.{text_eq, nat_eq}
use doc_link.Base.{text_beq}

-- The paths of a listing.
abbrev pub entry_paths : (Text → Option (List DirEntry)) → Text → Option (List Text)
entry_paths list d = elim (list d) [ none ↦ none | some entries ↦ some (map (λ e. e.path) entries) ]

append-one : (s : Text) (c : ℕ) (t : Text) → (s ++ (c ∷ [])) ++ t ≡ s ++ (c ∷ t)
append-one [] c t = refl
append-one (x ∷ s) c t = ap (λ r. x ∷ r) (append-one s c t)

folders_above-Elem :
    (before d r : Text) → r ≢ [] → Elem (before ++ d) (folders_above before (d ++ (slash ∷ r)))
unfolding folders_above
folders_above-Elem before [] [] n = absurd (n refl)
folders_above-Elem before [] (c ∷ r) n = here (append-nil before)
folders_above-Elem before (c ∷ d) r n =
    let rest =
      subst (λ p. Elem p (folders_above (before ++ (c ∷ [])) (d ++ (slash ∷ r))))
        (append-one before c d) (folders_above-Elem (before ++ (c ∷ [])) d r n) in
    elim (Bool-cases (c == slash && not (is_empty (d ++ (slash ∷ r))))) [
      | inl cut ↦ rw cut (there rest)
      | inr along ↦ rw along rest
    ]

apart : (b d : Text) (ds : List Text) → (b == d) ≡ false → (Elem d ds → ⊥) → Elem d (b ∷ ds) → ⊥
apart b d ds e out (here h) = ground (arith, text_beq_iff b d, h, e)
apart b d ds e out (there m) = out m

lookup-fetch_all :
    (list : Text → Option (List DirEntry)) (path d : Text) (ds : List Text)
    → (lookup d (fetch_all list path ds) ≡ some (kids path (list d)))
      ⊎ ((lookup d (fetch_all list path ds) ≡ none) × (Elem d ds → ⊥))
unfolding fetch_all lookup
lookup-fetch_all list path d [] = inr (refl, λ m. elim m [ ])
lookup-fetch_all list path d (b ∷ ds) =
    let found = lookup-insert d b (kids path (list b)) (fetch_all list path ds) in
    elim (Bool-cases (b == d)) [
      | inl e ↦ inl (found ∙ (rw e refl ∙ ap (λ j. some (kids path (list j))) (beq-eq b d e)))
      | inr e ↦
          let rest : lookup d (insert b (kids path (list b)) (fetch_all list path ds))
              ≡ lookup d (fetch_all list path ds) =
            found ∙ rw e refl in
          elim (lookup-fetch_all list path d ds) [
            | inl h ↦ inl (rest ∙ h)
            | inr (h, out) ↦ inr (rest ∙ h, λ m. apart b d ds e out m)
          ]
    ]

Elem-cons_mono :
    (k x : Text) (xs ys : List Text) → (Elem k xs → Elem k ys) → Elem k (x ∷ xs) → Elem k (x ∷ ys)
Elem-cons_mono k x xs ys f (here h) = here h
Elem-cons_mono k x xs ys f (there m) = there (f m)

no_kids : (path k : Text) → Elem k (kids path none) → ⊥
unfolding kids
no_kids path k m = elim m [ ]

ends_with-slash : (d : Text) → ends_with (d ++ (slash ∷ [])) (slash ∷ []) ≡ true
unfolding ends_with doc_link.Base.text_beq
ends_with-slash [] = refl
ends_with-slash (c ∷ d) = ground (arith, ends_with-slash d)

kids-Elem :
    (path k : Text) (entries : List DirEntry)
    → Elem k (kids path (some entries))
    → Elem k (map (λ e. e.path) entries)
unfolding kids retain
kids-Elem path k [] m = elim m [ ]
kids-Elem path k (e ∷ entries) m = elim (Bool-cases (not (e.path == path || within e.path path))) [
  | inl stays ↦ Elem-cons_mono k e.path _ _ (kids-Elem path k entries) (rw stays at m)
  | inr gone ↦ there (kids-Elem path k entries (rw gone at m))
]

module _ (list : Text → Option (List DirEntry)) (path : Text) where
  -- What was fetched is a listing, if the listings of the share are.
  pub fetch_all-IsListing :
      (ds : List Text)
      → IsListing (entry_paths list)
      → IsListing (λ d. lookup d (fetch_all list path ds))
  fetch_all-IsListing ds lawful d k ks h m = elim (lookup-fetch_all list path d ds) [
    | inr (gone, out) ↦ absurd (cc)
    | inl found ↦
        let same : kids path (list d) ≡ ks = cc in
        elim (Option-cases (list d)) [
          | inl e ↦
              absurd
                (no_kids path k (subst (λ o. Elem k (kids path o)) e (subst (Elem k) (sym same) m)))
          | inr (es, e) ↦ lawful d k (map (λ x. x.path) es) (rw (e, entry_paths) refl) (
              kids-Elem path k es
                (subst (λ o. Elem k (kids path o)) e (subst (Elem k) (sym same) m)))
        ]
  ]

  pub fetch_all-listed :
      (d : Text) (ds : List Text) → Elem d ds → lookup d (fetch_all list path ds) ≢ none
  fetch_all-listed d ds m h = elim (lookup-fetch_all list path d ds) [
    | inl found ↦ absurd (cc)
    | inr (gone, out) ↦ out m
  ]

-- Each folder above a path that does not end in a slash is among those that are fetched.
pub folders_above_all :
    (path d : Text)
    → ends_with path (slash ∷ []) ≡ false
    → within path d ≡ true
    → Elem d (folders_above [] path)
folders_above_all path d h w =
    let (n, (r, e)) = (within_iff path d).0 w in
    subst (λ p. Elem d (folders_above [] p)) (sym e)
      (folders_above-Elem [] d r (λ z.
        let ended : ends_with path (slash ∷ []) ≡ true =
          ap (λ p. ends_with p (slash ∷ [])) (e ∙ ap (λ s. d ++ (slash ∷ s)) z)
          ∙ ends_with-slash d in
        absurd (ground (arith, ended, h))))
