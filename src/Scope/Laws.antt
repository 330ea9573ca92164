-- ===== src/Scope/Laws.antt =====
-- What the scope tests of server.rs decide.
use doc_link.Base.{ℕ, Text, true, ◌||◌, List, [], ◌∷◌, ◌++◌}
use doc_link.Base.{◌≡◌, refl, sym, ap, ◌∙◌, ◌≢◌, ◌↔◌, ◌⊎◌, inl, inr, arith, Option, some}
use doc_link.Base.{get_elem?, length, any, ◌==◌, text_eq, nat_eq, beq-eq, beq_refl, Bool-cases}
use doc_link.Base.{length-append, Elem, any-Elem, any_of_Elem, any_mono, any-congr, append_assoc}
use doc_link.Base.Strings.{starts_with, starts_with-split, starts_with-append}
use doc_link.Scope.{file, dir, slash, slash_at, within, can_list, can_read_file, entry_visible}

-- `path` is `ancestor`, a slash and a rest.
abbrev pub Inside : Text → Text → Type 0
Inside path ancestor = (ancestor ≢ []) × ((r : Text) × (path ≡ ancestor ++ (slash ∷ r)))

get_elem?-append : (a : Text) (c : ℕ) (r : Text) → get_elem? (a ++ (c ∷ r)) (length a) ≡ some c
get_elem?-append [] c r = refl
get_elem?-append (x ∷ a) c r = get_elem?-append a c r

within_of_append : (a r : Text) → a ≢ [] → within (a ++ (slash ∷ r)) a ≡ true
unfolding within
within_of_append [] r h = absurd (h refl)
within_of_append (x ∷ a) r h = ground (
  arith,
  starts_with-append (x ∷ a) (slash ∷ r),
  get_elem?-append (x ∷ a) slash r,
  length-append (x ∷ a) (slash ∷ r),
)

rest-slash :
    (a r : Text) (o : Option ℕ)
    → get_elem? (a ++ r) (length a) ≡ o
    → slash_at o ≡ true
    → (r' : Text) × (r ≡ slash ∷ r')
rest-slash [] [] o e h = absurd (ground (arith, e))
rest-slash [] (d ∷ r) o e h = (r, ground (arith, e))
rest-slash (x ∷ a) r o e h = rest-slash a r o e h

Inside-of_rest :
    (path ancestor r : Text)
    → path ≡ ancestor ++ r
    → within path ancestor ≡ true
    → Inside path ancestor
unfolding within
Inside-of_rest path [] r e h = absurd (cc)
Inside-of_rest path (x ∷ a) r e h =
    let (r', e') =
      rest-slash (x ∷ a) r (get_elem? ((x ∷ a) ++ r) (length (x ∷ a))) refl (ground arith) in
    (λ z. cc, (r', e ∙ ap (◌++◌ (x ∷ a)) e'))

within-starts_with :
    (path ancestor : Text) → within path ancestor ≡ true → starts_with path ancestor ≡ true
unfolding within
within-starts_with path ancestor h = ground arith

Inside-of_within : (path ancestor : Text) → within path ancestor ≡ true → Inside path ancestor
Inside-of_within path ancestor h =
    let (r, e) = starts_with-split path ancestor (within-starts_with path ancestor h) in
    Inside-of_rest path ancestor r e h

-- `within` decides exactly strict descent: the ancestor, a slash, and a rest.
pub within_iff : (path ancestor : Text) → (within path ancestor ≡ true) ↔ Inside path ancestor
within_iff path ancestor =
    (Inside-of_within path ancestor, λ (h, t). rw t.1 (within_of_append ancestor t.0 h))

-- Descent composes.
pub Inside-trans : (a b c : Text) → Inside a b → Inside b c → Inside a c
Inside-trans a b c hb hc = (
  hc.0,
  (
    hc.1.0 ++ (slash ∷ hb.1.0),
    hb.1.1
        ∙ ap (λ (t : Text). t ++ (slash ∷ hb.1.0)) hc.1.1
        ∙ append_assoc c (slash ∷ hc.1.0) (slash ∷ hb.1.0),
  ),
)

abbrev OneLine : Text → Text → Type 0
OneLine p d =
    (p ≡ d) ⊎ (((q : Text) × (p ≡ d ++ (slash ∷ q))) ⊎ ((q : Text) × (d ≡ p ++ (slash ∷ q))))

OneLine-cons : (x y : ℕ) (p d : Text) → x ≡ y → OneLine p d → OneLine (x ∷ p) (y ∷ d)
OneLine-cons x y p d e (inl h) = inl (ground arith)
OneLine-cons x y p d e (inr (inl (q, h))) = inr (inl (q, ground arith))
OneLine-cons x y p d e (inr (inr (q, h))) = inr (inr (q, ground arith))

-- Two ancestors of one path lie on one line.
OneLine-of_ancestors : (p d r r' : Text) → p ++ (slash ∷ r) ≡ d ++ (slash ∷ r') → OneLine p d
OneLine-of_ancestors [] [] r r' e = inl refl
OneLine-of_ancestors [] (x ∷ d) r r' e = inr (inr (d, ground arith))
OneLine-of_ancestors (x ∷ p) [] r r' e = inr (inl (p, ground arith))
OneLine-of_ancestors (x ∷ p) (y ∷ d) r r' e =
    OneLine-cons x y p d (ground arith) (OneLine-of_ancestors p d r r' (ground arith))

listable_of_OneLine :
    (p d : Text) → p ≢ [] → d ≢ [] → OneLine p d → (d == p || within d p || within p d) ≡ true
listable_of_OneLine p d hp hd (inl e) = ground (arith, beq_refl p, e)
listable_of_OneLine p d hp hd (inr (inl (q, e))) = ground (arith, (within_iff p d).1 (hd, (q, e)))
listable_of_OneLine p d hp hd (inr (inr (q, e))) = ground (arith, (within_iff d p).1 (hp, (q, e)))

listable_ancestor :
    (f d p : Text)
    → within f d ≡ true
    → (f == p || within f p) ≡ true
    → (d == p || within d p || within p d) ≡ true
listable_ancestor f d p h k = elim (Bool-cases (f == p)) [
  | inl same ↦ ground (arith, h, beq-eq f p same)
  | inr other ↦
      let (hd, s) = Inside-of_within f d h in
      let (hp, t) = Inside-of_within f p (rw other at k) in
      listable_of_OneLine p d hp hd (OneLine-of_ancestors p d t.0 s.0 (sym t.1 ∙ s.1))
]

-- Every folder above a readable file can be listed: the grantee can walk down to it.
pub can_read_file-can_list :
    (paths : List Text) (f d : Text)
    → can_read_file paths f ≡ true
    → within f d ≡ true
    → can_list paths d ≡ true
unfolding can_read_file can_list
can_read_file-can_list [] f d h k = refl
can_read_file-can_list (p ∷ ps) f d h k = ground (
  arith,
  any_mono (λ q. f == q || within f q) (λ q. d == q || within d q || within q d)
      (λ q. listable_ancestor f d q k) (p ∷ ps) h,
)

can_read_file_of_any :
    (ps : List Text) (f : Text)
    → any (λ r. f == r || within f r) ps ≡ true
    → can_read_file ps f ≡ true
unfolding can_read_file
can_read_file_of_any ps f h = ground (arith, h)

-- A readable file is granted itself, or lies inside something granted.
pub can_read_file_iff :
    (paths : List Text) (f : Text)
    → (can_read_file paths f ≡ true)
      ↔ ((paths ≡ []) ⊎ ((p : Text) × Elem p paths × ((f ≡ p) ⊎ Inside f p)))
unfolding can_read_file
can_read_file_iff paths f = (only paths, back paths)
  where
    covered : (p : Text) → (f == p || within f p) ≡ true → (f ≡ p) ⊎ Inside f p
    covered p h = elim (Bool-cases (f == p)) [
      | inl same ↦ inl (beq-eq f p same)
      | inr other ↦ inr (Inside-of_within f p (rw other at h))
    ]

    covers : (p : Text) → (f ≡ p) ⊎ Inside f p → (f == p || within f p) ≡ true
    covers p (inl e) = rw (e, beq_refl p)
    covers p (inr i) = ground (arith, (within_iff f p).1 i)

    only :
        (ps : List Text)
        → can_read_file ps f ≡ true
        → (ps ≡ []) ⊎ ((p : Text) × Elem p ps × ((f ≡ p) ⊎ Inside f p))
    only [] h = inl refl
    only (q ∷ qs) h =
        let (p, m, e) = any-Elem (λ r. f == r || within f r) (q ∷ qs) h in inr (p, m, covered p e)

    back :
        (ps : List Text)
        → (ps ≡ []) ⊎ ((p : Text) × Elem p ps × ((f ≡ p) ⊎ Inside f p))
        → can_read_file ps f ≡ true
    back ps (inl e) = rw (e, can_read_file)
    back ps (inr (p, m, c)) = ground (
      arith,
      can_read_file_of_any ps f,
      any_of_Elem (λ r. f == r || within f r) ps p m (covers p c),
    )

-- What a filtered listing shows of a scoped grant is what may be opened: a file entry just if the
-- file can be downloaded, a folder entry just if the folder can be listed.
pub entry_visible_lem :
    (paths : List Text) (path : Text)
    → paths ≢ []
    → path ≢ []
    → (entry_visible paths path file ≡ can_read_file paths path)
      × (entry_visible paths path dir ≡ can_list paths path)
unfolding entry_visible can_read_file can_list
entry_visible_lem [] path h k = absurd (h refl)
entry_visible_lem (p ∷ ps) [] h k = absurd (k refl)
entry_visible_lem (p ∷ ps) (c ∷ path) h k = (any-congr _ _ (λ q. ground arith) (p ∷ ps), refl)
