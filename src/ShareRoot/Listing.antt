-- ===== src/ShareRoot/Listing.antt =====
-- What a listing of the share holds: `list` of crates/doclinkd/src/share.rs.
use doc_link.Scope.{DirEntry, within, slash}
use doc_link.Serve.{ShareError}
use doc_link.ShareRoot.{
  RealPath, DirItem, FileSystem, dir_entry, collect, resolve, listed_before, list,
}
use doc_link.Base.Sort.{sort_by}
use doc_link.Base.Results.{Result, ok, err, Result-cases}
use doc_link.Base.{Text, ◌≡◌, refl, inl, inr, true, false, List, [], ◌∷◌, map, arith}
use doc_link.Base.{ap, ◌∙◌, subst}
use doc_link.Base.{length, get_elem?, All, length-append, Elem, here, there, ℕ, ◌<◌, sym}
use doc_link.Base.{◌≢◌, Option, none, some, ◌++◌}
use doc_link.Base.Sort.{sort_by-All}
use doc_link.ShareRoot.{entry_path, is_empty}
use doc_link.Subtract.Total.{IsListing}
use doc_link.Base.Strings.{starts_with-append}

-- The items of a directory that were all read.
abbrev pub all_ok {ℓ} : {A : Type ℓ} → List A → List (Result ShareError A)
all_ok [] = []
all_ok (a ∷ items) = ok a ∷ all_ok items

-- A listing is made of the items, each read without an error.
collect-ok :
    (rel : Text) (items : List (Result ShareError DirItem)) (es : List DirEntry)
    → collect rel items ≡ ok es
    → (found : List DirItem) × (items ≡ all_ok found) × (es ≡ map (dir_entry rel) found)
unfolding collect
collect-ok rel [] es = λ h. ([], refl, cc)
collect-ok rel (err x ∷ items) es = λ h. absurd (cc)
collect-ok rel (ok item ∷ items) es = elim (Result-cases (collect rel items)) [
  | inr (x, r) ↦ rw r λ h. absurd (cc)
  | inl (rest, r) ↦ rw r λ h.
      let (found, e, k) = collect-ok rel items rest r in
      (
        item ∷ found,
        rw e refl,
        (let first : es ≡ dir_entry rel item ∷ rest = cc in rw (first, k) refl),
      )
]

-- The paths of a listing, as the narrowing of a scope reads them.
abbrev pub listed_paths : {F : Type 0} → FileSystem F → RealPath → F → Text → Option (List Text)
listed_paths fs root s d = elim (list fs root s d) [
  | ok es ↦ some (map (λ e. e.path) es)
  | err x ↦ none
]

-- Every item of a directory has a name.
abbrev pub IsNamed : {F : Type 0} → FileSystem F → F → Type 0
IsNamed fs s =
    (p : RealPath) (found : List DirItem)
    → fs.read_dir s p ≡ ok (all_ok found)
    → All (λ item. is_empty item.name ≡ false) found

abbrev IsBelow : Text → Text → Type 0
IsBelow d k = (length d < length k) × (d ≢ [] → within k d ≡ true)

get_elem-append : (d s : Text) (c : ℕ) → get_elem? (d ++ (c ∷ s)) (length d) ≡ some c
get_elem-append [] s c = refl
get_elem-append (x ∷ d) s c = get_elem-append d s c

entry_path-IsBelow : (d name : Text) → is_empty name ≡ false → IsBelow d (entry_path d name)
unfolding entry_path within
entry_path-IsBelow [] [] h = absurd (cc)
entry_path-IsBelow [] (c ∷ s) h = (ground arith, λ ne. absurd (ne refl))
entry_path-IsBelow (c ∷ d) name h = (
  ground (arith, length-append d (slash ∷ name)),
  λ ne.
      rw
        (
          get_elem-append d name slash,
          starts_with-append (c ∷ d) (slash ∷ name),
          length-append d (slash ∷ name),
        )
        (ground arith),
)

entries-IsBelow :
    (d : Text) (found : List DirItem)
    → All (λ item. is_empty item.name ≡ false) found
    → All (λ e. IsBelow d e.path) (map (dir_entry d) found)
unfolding dir_entry
entries-IsBelow d [] h = tt
entries-IsBelow d (item ∷ found) (hi, h) =
    (entry_path-IsBelow d item.name hi, entries-IsBelow d found h)

paths-IsBelow :
    (d k : Text) (es : List DirEntry)
    → All (λ e. IsBelow d e.path) es
    → Elem k (map (λ e. e.path) es)
    → IsBelow d k
paths-IsBelow d k [] h m = elim m [ ]
paths-IsBelow d k (e ∷ es) h (here same) = subst (IsBelow d) (sym same) h.0
paths-IsBelow d k (e ∷ es) h (there m) = paths-IsBelow d k es h.1 m

list-IsBelow :
    {F : Type 0} (fs : FileSystem F) (root : RealPath) (s : F)
    → IsNamed fs s
    → (d : Text) (es : List DirEntry) → list fs root s d ≡ ok es
    → All (λ e. IsBelow d e.path) es
unfolding list
list-IsBelow fs root s named d es = elim (Result-cases (resolve fs root s d)) [
  | inr (x, r) ↦ rw r λ h. absurd (cc)
  | inl (real, r) ↦ elim (Result-cases (fs.read_dir s real)) [
    | inr (x, i) ↦ rw (r, i) λ h. absurd (cc)
    | inl (items, i) ↦ elim (Result-cases (collect d items)) [
      | inr (x, c) ↦ rw (r, i, c) λ h. absurd (cc)
      | inl (entries, c) ↦
          rw (r, i, c)
            λ h.
              let (found, e, k) = collect-ok d items entries c in
              let sorted : es ≡ sort_by (listed_before fs root) entries = cc in
              let below = entries-IsBelow d found (named real found (i ∙ ap ok e)) in
              rw sorted (
                sort_by-All (listed_before fs root) (λ e. IsBelow d e.path) entries
                  (subst (All (λ e. IsBelow d e.path)) (sym k) below))
    ]
  ]
]

-- The listings of the share root are what the narrowing of a scope asks of a listing, if every
-- item of a directory has a name.
pub listed_paths-IsListing :
    {F : Type 0} (fs : FileSystem F) (root : RealPath) (s : F)
    → IsNamed fs s
    → IsListing (listed_paths fs root s)
listed_paths-IsListing fs root s named d k ks = elim (Result-cases (list fs root s d)) [
  | inr (x, r) ↦ rw (r, listed_paths) λ h. absurd (cc)
  | inl (es, r) ↦
      rw (r, listed_paths)
        λ h m.
          let same : ks ≡ map (λ e. e.path) es = cc in
          paths-IsBelow d k es (list-IsBelow fs root s named d es r) (rw same at m)
]
