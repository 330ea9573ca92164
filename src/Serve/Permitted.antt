-- ===== src/Serve/Permitted.antt =====
-- What the handlers of crates/doclinkd/src/server.rs give away, and to whom.
use doc_link.Protocol.{lit}
use doc_link.Identity.{Crypto}
use doc_link.State.{AppState}
use doc_link.Store.{Grant}
use doc_link.Scope.{DirEntry, can_list, can_read_file, entry_visible}
use doc_link.Range.{ParsedRange, full, unsatisfiable, partial, parse_range}
use doc_link.Range.Laws.{IsServable, parse_range-IsServable}
use doc_link.Auth.{require_auth}
use doc_link.Serve.{Share, shown, list_for, sent_part, sent_range, file_for, list, download}
use doc_link.Base.Map.{Map, lookup}
use doc_link.Base.Results.{ok, Result-cases}
use doc_link.Base.{Text, All, All-retain_test, ℕ, ◌+◌, ◌≤◌, ◌≡◌, Bool, true, Option, List}
use doc_link.Base.{[], ◌∷◌, text_eq, nat_eq}
use doc_link.Base.{Bool-cases, ◌==◌, ◌-◌, refl, subst, inl, inr, ◌++◌, arith}

-- Every entry that a listing shows can be seen with the paths.
pub IsShown : List Text → List DirEntry → Type 0
IsShown [] entries = Unit
IsShown (p ∷ ps) entries = All (λ e. entry_visible (p ∷ ps) e.path e.kind ≡ true) entries

shown-IsShown : (paths : List Text) (entries : List DirEntry) → IsShown paths (shown paths entries)
unfolding shown IsShown
shown-IsShown [] entries = tt
shown-IsShown (p ∷ ps) entries = All-retain_test (λ e. entry_visible (p ∷ ps) e.path e.kind) entries

sent_part-fits :
    (r : ParsedRange) (total first count : ℕ) (part : Bool)
    → IsServable total r
    → sent_part r total ≡ ok (first, count, part)
    → first + count ≤ total
unfolding sent_part
sent_part-fits full total first count part v h =
    let e1 : 0 ≡ first = cc in let e2 : total ≡ count = cc in omega (arith, e1, e2)
sent_part-fits unsatisfiable total first count part v h = absurd (cc)
sent_part-fits (partial a b) total first count part (ab, inside) h =
    let e1 : a ≡ first = cc in let e2 : b - a + 1 ≡ count = cc in omega (arith, e1, e2, ab, inside)

sent_range-fits :
    (hdr : Option Text) (total first count : ℕ) (part : Bool)
    → sent_range hdr total ≡ ok (first, count, part)
    → first + count ≤ total
unfolding sent_range
sent_range-fits hdr total first count part = elim (Bool-cases (total == 0)) [
  | inl e ↦ rw e λ h. let e1 : 0 ≡ first = cc in let e2 : 0 ≡ count = cc in omega (arith, e1, e2)
  | inr e ↦ rw e λ h.
      sent_part-fits (parse_range hdr total) total first count part
        (parse_range-IsServable hdr total) h
]

list_for-permitted :
    (share : Share) (g : Grant) (path : Text) (entries : List DirEntry)
    → list_for share g path ≡ ok entries
    → (g.allow_files ≡ true) × (can_list g.paths path ≡ true) × IsShown g.paths entries
unfolding list_for
list_for-permitted share g path entries = elim (Bool-cases g.allow_files) [
  | inr e ↦ rw e λ h. absurd (cc)
  | inl e ↦ rw e elim (Bool-cases (can_list g.paths path)) [
    | inr e2 ↦ rw e2 λ h. absurd (cc)
    | inl e2 ↦ rw e2 elim (Result-cases (share.list_dir path)) [
      | inr (x, e3) ↦ rw e3 λ h. absurd (cc)
      | inl (es, e3) ↦ rw e3 λ h.
          let same : shown g.paths es ≡ entries = cc in
          (refl, refl, subst (IsShown g.paths) same (shown-IsShown g.paths es))
    ]
  ]
]

file_for-permitted :
    (share : Share) (g : Grant) (path : Text) (range : Option Text) (first count : ℕ) (part : Bool)
    → file_for share g path range ≡ ok (first, count, part)
    → (g.allow_files ≡ true)
      × (can_read_file g.paths path ≡ true)
      × ((total : ℕ) × (share.file_length path ≡ ok total) × (first + count ≤ total))
unfolding file_for
file_for-permitted share g path range first count part = elim (Bool-cases g.allow_files) [
  | inr e ↦ rw e λ h. absurd (cc)
  | inl e ↦ rw e elim (Bool-cases (can_read_file g.paths path)) [
    | inr e2 ↦ rw e2 λ h. absurd (cc)
    | inl e2 ↦ rw e2 elim (Result-cases (share.file_length path)) [
      | inr (x, e3) ↦ rw e3 λ h. absurd (cc)
      | inl (total, e3) ↦
          rw e3 λ h. (refl, refl, (total, refl, sent_range-fits range total first count part h))
    ]
  ]
]

module _ (C : Crypto) (share : Share) (headers : Map Text Text) (s : AppState)
    (now_ts now_seen now : ℕ) (path : Text) where
  -- A listing is given only to a caller that `require_auth` accepts for exactly this path, whose
  -- grant allows files and whose scope allows to list the folder, and every entry of it is visible
  -- in that scope.
  pub list-permitted :
      (entries : List DirEntry)
      → (list C share headers s now_ts now_seen now path).1 ≡ ok entries
      → (g : Grant) × ((require_auth C headers
            (lit "GET")
            (lit "/v1/list?path=" ++ share.encode path)
            []
            s
            now_ts
            now_seen
            now).1
          ≡ ok g)
        × (g.allow_files ≡ true)
        × (can_list g.paths path ≡ true)
        × IsShown g.paths entries
  unfolding list
  list-permitted entries =
      elim (Result-cases
        (require_auth C headers (lit "GET") (lit "/v1/list?path=" ++ share.encode path) [] s now_ts
          now_seen now).1) [
            | inr (x, e) ↦ rw e λ h. absurd (cc)
            | inl (g, e) ↦
                rw e λ h.
                  let (a, b, c) = list_for-permitted share g path entries h in (g, refl, a, b, c)
          ]

  -- Bytes of a file are sent only to a caller that `require_auth` accepts for exactly this path,
  -- whose grant allows files and whose scope allows to read the file, and they lie inside the file.
  pub download-permitted :
      (first count : ℕ) (part : Bool)
      → (download C share headers s now_ts now_seen now path).1 ≡ ok (first, count, part)
      → (g : Grant) × ((require_auth C headers
            (lit "GET")
            (lit "/v1/file?path=" ++ share.encode path)
            []
            s
            now_ts
            now_seen
            now).1
          ≡ ok g)
        × (g.allow_files ≡ true)
        × (can_read_file g.paths path ≡ true)
        × ((total : ℕ) × (share.file_length path ≡ ok total) × (first + count ≤ total))
  unfolding download
  download-permitted first count part =
      elim (Result-cases
        (require_auth C headers (lit "GET") (lit "/v1/file?path=" ++ share.encode path) [] s now_ts
          now_seen now).1) [
            | inr (x, e) ↦ rw e λ h. absurd (cc)
            | inl (g, e) ↦ rw e λ h.
                let (a, b, c) =
                  file_for-permitted share g path (lookup (lit "range") headers) first count part
                    h in
                (g, refl, a, b, c)
          ]
