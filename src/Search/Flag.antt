-- ===== src/Search/Flag.antt =====
-- The flag of a search response of crates/doclinkd/src/server.rs, and who may print.
use doc_link.Store.{Grant}
use doc_link.Serve.{Share, search_scope}
use doc_link.Search.{
  search_roots, direct_hits, FileMeta, SearchResponse, search_response, search_for,
}
use doc_link.Base.Results.{ok}
use doc_link.Base.{ltb, Bool-cases, Option-cases, Text, length, ℕ, ◌≡◌, refl, sym, ap, ◌∙◌}
use doc_link.Base.{inl, inr, Bool, true, false, some, List}
use doc_link.Search.{DirEntry, trim}

search_response-flag :
    (query : Text) (direct results : List DirEntry) (truncated : Bool)
    → (search_response query direct (results, truncated)).truncated ≡ false
unfolding search_response
search_response-flag query direct results true = refl
search_response-flag query direct results false = refl

-- The answer to a search never says that it is cut short, also when the walk ran out of its budget;
-- and it is given only to a grant that allows files.
pub search_for-never_truncated :
    (share : Share) (meta : FileMeta) (fuel : ℕ) (g : Grant) (raw : Text) (r : SearchResponse)
    → search_for share meta fuel g raw ≡ some (ok r)
    → (r.truncated ≡ false) × (g.allow_files ≡ true)
unfolding search_for
search_for-never_truncated share meta fuel g raw r = elim (Bool-cases g.allow_files) [
  | inr e ↦ rw e λ h. absurd (cc)
  | inl e ↦ rw e elim (Bool-cases (ltb (length (trim raw)) 2)) [
    | inl e2 ↦ rw e2 λ h. absurd (cc)
    | inr e2 ↦
        rw e2 elim (Option-cases (search_scope share fuel (search_roots g.paths) (trim raw))) [
          | inl e3 ↦ rw e3 λ h. absurd (cc)
          | inr ((results, truncated), e3) ↦ rw e3 λ h.
              let direct = direct_hits share meta (share.to_lowercase (trim raw)) g.paths in
              let same : search_response (trim raw) direct (results, truncated) ≡ r = cc in
              (
                ap (λ x. x.truncated) (sym same)
                    ∙ search_response-flag (trim raw) direct results truncated,
                refl,
              )
        ]
  ]
]
