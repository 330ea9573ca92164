-- ===== src/GrantAdmin.antt =====
-- The owner's changes to the grants, `revoke_grant` and `update_grant` of
-- crates/doclinkd/src/admin.rs. A Boolean says whether the store's file can be written; `GrantInfo` has
-- the fields of `Grant`.
pub mod Laws
use doc_link.Protocol.{HttpError, http_error, lit}
use doc_link.Store.{Store, Grant, GrantsFile, save}
use doc_link.Base.Results.{Result, ok, err}
use doc_link.Base.{if◌then◌else◌, ◌==◌, Text, length, retain, find, Bool, not, ◌&&◌, Option}
use doc_link.Base.{none, some, List, [], ◌∷◌, text_eq, nat_eq}

-- `save` mapped to a response.
unfoldable pub saved {ℓ} :
    {A : Type ℓ} → Bool → Store GrantsFile → Text → A → Store GrantsFile × Result HttpError A
saved writable s reason a =
    let (stored, written) = save writable s in
    (stored, (if written then ok a else err (http_error 500 reason)))

-- `revoke_grant`; the reason is the text of a failed write.
unfoldable pub revoke_grant :
    Store GrantsFile → Text → Bool → Text → Store GrantsFile × Result HttpError (Unit {0})
revoke_grant s fingerprint writable reason =
    let left : Store GrantsFile = record s {
      content = retain (λ x. not (x.fingerprint == fingerprint)) s.content;
    } in
    if length left.content == length s.content
    then (left, err (http_error 404 (lit "unknown grant")))
    else saved writable left reason tt

abbrev pub or_else {ℓ} : {A : Type ℓ} → A → Option A → A
or_else a none = a
or_else a (some b) = b

-- The fields that `update_grant` writes.
unfoldable pub updated : List Text → Option Bool → Option Bool → Grant → Grant
updated paths allow_files allow_print g = record g {
  paths = paths;
  allow_files = or_else g.allow_files allow_files;
  allow_print = or_else g.allow_print allow_print;
}

-- `iter_mut().find(…)`: the first grant of the fingerprint is changed in place.
unfoldable pub update_first : Text → (Grant → Grant) → GrantsFile → GrantsFile
update_first fp f [] = []
update_first fp f (g ∷ gs) =
    let rest = update_first fp f gs in if g.fingerprint == fp then f g ∷ gs else g ∷ rest

-- `update_grant`
unfoldable pub update_grant :
    Store GrantsFile
    → Text
    → List Text
    → Option Bool
    → Option Bool
    → Bool
    → Text
    → Store GrantsFile × Result HttpError Grant
update_grant s fingerprint paths allow_files allow_print writable reason =
    elim (find (λ x. x.fingerprint == fingerprint) s.content) [
      | none ↦ (s, err (http_error 404 (lit "unknown grant")))
      | some g ↦
          let changed : Store GrantsFile = record s {
            content = update_first fingerprint (updated paths allow_files allow_print) s.content;
          } in
          let after = updated paths allow_files allow_print g in
          if not after.allow_files && not after.allow_print
          then (changed, err (http_error 400 (lit "grant must allow at least files or printing")))
          else saved writable changed reason after
    ]
