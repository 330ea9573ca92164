-- ===== src/ShareItem.antt =====
-- Sharing one item with a chosen set of grants, `share_item` of crates/doclinkd/src/admin.rs. The
-- listings of the share root are a parameter.
pub mod Fetched
pub mod Wanted
use doc_link.Scope.{DirEntry, slash, within}
use doc_link.Store.{Grant, GrantsFile}
use doc_link.Subtract.{Outcome, out_of_fuel, nothing, kept, subtract_from_scope}
use doc_link.Base.Map.{Map, lookup, insert}
use doc_link.Base.Strings.{is_empty}
use doc_link.Base.{if◌then◌else◌, ◌==◌, Text, length, retain, any, there, ◌+◌, Bool, true}
use doc_link.Base.{false, not, ◌&&◌, ◌||◌, Option, none, some, List, [], ◌∷◌, ◌++◌, map}
use doc_link.Base.{text_eq, nat_eq}

-- The path is granted, or lies in something granted.
unfoldable pub is_covered : Text → List Text → Bool
is_covered path paths = any (λ p. path == p || within path p) paths

unfoldable pub wants : List Text → Grant → Bool
wants fingerprints g = any (λ f. f == g.fingerprint) fingerprints

-- Phase 1: some grant that is not wanted covers the item.
unfoldable pub covers_any : Text → List Text → GrantsFile → Bool
covers_any path fingerprints gs =
    any (λ g. not (wants fingerprints g) && (is_empty g.paths || is_covered path g.paths)) gs

-- The folders above a path, below the root: what stands before each slash that something follows.
unfoldable pub folders_above : Text → Text → List Text
folders_above before [] = []
folders_above before (c ∷ s) =
    let rest = folders_above (before ++ (c ∷ [])) s in
    if c == slash && not (is_empty s) then before ∷ rest else rest

-- The entries of a listing beside the removed branch; none if there is no listing.
unfoldable pub kids : Text → Option (List DirEntry) → List Text
kids path none = []
kids path (some entries) =
    map (λ e. e.path) (retain (λ e. not (e.path == path || within e.path path)) entries)

unfoldable pub fetch_all : (Text → Option (List DirEntry)) → Text → List Text → Map Text (List Text)
fetch_all list path [] = []
fetch_all list path (d ∷ ds) = insert d (kids path (list d)) (fetch_all list path ds)

-- Phase 2: what is fetched.
unfoldable pub fetched :
    (Text → Option (List DirEntry)) → Text → List Text → GrantsFile → Map Text (List Text)
fetched list path fingerprints gs =
    if covers_any path fingerprints gs then fetch_all list path ([] ∷ folders_above [] path) else []

-- The scope that a subtraction leaves.
unfoldable pub next_scope : List Text → Outcome → List Text
next_scope paths out_of_fuel = paths
next_scope paths nothing = paths
next_scope paths (kept next) = next

-- Phase 3, for the scope of one grant.
unfoldable pub rescope : Map Text (List Text) → Text → Bool → List Text → List Text
rescope listing path true paths =
    if not (is_empty paths) && not (is_covered path paths) then paths ++ (path ∷ []) else paths
rescope listing path false paths =
    next_scope paths (subtract_from_scope (λ d. lookup d listing) path (length path + 1) paths)

-- Phase 3: the grants afterwards.
unfoldable pub share_item :
    (Text → Option (List DirEntry)) → Text → List Text → GrantsFile → GrantsFile
share_item list path fingerprints gs =
    let listing = fetched list path fingerprints gs in
    map {A = Grant} {B = Grant}
      (λ g. record g { paths = rescope listing path (wants fingerprints g) g.paths }) gs
