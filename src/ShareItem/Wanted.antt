-- ===== src/ShareItem/Wanted.antt =====
-- What sharing an item does to the scopes of the grants (crates/doclinkd/src/admin.rs).
use doc_link.Store.{Grant}
use doc_link.Base.Map.{Map, lookup}
use doc_link.Base.Strings.{has_char}
use doc_link.Base.{Text, ◌≡◌, false, List, []}
use doc_link.Base.{text_eq, nat_eq}
use doc_link.Base.{Option}

module _ (listing : Map Text (List Text)) (path : Text) (no_nul : has_char 0 path ≡ false) where
  abbrev children : Text → Option (List Text)
  children d = lookup d listing

abbrev pub without_scope : Grant → Grant
without_scope g = record g { paths = [] }
