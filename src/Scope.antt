-- ===== src/Scope.antt =====
-- Grant path scoping: crates/doclinkd/src/server.rs (`within`, `can_list`, `can_read_file`,
-- `entry_visible`) and crates/doclink-core/src/protocol.rs (`EntryKind`, `DirEntry`). Paths are
-- relative to the share root and separated by slashes.
pub mod Laws
use doc_link.Base.{ℕ, Text, Bool, true, false, not, ◌&&◌, ◌||◌, List, [], ◌∷◌, Option, none, some}
use doc_link.Base.{get_elem?, length, any, ltb, ◌==◌, text_eq, nat_eq}
use doc_link.Base.Strings.{is_empty, starts_with}

pub data EntryKind : Type 0 where
  file dir : EntryKind

abbrev pub is_dir : EntryKind → Bool
is_dir file = false
is_dir dir = true

pub record DirEntry : Type 0 where
  pub name : Text
  pub path : Text
  pub kind : EntryKind
  pub size : ℕ
  pub modified_unix : Option ℕ

abbrev pub slash : ℕ
slash = b'/'

-- `path.as_bytes()[i] == b'/'`
abbrev slash_at : Option ℕ → Bool
slash_at none = false
slash_at (some c) = c == slash

-- True if `path` lies strictly inside `ancestor`. Where `ancestor` is a prefix, its length in bytes
-- and its length in characters name the same place of `path`.
unfoldable pub within : Text → Text → Bool
within path ancestor =
    not (is_empty ancestor)
    && ltb (length ancestor) (length path)
    && starts_with path ancestor
    && slash_at (get_elem? path (length ancestor))

unfoldable pub can_list : List Text → Text → Bool
can_list paths d =
    is_empty paths || is_empty d || any (λ p. d == p || within d p || within p d) paths

unfoldable pub can_read_file : List Text → Text → Bool
can_read_file paths f = is_empty paths || any (λ p. f == p || within f p) paths

unfoldable pub entry_visible : List Text → Text → EntryKind → Bool
entry_visible paths path kind =
    any (λ p. path == p || within path p || (is_dir kind && within p path)) paths
