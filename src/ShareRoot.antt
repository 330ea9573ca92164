-- ===== src/ShareRoot.antt =====
-- The published folder, crates/doclinkd/src/share.rs. A real path is the list of its names; what
-- the file system answers is the record FileSystem, over any type of its states.
pub mod Inside
pub mod Refused
pub mod Listing
use doc_link.Scope.{DirEntry, EntryKind, file, dir, slash}
use doc_link.Serve.{ShareError, not_found, outside_root, is_root}
use doc_link.Base.Strings.{is_empty, has_char, split}
use doc_link.Base.Sort.{sort_by, text_le}
use doc_link.Base.Results.{Result, ok, guard, or_err, ◌>>=◌, ◌>>◌}
use doc_link.Base.{if◌then◌else◌, ◌==◌, any, ℕ, Bool, true, false, not, ◌&&◌, ◌||◌, Option}
use doc_link.Base.{none, some, List, [], ◌∷◌, ◌++◌, text_eq, nat_eq, Text}

-- `std::path::Component`
pub data Component : Type 0 where
  prefix root_dir cur_dir parent_dir : Component
  normal : Text → Component

abbrev pub backslash : ℕ
backslash = 92

abbrev pub is_separator : Bool → ℕ → Bool
is_separator windows c = c == slash || (windows && c == backslash)

abbrev pub dot : Text
dot = b'.' ∷ []

abbrev pub dot_dot : Text
dot_dot = b'.' ∷ b'.' ∷ []

-- A part between separators: an empty one and a dot are skipped.
unfoldable pub part : Text → List Component
part s =
    if is_empty s || s == dot then [] else if s == dot_dot then parent_dir ∷ [] else normal s ∷ []

unfoldable pub parts : List Text → List Component
unfolding part
parts [] = []
parts (s ∷ ss) = part s ++ parts ss

-- A drive such as `C:`.
abbrev pub is_drive : Text → Bool
is_drive (c ∷ d ∷ s) = d == b':'
is_drive _ = false

-- What stands in front of the names: a root, a drive, a UNC prefix, or a leading dot.
unfoldable pub leading : Bool → Text → List Component
leading windows [] = []
leading windows (c ∷ []) =
    if is_separator windows c then root_dir ∷ [] else if c == b'.' then cur_dir ∷ [] else []
leading windows (c ∷ d ∷ s) =
    if is_separator windows c
    then (if windows && is_separator windows d then prefix ∷ root_dir ∷ [] else root_dir ∷ [])
    else if windows && is_drive (c ∷ d ∷ s)
    then prefix ∷ []
    else if c == b'.' && is_separator windows d
    then cur_dir ∷ []
    else []

-- `Path::new(rel).components()`
unfoldable pub components : Bool → Text → List Component
unfolding leading parts
components windows s = leading windows s ++ parts (split (is_separator windows) s)

-- `Path::is_absolute`, on the components: on Windows a prefix and a root are needed.
unfoldable pub has_root : Bool → List Component → Bool
has_root windows (root_dir ∷ cs) = not windows
has_root windows (prefix ∷ root_dir ∷ cs) = true
has_root windows _ = false

unfoldable pub is_absolute : Bool → Text → Bool
unfolding components has_root
is_absolute windows s = has_root windows (components windows s)

-- The components that `resolve` refuses.
abbrev pub is_hostile : Component → Bool
is_hostile parent_dir = true
is_hostile root_dir = true
is_hostile prefix = true
is_hostile cur_dir = false
is_hostile (normal s) = false

abbrev pub RealPath : Type 0
RealPath = List Text

-- `Path::starts_with`, by whole names.
unfoldable pub path_starts_with : RealPath → RealPath → Bool
path_starts_with p [] = true
path_starts_with [] (n ∷ ns) = false
path_starts_with (m ∷ p) (n ∷ ns) = m == n && path_starts_with p ns

-- `path == self.root`
unfoldable pub same_path : RealPath → RealPath → Bool
same_path [] [] = true
same_path [] (n ∷ ns) = false
same_path (m ∷ p) [] = false
same_path (m ∷ p) (n ∷ ns) = m == n && same_path p ns

-- One item of a directory, with its metadata.
pub record DirItem : Type 0 where
  pub name : Text
  pub is_directory : Bool
  pub size : ℕ
  pub modified_unix : Option ℕ

-- The calls of the operating system and of the library. `canonicalize` follows the components from
-- a real path; an item of a directory may fail on its own.
pub record FileSystem (F : Type 0) : Type 0 where
  pub windows : Bool
  pub canonicalize : F → RealPath → List Component → Option RealPath
  pub read_dir : F → RealPath → Result ShareError (List (Result ShareError DirItem))
  pub is_directory : F → RealPath → Result ShareError Bool
  pub remove_dir_all : F → RealPath → Result ShareError F
  pub remove_file : F → RealPath → Result ShareError F
  pub to_lowercase : Text → Text

-- `rel.contains(':') || is_absolute || components().any(..)`
unfoldable pub suspicious : Bool → Text → Bool
unfolding is_absolute components
suspicious windows rel =
    has_char b':' rel || is_absolute windows rel || any is_hostile (components windows rel)

-- The path of an entry, from the path that the client asked for.
unfoldable pub entry_path : Text → Text → Text
entry_path rel name = if is_empty rel then name else rel ++ (slash ∷ name)

unfoldable pub dir_entry : Text → DirItem → DirEntry
unfolding entry_path
dir_entry rel item = record {
  name = item.name;
  path = entry_path rel item.name;
  kind = if item.is_directory then dir else file;
  size = item.size;
  modified_unix = item.modified_unix;
}

abbrev is_file : EntryKind → Bool
is_file file = true
is_file dir = false

abbrev bool_lt : Bool → Bool → Bool
bool_lt a b = not a && b

-- The loop over the items; the first that fails ends it.
unfoldable pub collect : Text → List (Result ShareError DirItem) → Result ShareError (List DirEntry)
unfolding dir_entry
collect rel [] = ok []
collect rel (item ∷ items) = do
  found ← item
  rest ← collect rel items
  ok (dir_entry rel found ∷ rest)

module _ {F : Type 0} (fs : FileSystem F) (root : RealPath) where
  -- `ShareRoot::resolve`
  unfoldable pub resolve : F → Text → Result ShareError RealPath
  unfolding suspicious path_starts_with
  resolve s rel = do
    guard (not (suspicious fs.windows rel)) outside_root
    candidate ← or_err (fs.canonicalize s root (components fs.windows rel)) not_found
    guard (path_starts_with candidate root) outside_root
    ok candidate

  -- The order of a listing: folders first, then by the lowercase name.
  unfoldable pub listed_before : DirEntry → DirEntry → Bool
  unfolding text_le
  listed_before a b =
      bool_lt (is_file a.kind) (is_file b.kind)
      || (not (bool_lt (is_file b.kind) (is_file a.kind))
          && text_le (fs.to_lowercase a.name) (fs.to_lowercase b.name))

  -- `ShareRoot::list`
  unfoldable pub list : F → Text → Result ShareError (List DirEntry)
  unfolding resolve collect sort_by listed_before
  list s rel = do
    real ← resolve s rel
    items ← fs.read_dir s real
    entries ← collect rel items
    ok (sort_by listed_before entries)

  -- `ShareRoot::list_sync`, the blocking twin, which walks the directory by itself.
  unfoldable pub list_sync : F → Text → Result ShareError (List DirEntry)
  unfolding resolve collect sort_by listed_before
  list_sync s rel = do
    real ← resolve s rel
    items ← fs.read_dir s real
    entries ← collect rel items
    ok (sort_by listed_before entries)

  -- `ShareRoot::delete`
  unfoldable pub delete : F → Text → Result ShareError F
  unfolding resolve same_path
  delete s rel = do
    guard (not (is_empty rel)) is_root
    real ← resolve s rel
    guard (not (same_path real root)) is_root
    folder ← fs.is_directory s real
    if folder then fs.remove_dir_all s real else fs.remove_file s real
