-- ===== src/Inbox.antt =====
-- The drop folder of crates/doclinkd/src/inbox.rs. A folder is a map from names to what stands
-- there; names are compared exactly. What a call of the operating system answers is the record Disk.
pub mod Owner
pub mod Endpoints
pub mod Names
pub mod Allowed
pub mod Stored
pub mod Upload
pub mod Review
pub mod Listed
use doc_link.ShareRoot.{Component, normal, components}
use doc_link.Base.Map.{Map, lookup, insert, remove}
use doc_link.Base.Strings.{codes, is_empty, has_char, starts_with, ends_with, trim, rsplit_once}
use doc_link.Base.Decimal.{to_decimal}
use doc_link.Base.Results.{Result, ok, err, guard, ◌>>◌}
use doc_link.Base.{if◌then◌else◌, ◌==◌, Text, length, zero, suc, ◌+◌, true}
use doc_link.Base.{false, not, ◌&&◌, none, some, [], ◌∷◌, ◌++◌, text_eq, nat_eq}
use doc_link.Base.{Bool, List, Option, ℕ}
use doc_link.Base.{here, there, map}

-- `SIDECAR_SUFFIX`
abbrev pub sidecar_suffix : Text
sidecar_suffix = codes ".doclink.json"

-- `InboxError`
pub data InboxError : Type 0 where
  invalid_name not_found io : InboxError

-- `InboxMeta`
pub record InboxMeta : Type 0 where
  pub from : Option Text
  pub from_node_id : Option Text
  pub received_unix : Option ℕ

-- A file with its bytes and time, a folder, or a link: whether it leads to something, and the bytes
-- that are read through it.
pub data Node : Type 0 where
  regular : List ℕ → Option ℕ → Node
  folder : Node
  link : Bool → Option (List ℕ) → Node

abbrev pub Folder : Type 0
Folder = Map Text Node

abbrev pub reserved : Text
reserved = codes "/\\:*?\"<>|" ++ (0 ∷ [])

abbrev pub is_normal : Component → Bool
is_normal (normal s) = true
is_normal c = false

unfoldable pub all {ℓ} : {A : Type ℓ} → (A → Bool) → List A → Bool
all p [] = true
all p (x ∷ xs) = p x && all p xs

-- `valid_name`
unfoldable pub valid_name : Bool → Text → Bool
unfolding starts_with ends_with all
valid_name windows name =
    not (is_empty name)
    && not (starts_with name (b'.' ∷ []))
    && not (ends_with name (b'.' ∷ []))
    && name == trim name
    && not (ends_with name sidecar_suffix)
    && all (λ c. not (has_char c reserved)) name
    && all is_normal (components windows name)

-- `Path::exists`, which follows links.
abbrev pub is_present : Option Node → Bool
is_present none = false
is_present (some (link leads bytes)) = leads
is_present (some node) = true

unfoldable pub exists : Folder → Text → Bool
exists d name = is_present (lookup name d)

-- `name (n)`, with the extension behind it.
unfoldable pub candidate : Text → ℕ → Text
candidate name n = elim (rsplit_once b'.' name) [
  | none ↦ name ++ (codes " (" ++ (to_decimal n ++ codes ")"))
  | some (stem, ext) ↦
      if is_empty stem
      then name ++ (codes " (" ++ (to_decimal n ++ codes ")"))
      else stem ++ (codes " (" ++ (to_decimal n ++ (codes ")." ++ ext)))
]

-- `for n in 1..`, on fuel.
unfoldable pub first_free : ℕ → ℕ → (ℕ → Text) → Folder → Option Text
first_free zero n f d = none
first_free (suc fuel) n f d =
    let rest = first_free fuel (n + 1) f d in if exists d (f n) then rest else some (f n)

-- `dedupe_in_dir`
unfoldable pub dedupe_in_dir : ℕ → Folder → Text → Option Text
dedupe_in_dir fuel d name =
    if exists d name then first_free fuel 1 (candidate name) d else some name

-- A write that fails may leave a part of the bytes.
pub data Written : Type 0 where
  whole : Written
  torn : Option (List ℕ) → Written

pub data Renamed : Type 0 where
  moved cross_device refused : Renamed

-- The calls of the operating system and of serde_json.
pub record Disk : Type 0 where
  pub windows : Bool
  pub now : Option ℕ
  pub write : Text → Written
  pub copy : Text → Written
  pub rename : Text → Text → Renamed
  pub remove_file : Text → Bool
  pub read_dir : Bool
  pub metadata : Text → Bool
  pub to_vec : InboxMeta → Option (List ℕ)
  pub from_slice : List ℕ → Option InboxMeta

-- What a write leaves under a name: it goes through a link.
abbrev pub overwritten : Option Node → List ℕ → Option ℕ → Node
overwritten (some (link leads old)) bytes time = link true (some bytes)
overwritten (some folder) bytes time = folder
overwritten none bytes time = regular bytes time
overwritten (some (regular old before)) bytes time = regular bytes time

abbrev pub is_folder : Option Node → Bool
is_folder (some folder) = true
is_folder _ = false

-- What a write leaves, and whether it went well.
unfoldable pub put_bytes : Written → Text → List ℕ → Option ℕ → Folder → Folder × Bool
put_bytes (torn none) name bytes time d = (d, false)
put_bytes (torn (some left)) name bytes time d =
    (insert name (overwritten (lookup name d) left time) d, false)
put_bytes whole name bytes time d =
    (insert name (overwritten (lookup name d) bytes time) d, not (is_folder (lookup name d)))

-- `tokio::fs::write`
unfoldable pub write : Disk → Text → List ℕ → Folder → Folder × Bool
unfolding put_bytes
write disk name bytes d = put_bytes (disk.write name) name bytes disk.now d

unfoldable pub sidecar_path : Text → Text
sidecar_path name = name ++ sidecar_suffix

unfoldable pub part_path : Text → Text
part_path name = (b'.' ∷ name) ++ codes ".part"

-- A node under a new name, whatever stood there.
unfoldable pub move_to : Text → Text → Folder → Folder
move_to old new d = elim (lookup old d) [ none ↦ d | some node ↦ insert new node (remove old d) ]

-- `tokio::fs::rename` inside a folder.
unfoldable pub rename_within : Renamed → Text → Text → Folder → Folder × Bool
unfolding move_to
rename_within moved old new d = (move_to old new d, true)
rename_within cross_device old new d = (d, false)
rename_within refused old new d = (d, false)

-- `InboxRoot::resolve`
unfoldable pub resolve : Disk → Folder → Text → Result InboxError (List ℕ)
resolve disk d name = do
  guard (valid_name disk.windows name) invalid_name
  elim (lookup name d) [
    | some (regular bytes time) ↦ if disk.metadata name then ok bytes else err not_found
    | some folder ↦ err not_found
    | some (link leads bytes) ↦ err not_found
    | none ↦ err not_found
  ]

-- The sidecar of a file that is in its place; what goes wrong here is an error of the upload.
unfoldable pub write_sidecar : Disk → Text → Option (List ℕ) → Folder → Folder × Bool
unfolding write sidecar_path
write_sidecar disk stored none d = (d, true)
write_sidecar disk stored (some raw) d = write disk (sidecar_path stored) raw d

-- The next call, unless the last one went wrong.
abbrev pub then_in : {A : Type 0} → A × Bool → (A → A × Bool) → A × Bool
then_in (d, true) f = f d
then_in (d, false) f = (d, false)

-- The upload of a file under the name found for it.
unfoldable pub write_stored : Disk → Text → List ℕ → InboxMeta → Folder → Folder × Bool
unfolding write write_sidecar rename_within part_path
write_stored disk stored bytes meta d = then_in (write disk (part_path stored) bytes d) λ written.
    then_in
      (rename_within (disk.rename (part_path stored) stored) (part_path stored) stored written)
      λ placed. write_sidecar disk stored (disk.to_vec meta) placed

abbrev pub answer : Text → Folder × Bool → Folder × Result InboxError Text
answer stored (d, true) = (d, ok stored)
answer stored (d, false) = (d, err io)

-- `InboxRoot::write_file`; `none` is a search for a name that did not end.
unfoldable pub write_file :
    Disk → Folder → Text → List ℕ → InboxMeta → Option (Folder × Result InboxError Text)
unfolding valid_name dedupe_in_dir write_stored
write_file disk d name bytes meta =
    if not (valid_name disk.windows (trim name))
    then some (d, err invalid_name)
    else elim (dedupe_in_dir (length d + 1) d (trim name)) [
      | none ↦ none
      | some stored ↦ some (answer stored (write_stored disk stored bytes meta d))
    ]
