-- ===== src/Inbox/Owner.antt =====
-- What the owner does with the drop folder: list, accept and remove of
-- crates/doclinkd/src/inbox.rs.
use doc_link.Inbox.{
  Disk, Folder, InboxError, InboxMeta, Node, regular, link, io, moved, cross_device, refused,
  sidecar_suffix, sidecar_path, part_path, resolve, dedupe_in_dir, then_in, Renamed, put_bytes,
  rename_within, folder,
}
use doc_link.Base.Map.{Map, lookup, insert, remove}
use doc_link.Base.Strings.{ends_with}
use doc_link.Base.Sort.{sort_by}
use doc_link.Base.Results.{Result, ok, err, guard, ◌>>=◌, ◌>>◌}
use doc_link.Base.{leb, if◌then◌else◌, Text, length, ℕ, ◌+◌, Bool, true, false, not, Option}
use doc_link.Base.{none, some, List, [], ◌∷◌, text_eq, nat_eq}

-- `InboxEntry`
pub record InboxEntry : Type 0 where
  pub name : Text
  pub size : ℕ
  pub modified_unix : ℕ
  pub from : Option Text
  pub from_node_id : Option Text
  pub received_unix : Option ℕ

abbrev pub default_meta : InboxMeta
default_meta = record { from = none; from_node_id = none; received_unix = none }

-- The bytes that `tokio::fs::read` gives.
abbrev pub readable : Option Node → Option (List ℕ)
readable (some (regular bytes time)) = some bytes
readable (some (link leads bytes)) = bytes
readable _ = none

abbrev parsed : Disk → Option (List ℕ) → InboxMeta
parsed disk none = default_meta
parsed disk (some raw) = elim (disk.from_slice raw) [ none ↦ default_meta | some meta ↦ meta ]

-- `InboxRoot::read_meta`
unfoldable pub read_meta : Disk → Folder → Text → InboxMeta
read_meta disk d name = parsed disk (readable (lookup (sidecar_path name) d))

unfoldable pub inbox_entry : Text → List ℕ → Option ℕ → InboxMeta → InboxEntry
inbox_entry name bytes time meta = record {
  name = name;
  size = length bytes;
  modified_unix = elim time [ none ↦ 0 | some t ↦ t ];
  from = meta.from;
  from_node_id = meta.from_node_id;
  received_unix = meta.received_unix;
}

-- The loop over the items of the folder. A sidecar is skipped before its metadata is read.
unfoldable pub entries : Disk → Folder → Map Text Node → Result InboxError (List InboxEntry)
unfolding read_meta inbox_entry
entries disk d [] = ok []
entries disk d ((name, node) ∷ items) =
    let rest = entries disk d items in
    if ends_with name sidecar_suffix
    then rest
    else if not (disk.metadata name)
    then err io
    else elim node [
      | regular bytes time ↦ do
        es ← rest
        ok (inbox_entry name bytes time (read_meta disk d name) ∷ es)
      | folder ↦ rest
      | link leads bytes ↦ rest
    ]

unfoldable pub sort_key : InboxEntry → ℕ
sort_key e = elim e.received_unix [ none ↦ e.modified_unix | some t ↦ t ]

-- Newest first.
unfoldable pub newer_first : InboxEntry → InboxEntry → Bool
newer_first a b = leb (sort_key b) (sort_key a)

-- `InboxRoot::list`
unfoldable pub list : Disk → Folder → Result InboxError (List InboxEntry)
unfolding entries newer_first sort_by
list disk d = do guard disk.read_dir io; found ← entries disk d d; ok (sort_by newer_first found)

-- The drop folder and the share's folder.
pub record Folders : Type 0 where
  pub inbox : Folder
  pub share : Folder

-- `let _ = remove_file(sidecar)`
unfoldable pub drop_sidecar : Disk → Text → Folder → Folder
unfolding sidecar_path
drop_sidecar disk name d =
    if disk.remove_file (sidecar_path name) then remove (sidecar_path name) d else d

-- Where a rename to the destination leads: the file leaves the drop folder.
unfoldable pub hand_over : Text → Text → Folders → Folders
hand_over name final s = elim (lookup name s.inbox) [
  | none ↦ s
  | some node ↦ record { inbox = remove name s.inbox; share = insert final node s.share }
]

-- `tokio::fs::copy` into the share's folder.
unfoldable pub copy_in : Disk → Text → List ℕ → Folders → Folders × Bool
unfolding put_bytes
copy_in disk target bytes s =
    let (share, fine) = put_bytes (disk.copy target) target bytes disk.now s.share in
    (record s { share = share }, fine)

-- The copy is put in its place.
unfoldable pub settle : Disk → Text → Folders → Folders × Bool
unfolding part_path rename_within
settle disk final s =
    let (share, fine) =
      rename_within (disk.rename (part_path final) final) (part_path final) final s.share in
    (record s { share = share }, fine)

-- `tokio::fs::remove_file` of the source.
unfoldable pub drop_source : Disk → Text → Folders → Folders × Bool
drop_source disk name s =
    if disk.remove_file name then (record s { inbox = remove name s.inbox }, true) else (s, false)

-- Across volumes: a copy beside the destination, a rename, and only then the source is removed.
unfoldable pub copy_across : Disk → Text → Text → List ℕ → Folders → Folders × Bool
unfolding copy_in settle drop_source part_path
copy_across disk name final bytes s =
    then_in (copy_in disk (part_path final) bytes s)
      λ copied. then_in (settle disk final copied) (drop_source disk name)

unfoldable pub transfer : Disk → Renamed → Text → Text → List ℕ → Folders → Folders × Bool
unfolding hand_over copy_across
transfer disk moved name final bytes s = (hand_over name final s, true)
transfer disk refused name final bytes s = (s, false)
transfer disk cross_device name final bytes s = copy_across disk name final bytes s

abbrev pub accepted : Disk → Text → Text → Folders × Bool → Folders × Result InboxError Text
accepted disk name final (s, true) = (record s { inbox = drop_sidecar disk name s.inbox }, ok final)
accepted disk name final (s, false) = (s, err io)

-- The move under the name found for it, and the end of the call.
unfoldable pub accept_as : Disk → Text → Text → List ℕ → Folders → Folders × Result InboxError Text
unfolding transfer drop_sidecar
accept_as disk name final bytes s =
    accepted disk name final (transfer disk (disk.rename name final) name final bytes s)

-- `InboxRoot::accept`; `none` is a search for a name that did not end.
unfoldable pub accept : Disk → Folders → Text → Option (Folders × Result InboxError Text)
unfolding resolve dedupe_in_dir accept_as
accept disk s name = elim (resolve disk s.inbox name) [
  | err e ↦ some (s, err e)
  | ok bytes ↦ elim (dedupe_in_dir (length s.share + 1) s.share name) [
    | none ↦ none
    | some final ↦ some (accept_as disk name final bytes s)
  ]
]

-- `InboxRoot::remove`
unfoldable pub discard : Disk → Folder → Text → Folder × Result {0} InboxError Unit
unfolding resolve drop_sidecar
discard disk d name = elim (resolve disk d name) [
  | err e ↦ (d, err e)
  | ok bytes ↦
      if disk.remove_file name then (drop_sidecar disk name (remove name d), ok tt) else (d, err io)
]
