-- ===== src/Tests/FilesRuns.antt =====
-- Runs of the share root and of the drop folder, on small folders.
use doc_link.Protocol.{lit}
use doc_link.ShareRoot.{
  RealPath, Component, normal, DirItem, FileSystem, components, path_starts_with, suspicious,
  resolve, dir_entry,
}
use doc_link.ShareRoot.Inside.{resolve-inside, delete-inside}
use doc_link.ShareRoot.Refused.{is_refused, suspicious_iff}
use doc_link.ShareRoot.Listing.{IsNamed, listed_paths, listed_paths-IsListing}
use doc_link.Subtract.Total.{IsListing}
use doc_link.Scope.{DirEntry}
use mathlib.Core.List.{Perm}
use doc_link.Base.Sort.{IsSortedBy}
use doc_link.Base.Map.{lookup}
use doc_link.Base.Strings.{trim, is_empty}
use doc_link.Base.Results.{Result, ok, err}
use doc_link.Inbox.{
  Disk, Folder, InboxError, InboxMeta, Node, regular, Written, Renamed, candidate, exists,
  overwritten, part_path, sidecar_path, valid_name, write_file, write_stored, invalid_name, io,
}
use doc_link.Inbox as Inbox
use doc_link.Inbox.Owner.{Folders, InboxEntry, accept, readable, default_meta, newer_first}
use doc_link.Inbox.Owner as Owner
use doc_link.Inbox.Upload.{write_file_lem, write_file-resolve}
use doc_link.Inbox.Review.{accept_lem}
use doc_link.Inbox.Listed.{list-payloads, payloads}
use doc_link.Base.{Text, length, ℕ, ◌<◌, ◌≡◌, refl, sym, ap, ◌≢◌, ◌⊎◌, true, false, none}
use doc_link.Base.{some, List, [], ◌∷◌, ◌++◌, text_eq, nat_eq}

-- The names among the components.
names_in : List Component → List Text
names_in [] = []
names_in (normal s ∷ cs) = s ∷ names_in cs
names_in (c ∷ cs) = names_in cs

abbrev notes : DirItem
notes = record { name = lit "Notes"; is_directory = false; size = 3; modified_unix = some 9 }

abbrev photos : DirItem
photos = record { name = lit "photos"; is_directory = true; size = 0; modified_unix = none }

-- Every path exists, and every folder has the same two items.
abbrev toy_fs : FileSystem Unit
toy_fs = record {
  windows = false;
  canonicalize = λ s p cs. some (p ++ names_in cs);
  read_dir = λ s p. ok (ok notes ∷ ok photos ∷ []);
  is_directory = λ s p. ok false;
  remove_dir_all = λ s p. ok tt;
  remove_file = λ s p. ok tt;
  to_lowercase = λ t. t;
}

abbrev top : RealPath
top = lit "srv" ∷ []

abbrev old_a : Node
old_a = regular (1 ∷ []) (some 4)

abbrev drop_folder : Folder
drop_folder = (lit "a.txt", old_a) ∷ (lit "b", Node.folder) ∷ []

abbrev disk : Disk
disk = record {
  windows = false;
  now = some 50;
  write = λ n. Written.whole;
  copy = λ n. Written.whole;
  rename = λ a b. Renamed.moved;
  remove_file = λ n. true;
  read_dir = true;
  metadata = λ n. true;
  to_vec = λ m. some (9 ∷ []);
  from_slice = λ b. none;
}

abbrev payload_bytes : List ℕ
payload_bytes = 5 ∷ 6 ∷ []

abbrev folders : Folders
folders = record { inbox = drop_folder; share = (lit "a.txt", old_a) ∷ [] }

resolve-inside_example :
    (suspicious toy_fs.windows (lit "a/b") ≡ false)
    × (toy_fs.canonicalize tt top (components toy_fs.windows (lit "a/b"))
        ≡ some (lit "srv" ∷ lit "a" ∷ lit "b" ∷ []))
    × (path_starts_with (lit "srv" ∷ lit "a" ∷ lit "b" ∷ []) top ≡ true)
unfolding resolve doc_link.Base.Strings.has_char lit doc_link.Base.Strings.split
    doc_link.Base.text_beq doc_link.Base.any names_in
resolve-inside_example =
    resolve-inside toy_fs top tt (lit "a/b") (lit "srv" ∷ lit "a" ∷ lit "b" ∷ []) refl

delete-inside_example :
    (p : RealPath) × (resolve toy_fs top tt (lit "a") ≡ ok p)
    × (path_starts_with p top ≡ true)
    × (length top < length p)
    × ((toy_fs.is_directory tt p ≡ ok true) × (toy_fs.remove_dir_all tt p ≡ ok tt)
        ⊎ (toy_fs.is_directory tt p ≡ ok false) × (toy_fs.remove_file tt p ≡ ok tt))
unfolding doc_link.ShareRoot.delete lit doc_link.Base.Strings.has_char doc_link.Base.Strings.split
    doc_link.Base.text_beq doc_link.Base.any names_in
delete-inside_example = delete-inside toy_fs top tt tt (lit "a") refl

suspicious_iff_example : suspicious true (lit "a\\..") ≡ is_refused true (lit "a\\..")
suspicious_iff_example = suspicious_iff true (lit "a\\..")

abbrev listing : List DirEntry
listing = dir_entry (lit "a") photos ∷ dir_entry (lit "a") notes ∷ []

toy-IsNamed : IsNamed toy_fs tt
unfolding lit
toy-IsNamed p [] e = absurd (cc)
toy-IsNamed p (i ∷ []) e = absurd (cc)
toy-IsNamed p (i ∷ j ∷ []) e =
    let first : notes ≡ i = cc in
    let second : photos ≡ j = cc in
    (
      ap (λ item. is_empty item.name) (sym first),
      (ap (λ item. is_empty item.name) (sym second), tt),
    )
toy-IsNamed p (i ∷ j ∷ k ∷ found) e = absurd (cc)

listed_paths-IsListing_example : IsListing (listed_paths toy_fs top tt)
listed_paths-IsListing_example = listed_paths-IsListing toy_fs top tt toy-IsNamed

write_file_lem_example :
    (valid_name disk.windows (trim (lit " a.txt")) ≡ false)
      × (write_file disk drop_folder (lit " a.txt") payload_bytes default_meta
          ≡ some (drop_folder, err invalid_name))
    ⊎ (valid_name disk.windows (trim (lit " a.txt")) ≡ true)
      × ((stored : Text) × (after : Folder) × (r : Result InboxError Text) × (write_file disk
              drop_folder
              (lit " a.txt")
              payload_bytes
              default_meta
            ≡ some (after, r))
          × (exists drop_folder stored ≡ false)
          × ((stored ≡ trim (lit " a.txt"))
              ⊎ ((n : ℕ) × (stored ≡ candidate (trim (lit " a.txt")) n)))
          × ((k : Text)
              → stored ≢ k
              → part_path stored ≢ k
              → sidecar_path stored ≢ k
              → lookup k after ≡ lookup k drop_folder)
          × ((r ≡ err io)
              ⊎ (r ≡ ok stored)
                × (lookup stored after
                    ≡ some (
                        overwritten
                          (lookup (part_path stored) drop_folder)
                          payload_bytes
                          disk.now))))
write_file_lem_example = write_file_lem disk drop_folder (lit " a.txt") payload_bytes default_meta

write_file-resolve_example :
    Inbox.resolve disk
      (write_stored disk (lit "a (1).txt") payload_bytes default_meta drop_folder).0
      (lit "a (1).txt")
    ≡ ok payload_bytes
unfolding write_file trim lit doc_link.Base.text_beq doc_link.Base.Strings.has_char components
    doc_link.Base.Strings.split exists lookup Inbox.first_free candidate
    doc_link.Base.Strings.rsplit_once doc_link.Base.Map.insert doc_link.Base.Decimal.to_decimal
    doc_link.Base.Map.remove
write_file-resolve_example =
    write_file-resolve disk drop_folder
      (write_stored disk (lit "a (1).txt") payload_bytes default_meta drop_folder).0 (lit "a.txt")
      (lit "a (1).txt") payload_bytes default_meta refl refl refl

accept_lem_example :
    ((e : InboxError) × (Inbox.resolve disk folders.inbox (lit "a.txt") ≡ err e)
      × (accept disk folders (lit "a.txt") ≡ some (folders, err e)))
    ⊎ ((bytes : List ℕ) × (final : Text) × (after : Folders) × (r : Result InboxError Text)
        × (Inbox.resolve disk folders.inbox (lit "a.txt") ≡ ok bytes)
        × (accept disk folders (lit "a.txt") ≡ some (after, r))
        × (exists folders.share final ≡ false)
        × ((final ≡ (lit "a.txt")) ⊎ ((n : ℕ) × (final ≡ candidate (lit "a.txt") n)))
        × ((k : Text)
            → final ≢ k
            → part_path final ≢ k
            → lookup k after.share ≡ lookup k folders.share)
        × ((k : Text)
            → (lit "a.txt") ≢ k
            → sidecar_path (lit "a.txt") ≢ k
            → lookup k after.inbox ≡ lookup k folders.inbox)
        × ((r ≡ err io) × (lookup (lit "a.txt") after.inbox ≡ lookup (lit "a.txt") folders.inbox)
            ⊎ (r ≡ ok final)
              × (readable (lookup final after.share) ≡ some bytes)
              × (lookup (lit "a.txt") after.inbox ≡ none)))
accept_lem_example = accept_lem disk folders (lit "a.txt")

abbrev shown : List InboxEntry
shown = Owner.inbox_entry (lit "a.txt") (1 ∷ []) (some 4) default_meta ∷ []

list-payloads_example :
    Perm shown (payloads disk drop_folder drop_folder) × IsSortedBy newer_first shown
unfolding Owner.list doc_link.Base.Strings.ends_with lit doc_link.Base.text_beq
    doc_link.Base.Sort.insert_by lookup sidecar_path
list-payloads_example = list-payloads disk drop_folder shown refl
