-- ===== src/Inbox/Listed.antt =====
-- What the owner sees of the drop folder: `list` of crates/doclinkd/src/inbox.rs.
use mathlib.Core.List.{Perm}
use doc_link.Inbox.{Disk, Folder, Node, regular, sidecar_suffix}
use doc_link.Inbox.Owner.{InboxEntry, inbox_entry, read_meta, entries, newer_first, list}
use doc_link.Base.Map.{Map}
use doc_link.Base.Strings.{ends_with}
use doc_link.Base.Sort.{IsOrder, IsSortedBy, sort_by, sort_by-Perm, sort_by-IsSortedBy}
use doc_link.Base.Results.{ok, Result-cases}
use doc_link.Base.{if◌then◌else◌, Bool-cases, Text, ◌≡◌, inl, inr, true, false}
use doc_link.Base.{List, [], ◌∷◌, arith}
use doc_link.Base.{subst, ◌++◌}
use doc_link.Base.Results.{◌>>=◌}

newer_first-total : (a b : InboxEntry) → newer_first a b ≡ false → newer_first b a ≡ true
unfolding newer_first
newer_first-total a b h = ground arith

newer_first_trans :
    (a b c : InboxEntry) → newer_first a b ≡ true → newer_first b c ≡ true → newer_first a c ≡ true
unfolding newer_first
newer_first_trans a b c h k = ground arith

newer_first-IsOrder : IsOrder newer_first
newer_first-IsOrder = record { total = newer_first-total; transitive = newer_first_trans }

-- The entry of a payload file; a folder and a link have none.
abbrev pub payload : Disk → Folder → Text → Node → List InboxEntry
payload disk d name (regular bytes time) = inbox_entry name bytes time (read_meta disk d name) ∷ []
payload disk d name Node.folder = []
payload disk d name (Node.link leads bytes) = []

-- An independent description: the payload files among the items, in the order of the folder.
abbrev pub payloads : Disk → Folder → Map Text Node → List InboxEntry
payloads disk d [] = []
payloads disk d ((name, node) ∷ items) =
    (if ends_with name sidecar_suffix then [] else payload disk d name node)
    ++ payloads disk d items

entries_lem :
    (disk : Disk) (d : Folder) (items : Map Text Node) (es : List InboxEntry)
    → entries disk d items ≡ ok es
    → es ≡ payloads disk d items
unfolding entries
entries_lem disk d [] es = λ h. cc
entries_lem disk d ((name, node) ∷ items) es = elim (Bool-cases (ends_with name sidecar_suffix)) [
  | inl e ↦ rw e λ h. entries_lem disk d items es h
  | inr e ↦ elim (Bool-cases (disk.metadata name)) [
    | inr m ↦ rw (e, m) λ h. absurd (cc)
    | inl m ↦
        rw (e, m)
          (elim node
            as (λ k.
              (elim k [
                | regular bytes time ↦ do
                  es₁ ← entries disk d items
                  ok (inbox_entry name bytes time (read_meta disk d name) ∷ es₁)
                | Node.folder ↦ entries disk d items
                | Node.link leads bytes ↦ entries disk d items
              ])
                ≡ ok es
              → es ≡ payload disk d name k ++ payloads disk d items) [
                | Node.folder ↦ λ h. entries_lem disk d items es h
                | Node.link leads bytes ↦ λ h. entries_lem disk d items es h
                | regular bytes time ↦ elim (Result-cases (entries disk d items)) [
                  | inr (x, r) ↦ rw r λ h. absurd (cc)
                  | inl (rest, r) ↦ rw r λ h. (let tail = entries_lem disk d items rest r in cc)
                ]
              ])
  ]
]

-- A listing shows just the payload files, each with its size and what its sidecar says, and the
-- newest first: by the time it was received, or else modified.
pub list-payloads :
    (disk : Disk) (d : Folder) (es : List InboxEntry)
    → list disk d ≡ ok es
    → Perm es (payloads disk d d) × IsSortedBy newer_first es
unfolding list
list-payloads disk d es = elim (Bool-cases disk.read_dir) [
  | inr e ↦ rw e λ h. absurd (cc)
  | inl e ↦ elim (Result-cases (entries disk d d)) [
    | inr (x, r) ↦ rw (e, r) λ h. absurd (cc)
    | inl (found, r) ↦
        rw (e, r)
          λ h.
            let sorted : es ≡ sort_by newer_first found = cc in
            rw sorted (
              subst (Perm (sort_by newer_first found)) (entries_lem disk d d found r)
                  (sort_by-Perm newer_first found),
              sort_by-IsSortedBy newer_first newer_first-IsOrder found,
            )
  ]
]
