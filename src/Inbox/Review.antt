-- ===== src/Inbox/Review.antt =====
-- Accepting a file loses nothing: `accept` of crates/doclinkd/src/inbox.rs.
use doc_link.Inbox.{
  Disk, Folder, Node, regular, Written, Renamed, moved, cross_device, refused, put_bytes,
  rename_within, overwritten, part_path, resolve, valid_name,
}
use doc_link.Inbox.Owner.{
  Folders, readable, hand_over, copy_in, settle, drop_source, copy_across, transfer,
}
use doc_link.Inbox.Upload.{
  lookup-insert_other, lookup-remove_other, lookup-put_bytes_other, lookup-put_bytes,
  lookup-rename_within_other, lookup-rename_within,
}
use doc_link.Base.Map.{lookup, lookup-insert_self, lookup-remove_self}
use doc_link.Base.Results.{ok, err, Result, Result-cases}
use doc_link.Base.{Bool-cases, Option-cases, Text, ℕ, ◌≡◌, refl, ◌≢◌, ◌⊎◌, inl, inr, Option}
use doc_link.Base.{none, some, List, text_eq, nat_eq}
use doc_link.Base.{ap, ◌∙◌, Bool, true, false}
use doc_link.Base.{length, ◌+◌, arith}
use doc_link.Inbox.Owner.{accepted, accept, drop_sidecar, accept_as}
use doc_link.Inbox.{sidecar_path, InboxError, io, exists, candidate}
use doc_link.Inbox.Names.{dedupe_total}
use doc_link.Inbox.Upload.{sidecar_path-ne}

-- A file that was found: its node.
resolve-ok :
    (disk : Disk) (d : Folder) (name : Text) (bytes : List ℕ)
    → resolve disk d name ≡ ok bytes
    → (time : Option ℕ) × (lookup name d ≡ some (regular bytes time))
unfolding resolve
resolve-ok disk d name bytes = elim (Bool-cases (valid_name disk.windows name)) [
  | inr e ↦ rw e λ h. absurd (cc)
  | inl e ↦ elim (Option-cases (lookup name d)) [
    | inl k ↦ rw (e, k) λ h. absurd (cc)
    | inr (regular old time, k) ↦ elim (Bool-cases (disk.metadata name)) [
      | inl m ↦ rw (e, k, m) λ h. let same : old ≡ bytes = cc in (time, rw same refl)
      | inr m ↦ rw (e, k, m) λ h. absurd (cc)
    ]
    | inr (Node.folder, k) ↦ rw (e, k) λ h. absurd (cc)
    | inr (Node.link leads old, k) ↦ rw (e, k) λ h. absurd (cc)
  ]
]

readable-overwritten :
    (old : Option Node) (bytes : List ℕ) (time : Option ℕ)
    → old ≢ some Node.folder
    → readable (some (overwritten old bytes time)) ≡ some bytes
readable-overwritten none bytes time h = refl
readable-overwritten (some (regular a b)) bytes time h = refl
readable-overwritten (some Node.folder) bytes time h = absurd (h refl)
readable-overwritten (some (Node.link a b)) bytes time h = refl

put_bytes-no_folder :
    (w : Written) (name : Text) (bytes : List ℕ) (time : Option ℕ) (d : Folder)
    → (put_bytes w name bytes time d).1 ≡ true
    → lookup name d ≢ some Node.folder
unfolding put_bytes
put_bytes-no_folder (Written.torn none) name bytes time d = λ h. absurd (cc)
put_bytes-no_folder (Written.torn (some left)) name bytes time d = λ h. absurd (cc)
put_bytes-no_folder Written.whole name bytes time d = elim (Option-cases (lookup name d)) [
  | inl e ↦ rw e λ h same. cc
  | inr (Node.folder, e) ↦ rw e λ h. absurd (cc)
  | inr (regular a b, e) ↦ rw e λ h same. cc
  | inr (Node.link a b, e) ↦ rw e λ h same. cc
]

module _ (disk : Disk) (name final : Text) (bytes : List ℕ) where
  -- What one way of moving the file may do to the two folders.
  abbrev IsTransfer : Folders → Folders × Bool → Type 0
  IsTransfer s t =
      ((k : Text) → final ≢ k → part_path final ≢ k → lookup k t.0.share ≡ lookup k s.share)
      × ((k : Text) → name ≢ k → lookup k t.0.inbox ≡ lookup k s.inbox)
      × (t.1 ≡ false → lookup name t.0.inbox ≡ lookup name s.inbox)
      × (t.1 ≡ true
          → (readable (lookup final t.0.share) ≡ some bytes) × (lookup name t.0.inbox ≡ none))

  hand_over-IsTransfer :
      (s : Folders) (time : Option ℕ)
      → lookup name s.inbox ≡ some (regular bytes time)
      → IsTransfer s (hand_over name final s, true)
  unfolding hand_over
  hand_over-IsTransfer s time e =
      rw (e, hand_over)
        (
          λ k f p. lookup-insert_other k final (regular bytes time) s.share f,
          λ k n. lookup-remove_other k name s.inbox n,
          λ h. absurd (cc),
          λ h. (
            ap readable (lookup-insert_self final (regular bytes time) s.share),
            lookup-remove_self name s.inbox,
          ),
        )

  -- After a copy that went well and a rename that did, the source is removed or stays.
  drop_source-IsTransfer :
      (s t : Folders)
      → ((k : Text) → final ≢ k → part_path final ≢ k → lookup k t.share ≡ lookup k s.share)
      → t.inbox ≡ s.inbox
      → readable (lookup final t.share) ≡ some bytes
      → IsTransfer s (drop_source disk name t)
  unfolding drop_source
  drop_source-IsTransfer s t others same placed = elim (Bool-cases (disk.remove_file name)) [
    | inl e ↦ rw e (
      others,
      λ k n. lookup-remove_other k name t.inbox n ∙ ap (lookup k) same,
      λ h. absurd (cc),
      λ h. (placed, lookup-remove_self name t.inbox),
    )
    | inr e ↦ rw e (others, λ k n. ap (lookup k) same, λ h. ap (lookup name) same, λ h. absurd (cc))
  ]

  copy_across-IsTransfer : (s : Folders) → IsTransfer s (copy_across disk name final bytes s)
  unfolding copy_across copy_in settle
  copy_across-IsTransfer s =
      let part = part_path final in
      let w = disk.copy part in
      let copied = put_bytes w part bytes disk.now s.share in
      let r = disk.rename part final in
      let placed = rename_within r part final copied.0 in
      let kept : (k : Text) → part ≢ k → lookup k copied.0 ≡ lookup k s.share =
        λ k p. lookup-put_bytes_other w part bytes disk.now s.share k p in
      elim (Bool-cases copied.1) [
        | inr e ↦ rw e (λ k f p. kept k p, λ k n. refl, λ h. refl, λ h. absurd (cc))
        | inl e ↦
            let moved_kept : (k : Text)
                → final ≢ k
                → part ≢ k
                → lookup k placed.0 ≡ lookup k s.share =
              λ k f p. lookup-rename_within_other r part final copied.0 k p f ∙ kept k p in
            elim (Bool-cases placed.1) [
              | inr e₁ ↦ rw (e, e₁) (moved_kept, λ k n. refl, λ h. refl, λ h. absurd (cc))
              | inl e₁ ↦
                  let node = overwritten (lookup part s.share) bytes disk.now in
                  let at_final : lookup final placed.0 ≡ some node =
                    lookup-rename_within r part final copied.0 node e₁
                      (lookup-put_bytes w part bytes disk.now s.share e) in
                  rw (e, e₁)
                    (drop_source-IsTransfer s (record s { share = placed.0 }) moved_kept refl
                      (ap readable at_final
                        ∙ readable-overwritten (lookup part s.share) bytes disk.now
                            (put_bytes-no_folder w part bytes disk.now s.share e)))
            ]
      ]

  transfer-IsTransfer :
      (r : Renamed) (s : Folders) (time : Option ℕ)
      → lookup name s.inbox ≡ some (regular bytes time)
      → IsTransfer s (transfer disk r name final bytes s)
  unfolding transfer
  transfer-IsTransfer moved s time e = hand_over-IsTransfer s time e
  transfer-IsTransfer refused s time e = (λ k f p. refl, λ k n. refl, λ h. refl, λ h. absurd (cc))
  transfer-IsTransfer cross_device s time e = copy_across-IsTransfer s

accepted-ok :
    (disk : Disk) (name final : Text) (t : Folders × Bool)
    → t.1 ≡ true
    → accepted disk name final t
      ≡ (record t.0 { inbox = drop_sidecar disk name t.0.inbox }, ok final)
accepted-ok disk name final (s, true) h = refl
accepted-ok disk name final (s, false) h = absurd (cc)

accepted-err :
    (disk : Disk) (name final : Text) (t : Folders × Bool)
    → t.1 ≡ false
    → accepted disk name final t ≡ (t.0, err io)
accepted-err disk name final (s, true) h = absurd (cc)
accepted-err disk name final (s, false) h = refl

lookup-drop_sidecar :
    (disk : Disk) (name k : Text) (d : Folder)
    → sidecar_path name ≢ k
    → lookup k (drop_sidecar disk name d) ≡ lookup k d
unfolding drop_sidecar
lookup-drop_sidecar disk name k d h = elim (Bool-cases (disk.remove_file (sidecar_path name))) [
  | inl e ↦ rw e (lookup-remove_other k (sidecar_path name) d h)
  | inr e ↦ rw e refl
]

-- Accepting a file that is there always ends, and never loses its bytes: whatever the disk does,
-- the answer is an error and the file is still in the drop folder, or it is a name at which nothing
-- existed in the share, under which the bytes are now, and the drop folder has the file no more.
-- Nothing else changes but the part of the copy and the sidecar. A name that cannot be opened
-- changes nothing.
pub accept_lem :
    (disk : Disk) (s : Folders) (name : Text)
    → ((e : InboxError) × (resolve disk s.inbox name ≡ err e)
        × (accept disk s name ≡ some (s, err e)))
      ⊎ ((bytes : List ℕ) × (final : Text) × (after : Folders) × (r : Result InboxError Text)
          × (resolve disk s.inbox name ≡ ok bytes)
          × (accept disk s name ≡ some (after, r))
          × (exists s.share final ≡ false)
          × ((final ≡ name) ⊎ ((n : ℕ) × (final ≡ candidate name n)))
          × ((k : Text) → final ≢ k → part_path final ≢ k → lookup k after.share ≡ lookup k s.share)
          × ((k : Text)
              → name ≢ k
              → sidecar_path name ≢ k
              → lookup k after.inbox ≡ lookup k s.inbox)
          × ((r ≡ err io) × (lookup name after.inbox ≡ lookup name s.inbox)
              ⊎ (r ≡ ok final)
                × (readable (lookup final after.share) ≡ some bytes)
                × (lookup name after.inbox ≡ none)))
unfolding accept accept_as
accept_lem disk s name = elim (Result-cases (resolve disk s.inbox name)) [
  | inr (e, h) ↦ rw (h, accept) (inl (e, refl, refl))
  | inl (bytes, h) ↦
      let (time, there_before) = resolve-ok disk s.inbox name bytes h in
      let (final, found, free, shape) =
        dedupe_total s.share name (length s.share + 1) (omega arith) in
      let t = transfer disk (disk.rename name final) name final bytes s in
      let (share_others, inbox_others, kept, done) =
        transfer-IsTransfer disk name final bytes (disk.rename name final) s time there_before in
      rw (h, accept, found)
        (elim (Bool-cases t.1) [
          | inr failed ↦ inr (
            bytes,
            final,
            t.0,
            err io,
            refl,
            ap some (accepted-err disk name final t failed),
            free,
            shape,
            share_others,
            λ k n c. inbox_others k n,
            inl (refl, kept failed),
          )
          | inl fine ↦ inr (
            bytes,
            final,
            record t.0 { inbox = drop_sidecar disk name t.0.inbox },
            ok final,
            refl,
            ap some (accepted-ok disk name final t fine),
            free,
            shape,
            share_others,
            λ k n c. lookup-drop_sidecar disk name k t.0.inbox c ∙ inbox_others k n,
            inr (
              refl,
              (done fine).0,
              lookup-drop_sidecar disk name name t.0.inbox (sidecar_path-ne name) ∙ (done fine).1,
            ),
          )
        ])
]
