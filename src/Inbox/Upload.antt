-- ===== src/Inbox/Upload.antt =====
-- What an upload changes: `write_file` of crates/doclinkd/src/inbox.rs.
use doc_link.Inbox.{
  Disk, Folder, InboxError, InboxMeta, Node, Written, whole, torn, Renamed, moved, cross_device,
  refused, invalid_name, io, exists, candidate, write_file, put_bytes, write, rename_within,
  move_to, then_in, write_stored, write_sidecar, overwritten, sidecar_suffix, sidecar_path,
  part_path, valid_name,
}
use doc_link.Base.Map.{lookup, insert, remove, lookup-remove, lookup-insert, lookup-insert_self}
use doc_link.Base.{Text, beq-eq, ℕ, ◌≡◌, refl, ◌≢◌, false, none, some, List, arith}
use doc_link.Base.{text_eq, nat_eq}
use doc_link.Base.{Bool-cases, Option-cases, length, length-append, ◌+◌, ap, ◌∙◌, ◌⊎◌, inl}
use doc_link.Base.{inr, Bool, true, Option, ◌∷◌}
use doc_link.Inbox.Names.{dedupe_total}
use doc_link.Inbox.{codes, trim, err, Result, ok, answer, resolve}
use doc_link.Base.{sym}
use doc_link.Inbox.Stored.{candidate_allowed}

pub lookup-insert_other :
    (j k : Text) (v : Node) (d : Folder) → k ≢ j → lookup j (insert k v d) ≡ lookup j d
lookup-insert_other j k v d h = rw (lookup-insert j k v d) (ground (arith, h, beq-eq k j))

pub lookup-remove_other : (j k : Text) (d : Folder) → k ≢ j → lookup j (remove k d) ≡ lookup j d
lookup-remove_other j k d h = rw (lookup-remove j k d) (ground (arith, h, beq-eq k j))

-- A chain of calls keeps what each of them keeps.
pub then_in-keeps {κ} :
    {A : Type 0} (P : A → Type κ) (m : A × Bool) (f : A → A × Bool)
    → P m.0
    → (P m.0 → P (f m.0).0)
    → P (then_in m f).0
then_in-keeps P (d, true) f p h = h p
then_in-keeps P (d, false) f p h = p

-- A chain that ended well: both calls did.
pub then_in-true :
    {A : Type 0} (m : A × Bool) (f : A → A × Bool)
    → (then_in m f).1 ≡ true
    → (m.1 ≡ true) × (then_in m f ≡ f m.0) × ((f m.0).1 ≡ true)
then_in-true (d, true) f h = (refl, refl, h)
then_in-true (d, false) f h = absurd (cc)

-- A write changes one name.
pub lookup-put_bytes_other :
    (w : Written) (name : Text) (bytes : List ℕ) (time : Option ℕ) (d : Folder) (k : Text)
    → name ≢ k
    → lookup k (put_bytes w name bytes time d).0 ≡ lookup k d
unfolding put_bytes
lookup-put_bytes_other (torn none) name bytes time d k h = refl
lookup-put_bytes_other (torn (some left)) name bytes time d k h =
    lookup-insert_other k name (overwritten (lookup name d) left time) d h
lookup-put_bytes_other whole name bytes time d k h =
    lookup-insert_other k name (overwritten (lookup name d) bytes time) d h

pub lookup-put_bytes :
    (w : Written) (name : Text) (bytes : List ℕ) (time : Option ℕ) (d : Folder)
    → (put_bytes w name bytes time d).1 ≡ true
    → lookup name (put_bytes w name bytes time d).0 ≡ some (overwritten (lookup name d) bytes time)
unfolding put_bytes
lookup-put_bytes (torn none) name bytes time d h = absurd (cc)
lookup-put_bytes (torn (some left)) name bytes time d h = absurd (cc)
lookup-put_bytes whole name bytes time d h =
    lookup-insert_self name (overwritten (lookup name d) bytes time) d

-- A rename changes two names.
pub lookup-rename_within_other :
    (r : Renamed) (old new : Text) (d : Folder) (k : Text)
    → old ≢ k
    → new ≢ k
    → lookup k (rename_within r old new d).0 ≡ lookup k d
unfolding rename_within move_to
lookup-rename_within_other cross_device old new d k h g = refl
lookup-rename_within_other refused old new d k h g = refl
lookup-rename_within_other moved old new d k h g = elim (Option-cases (lookup old d)) [
  | inl e ↦ rw (e, move_to) refl
  | inr (v, e) ↦
      rw (e, move_to) (lookup-insert_other k new v (remove old d) g ∙ lookup-remove_other k old d h)
]

pub lookup-rename_within :
    (r : Renamed) (old new : Text) (d : Folder) (v : Node)
    → (rename_within r old new d).1 ≡ true
    → lookup old d ≡ some v
    → lookup new (rename_within r old new d).0 ≡ some v
unfolding rename_within move_to
lookup-rename_within cross_device old new d v h e = absurd (cc)
lookup-rename_within refused old new d v h e = absurd (cc)
lookup-rename_within moved old new d v h e =
    rw (e, move_to) (lookup-insert_self new v (remove old d))

lookup-write_sidecar_other :
    (disk : Disk) (stored : Text) (raw : Option (List ℕ)) (d : Folder) (k : Text)
    → sidecar_path stored ≢ k
    → lookup k (write_sidecar disk stored raw d).0 ≡ lookup k d
unfolding write_sidecar write
lookup-write_sidecar_other disk stored none d k h = refl
lookup-write_sidecar_other disk stored (some raw) d k h =
    lookup-put_bytes_other (disk.write (sidecar_path stored)) (sidecar_path stored) raw disk.now d k
      h

pub sidecar_path-ne : (name : Text) → sidecar_path name ≢ name
unfolding sidecar_path
sidecar_path-ne name e =
    absurd (omega (arith, ap (λ s. length s) e, length-append name sidecar_suffix))

pub part_path-ne : (name : Text) → part_path name ≢ name
unfolding part_path
part_path-ne name e =
    absurd (omega (arith, ap (λ s. length s) e, length-append (b'.' ∷ name) (codes ".part")))

module _ (disk : Disk) (stored : Text) (bytes : List ℕ) (meta : InboxMeta) (d : Folder) where
  -- However far an upload gets, it changes the file itself, its part and its sidecar.
  lookup-write_stored_other :
      (k : Text)
      → stored ≢ k
      → part_path stored ≢ k
      → sidecar_path stored ≢ k
      → lookup k (write_stored disk stored bytes meta d).0 ≡ lookup k d
  unfolding write_stored write
  lookup-write_stored_other k hs hp hc =
      let written = (write disk (part_path stored) bytes d).0 in
      let renaming =
        rename_within (disk.rename (part_path stored) stored) (part_path stored) stored in
      then_in-keeps (λ z. lookup k z ≡ lookup k d) (write disk (part_path stored) bytes d) _
        (lookup-put_bytes_other (disk.write (part_path stored)) (part_path stored) bytes disk.now d
          k hp)
        λ kept.
          then_in-keeps (λ z. lookup k z ≡ lookup k d) (renaming written)
            (write_sidecar disk stored (disk.to_vec meta))
            (lookup-rename_within_other (disk.rename (part_path stored) stored) (part_path stored)
                stored (write disk (part_path stored) bytes d).0 k hp hs
              ∙ kept)
            λ placed. lookup-write_sidecar_other disk stored (disk.to_vec meta) _ k hc ∙ placed

  -- An upload that ends well leaves its bytes under the name found.
  lookup-write_stored :
      (write_stored disk stored bytes meta d).1 ≡ true
      → lookup stored (write_stored disk stored bytes meta d).0
        ≡ some (overwritten (lookup (part_path stored) d) bytes disk.now)
  unfolding write_stored write
  lookup-write_stored h =
      let written = (write disk (part_path stored) bytes d).0 in
      let renaming =
        rename_within (disk.rename (part_path stored) stored) (part_path stored) stored in
      let (fine, e, h₁) = then_in-true (write disk (part_path stored) bytes d) _ h in
      let (named, e₁, h₂) =
        then_in-true (renaming written) (write_sidecar disk stored (disk.to_vec meta)) h₁ in
      rw (e, e₁)
        (lookup-write_sidecar_other disk stored (disk.to_vec meta) _ stored (sidecar_path-ne stored)
          ∙ lookup-rename_within (disk.rename (part_path stored) stored) (part_path stored) stored _
              (overwritten (lookup (part_path stored) d) bytes disk.now) named
              (lookup-put_bytes (disk.write (part_path stored)) (part_path stored) bytes disk.now d
                fine))

answer-true : (stored : Text) (r : Folder × Bool) → r.1 ≡ true → answer stored r ≡ (r.0, ok stored)
answer-true stored (d, true) h = refl
answer-true stored (d, false) h = absurd (cc)

answer-false : (stored : Text) (r : Folder × Bool) → r.1 ≡ false → answer stored r ≡ (r.0, err io)
answer-false stored (d, true) h = absurd (cc)
answer-false stored (d, false) h = refl

-- An upload always ends. A name that is not allowed changes nothing. Else a name at which nothing
-- exists is found, the name itself or one with a number; whatever the disk does, nothing changes
-- but that name, its part and its sidecar; and if the upload answers, it answers that name, under
-- which the bytes now are.
pub write_file_lem :
    (disk : Disk) (d : Folder) (name : Text) (bytes : List ℕ) (meta : InboxMeta)
    → (valid_name disk.windows (trim name) ≡ false)
        × (write_file disk d name bytes meta ≡ some (d, err invalid_name))
      ⊎ (valid_name disk.windows (trim name) ≡ true)
        × ((stored : Text) × (after : Folder) × (r : Result InboxError Text) × (write_file disk d
                name bytes meta
              ≡ some (after, r))
            × (exists d stored ≡ false)
            × ((stored ≡ trim name) ⊎ ((n : ℕ) × (stored ≡ candidate (trim name) n)))
            × ((k : Text)
                → stored ≢ k
                → part_path stored ≢ k
                → sidecar_path stored ≢ k
                → lookup k after ≡ lookup k d)
            × ((r ≡ err io)
                ⊎ (r ≡ ok stored)
                  × (lookup stored after
                      ≡ some (overwritten (lookup (part_path stored) d) bytes disk.now))))
unfolding write_file
write_file_lem disk d name bytes meta = elim (Bool-cases (valid_name disk.windows (trim name))) [
  | inr h ↦ rw (h, write_file) (inl (refl, refl))
  | inl h ↦
      let (stored, found, free, shape) = dedupe_total d (trim name) (length d + 1) (omega arith) in
      let r = write_stored disk stored bytes meta d in
      let others = lookup-write_stored_other disk stored bytes meta d in
      rw (h, write_file, found)
        (elim (Bool-cases r.1) [
          | inl fine ↦ inr (
            refl,
            (
              stored,
              r.0,
              ok stored,
              ap some (answer-true stored r fine),
              free,
              shape,
              others,
              inr (refl, lookup-write_stored disk stored bytes meta d fine),
            ),
          )
          | inr failed ↦ inr (
            refl,
            (
              stored,
              r.0,
              err io,
              ap some (answer-false stored r failed),
              free,
              shape,
              others,
              inl refl,
            ),
          )
        ])
]

-- What an upload answers is a name that the owner can open: the upload's bytes are found under it,
-- if nothing stood at the name of its part and the metadata can be read.
pub write_file-resolve :
    (disk : Disk) (d after : Folder) (name stored : Text) (bytes : List ℕ) (meta : InboxMeta)
    → write_file disk d name bytes meta ≡ some (after, ok stored)
    → lookup (part_path stored) d ≡ none
    → disk.metadata stored ≡ true
    → resolve disk after stored ≡ ok bytes
unfolding resolve
write_file-resolve disk d after name stored bytes meta h clear readable =
    elim (write_file_lem disk d name bytes meta) [
      | inl (e, refused_name) ↦ absurd (cc)
      | inr (e, (found, left, r, answers, free, shape, others, inl failed)) ↦ absurd (cc)
      | inr (e, (found, left, r, answers, free, shape, others, inr (fine, there_now))) ↦
          let same : found ≡ stored = cc in
          let same_folder : left ≡ after = cc in
          let allowed : valid_name disk.windows stored ≡ true = elim shape [
            | inl own ↦ rw (sym same, own) e
            | inr (n, numbered) ↦
                rw (sym same, numbered) (candidate_allowed disk.windows (trim name) n e)
          ] in
          let now_there : lookup stored after
              ≡ some (overwritten (lookup (part_path stored) d) bytes disk.now) =
            rw (same, same_folder) at there_now in
          rw (allowed, now_there, clear, readable) refl
    ]
