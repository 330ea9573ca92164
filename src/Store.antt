-- ===== src/Store.antt =====
-- The JSON stores of crates/doclinkd/src/store.rs: grants, contacts, and the file behind each. What
-- serde_json writes is the data itself, so a store's file is its last saved data.
pub mod Keyed
pub mod Grants
pub mod Contacts
use doc_link.Base.{ltb, ◌==◌, Text, length, retain, any, there, ℕ, Bool, true, false, not}
use doc_link.Base.{Option, none, some, List, [], ◌∷◌, ◌++◌, text_eq, nat_eq}

pub record Grant : Type 0 where
  pub fingerprint : Text
  pub node_id : Text
  pub name : Text
  pub granted_unix : ℕ
  pub expires_unix : Option ℕ
  pub paths : List Text
  pub allow_files : Bool
  pub allow_print : Bool

-- `GrantsFile` and `ContactsFile` hold one list each.
abbrev pub GrantsFile : Type 0
GrantsFile = List Grant

-- `expires_unix.is_none_or(|e| e > now)`
abbrev pub is_live : ℕ → Option ℕ → Bool
is_live now none = true
is_live now (some e) = ltb now e

-- `GrantsFile::upsert`
unfoldable pub upsert : GrantsFile → Grant → GrantsFile
upsert gs g = retain (λ x. not (x.fingerprint == g.fingerprint)) gs ++ (g ∷ [])

-- `GrantsFile::prune_expired`: the grants that are left, and whether any was dropped.
unfoldable pub prune_expired : GrantsFile → ℕ → GrantsFile × Bool
prune_expired gs now =
    let left = retain (λ g. is_live now g.expires_unix) gs in (left, not (length left == length gs))

pub record Contact : Type 0 where
  pub node_id : Text
  pub alias : Text
  pub fingerprint : Text
  pub host : Option Text
  pub status : Text

abbrev pub ContactsFile : Type 0
ContactsFile = List Contact

-- `ContactsFile::upsert`
unfoldable pub upsert_contact : ContactsFile → Contact → ContactsFile
upsert_contact cs c = retain (λ x. not (x.node_id == c.node_id)) cs ++ (c ∷ [])

-- `ContactsFile::remove`
unfoldable pub remove_contact : ContactsFile → Text → ContactsFile × Bool
remove_contact cs id =
    let left = retain (λ c. not (c.node_id == id)) cs in (left, not (length left == length cs))

-- `Store<T>`: the data in memory, and the file's content if the file exists.
pub record Store {ℓ} (T : Type ℓ) : Type ℓ where
  pub content : T
  pub on_disk : Option T

module _ {ℓ} {T : Type ℓ} where
  -- `Store::open`: a file that is there is read, else the default serves.
  unfoldable pub open_store : T → Option T → Store T
  open_store default none = record { content = default; on_disk = none }
  open_store default (some t) = record { content = t; on_disk = some t }

  -- `Store::save`: writing the file may fail, which leaves the file as it was.
  unfoldable pub save : Bool → Store T → Store T × Bool
  save true s = (record s { on_disk = some s.content }, true)
  save false s = (s, false)
