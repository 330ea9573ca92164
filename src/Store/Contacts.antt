-- ===== src/Store/Contacts.antt =====
-- The contact list of store.rs: one contact to a DocLink id.
use doc_link.Store.{Contact, ContactsFile, upsert_contact, remove_contact}
use doc_link.Store.Keyed.{
  find_key, OnePerKey, find_key-upsert, upsert-OnePerKey, retain-OnePerKey, find_key-without,
}
use doc_link.Base.{if◌then◌else◌, ◌==◌, Text, retain_of_length, ◌≡◌, false, not, Option}
use doc_link.Base.{none, some, arith, text_eq, nat_eq}

abbrev pub node_id_of : Contact → Text
node_id_of c = c.node_id

abbrev pub OnePerNode : ContactsFile → Type 0
OnePerNode = OnePerKey node_id_of

abbrev pub find_contact : Text → ContactsFile → Option Contact
find_contact = find_key node_id_of

-- Adding a contact replaces the one with its id and no other; removing an id removes its contact and
-- no other, and reports `false` only if the list is unchanged. Both keep one contact to an id.
pub contacts_lem :
    (cs : ContactsFile) (c : Contact) (id : Text)
    → OnePerNode cs
    → OnePerNode (upsert_contact cs c)
      × ((k : Text)
          → find_contact k (upsert_contact cs c)
            ≡ (if c.node_id == k then some c else find_contact k cs))
      × OnePerNode (remove_contact cs id).0
      × ((k : Text)
          → find_contact k (remove_contact cs id).0 ≡ (if id == k then none else find_contact k cs))
      × ((remove_contact cs id).1 ≡ false → (remove_contact cs id).0 ≡ cs)
unfolding upsert_contact remove_contact
contacts_lem cs c id u =
    let p = λ (x : Contact). not (x.node_id == id) in
    (
      upsert-OnePerKey node_id_of cs c u,
      (λ k. find_key-upsert node_id_of k cs c),
      retain-OnePerKey node_id_of p cs u,
      (λ k. find_key-without node_id_of k id cs),
      (λ e. retain_of_length p cs (ground (arith, e))),
    )
