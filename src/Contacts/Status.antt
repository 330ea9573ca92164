-- ===== src/Contacts/Status.antt =====
-- Removing a PC and asking for its status, `remove_contact` and `contact_status` of
-- crates/doclinkd/src/admin.rs.
use doc_link.Contacts.{Lan, check, bad_gateway}
use doc_link.Protocol.{HttpError, http_error, lit, PairStatusResponse, peer_base_url}
use doc_link.State.{AppState}
use doc_link.Registry.{Peer}
use doc_link.Store.{Contact, Store, save}
use doc_link.Store as Store
use doc_link.Base.Results.{Result, ok, err, or_err, ◌>>=◌}
use doc_link.Base.{if◌then◌else◌, ◌==◌, Text, find, Bool, not, Option, none, some, List, []}
use doc_link.Base.{◌++◌, text_eq, nat_eq}

module _ (lan : Lan) where
  -- `remove_contact`
  unfoldable pub remove_contact : AppState → Text → Bool → AppState × Result HttpError (Unit {0})
  unfolding save Store.remove_contact
  remove_contact s id writable =
      let (left, removed) = Store.remove_contact s.contacts.content id in
      let (contacts, saved) = save writable (record s.contacts { content = left }) in
      if not removed then (s, err (http_error 404 (lit "unknown contact"))) else (
        record s { contacts = contacts },
        (if saved then ok tt else err (http_error 500 (lit "write failed"))),
      )

  -- The address of a contact: its own host, or what the registry knows now.
  unfoldable pub contact_base : Contact → List Peer → Option Text
  contact_base c peers = elim c.host [
    | some h ↦ some (lit "https://" ++ h)
    | none ↦ elim (find (λ p. p.node_id == c.node_id) peers) [
      | none ↦ none
      | some p ↦ some (peer_base_url p.addr p.http_port)
    ]
  ]

  -- `contact_status`, with the snapshot of the registry that it takes; the signed headers are those
  -- of Identity.
  unfoldable pub contact_status : AppState → List Peer → Text → Result HttpError PairStatusResponse
  unfolding contact_base check
  contact_status s peers id = do
    contact ←
        or_err (find (λ c. c.node_id == id) s.contacts.content)
          (http_error 404 (lit "unknown contact"))
    base ← or_err (contact_base contact peers) (http_error 404 (lit "peer not currently reachable"))
    resp ←
        bad_gateway (lit "peer unreachable: ")
          (lan.get_status (base ++ lit "/v1/pair/status?node_id=" ++ lan.encode s.node.node_id))
    pinned ← bad_gateway [] (check resp.certificate (some contact.fingerprint))
    bad_gateway (lit "bad peer response: ") resp.body
