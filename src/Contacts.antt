-- ===== src/Contacts.antt =====
-- Adding and removing PCs, `add_contact` and its neighbours of crates/doclinkd/src/admin.rs, with
-- the pin of crates/doclinkd/src/peer.rs. What other PCs answer is the record Lan.
pub mod Status
pub mod Pinned
use doc_link.Protocol.{
  HttpError, http_error, lit, NodeInfo, PairRequest, PairStatus, PairStatusResponse,
  canonical_request_string, peer_base_url,
}
use doc_link.Identity.{Crypto, SigningKey}
use doc_link.State.{AppState}
use doc_link.Registry.{Peer}
use doc_link.Store.{Contact, Store, save, upsert_contact}
use doc_link.Store as Store
use doc_link.Base.Strings.{trim, to_ascii_lowercase, is_empty}
use doc_link.Base.Results.{Result, ok, err, guard, or_err, ◌>>=◌, ◌>>◌}
use doc_link.Base.{leb, if◌then◌else◌, ◌==◌, Text, length, retain, any, find, All, ℕ, Bool}
use doc_link.Base.{true, not, ◌&&◌, ◌||◌, Option, none, some, List, [], ◌∷◌, ◌++◌, text_eq}
use doc_link.Base.{nat_eq}

-- A response: the hash of the key in the certificate of its connection, and its body as JSON.
pub record Reply {ℓ} (A : Type ℓ) : Type ℓ where
  pub certificate : Result Text Text
  pub body : Result Text A

-- What the network and the library answer: the snapshots of the registry while the daemon waits for
-- a peer, the probe of the subnet, and the three requests.
pub record Lan : Type 0 where
  pub snapshots : List (List Peer)
  pub scan_enabled : Bool
  pub find_node : Text → Option Text
  pub get_info : Text → Result Text (Reply NodeInfo)
  pub post_request : Text → PairRequest → Result Text (Reply PairStatusResponse)
  pub get_status : Text → Result Text (Reply PairStatusResponse)
  pub to_lowercase : Text → Text
  pub encode : Text → Text

-- `eq_ignore_ascii_case`
unfoldable pub same_ignoring_case : Text → Text → Bool
same_ignoring_case a b = to_ascii_lowercase a == to_ascii_lowercase b

abbrev pin : Text → Text → Result Text Text
pin got want =
    if same_ignoring_case got want
    then ok got
    else err (lit "TLS pin mismatch: certificate hashes to " ++ got ++ lit ", expected " ++ want)

-- `peer::check`
unfoldable pub check : Result Text Text → Option Text → Result Text Text
unfolding same_ignoring_case
check (err e) expected = err e
check (ok got) none = ok got
check (ok got) (some want) = pin got want

abbrev pub is_hexdigit : ℕ → Bool
is_hexdigit c =
    (leb b'0' c && leb c b'9') || (leb b'a' c && leb c b'f') || (leb b'A' c && leb c b'F')

unfoldable pub all_hex : Text → Bool
all_hex [] = true
all_hex (c ∷ s) = is_hexdigit c && all_hex s

-- `valid_node_id`: where all characters are hex digits, their number is that of the bytes.
unfoldable pub valid_node_id : Text → Bool
unfolding all_hex
valid_node_id id = length id == 16 && all_hex id

abbrev pub bad_gateway : {A : Type 0} → Text → Result Text A → Result HttpError A
bad_gateway prefix (ok a) = ok a
bad_gateway prefix (err e) = err (http_error 502 (prefix ++ e))

module _ (lan : Lan) where
  -- `normalize_id`
  unfoldable pub normalize_id : Text → Text
  normalize_id raw = retain is_hexdigit (lan.to_lowercase (trim raw))

  -- The wait for the peer, one snapshot in each round.
  unfoldable pub wait_for : Text → List (List Peer) → Option Peer
  wait_for id [] = none
  wait_for id (peers ∷ later) = elim (find (λ p. p.node_id == id) peers) [
    | some p ↦ some p
    | none ↦ wait_for id later
  ]

  abbrev manual : Option Text → Option Text
  manual none = none
  manual (some h) = if is_empty (trim h) then none else some (trim h)

  -- `resolve_peer_base`: the base address, and the fingerprint that mDNS told, if any.
  unfoldable pub resolve_peer_base : Text → Option Text → Option (Text × Text)
  unfolding wait_for
  resolve_peer_base id manual_host = elim (manual manual_host) [
    | some h ↦ some (lit "https://" ++ h, [])
    | none ↦ elim (wait_for id lan.snapshots) [
      | some p ↦ some (peer_base_url p.addr p.http_port, p.fingerprint)
      | none ↦
          if lan.scan_enabled
          then (elim (lan.find_node id) [ none ↦ none | some base ↦ some (base, []) ])
          else none
    ]
  ]

  -- The checks that both handlers make of the id.
  unfoldable pub checked_id : AppState → Text → Result HttpError (Unit {0})
  unfolding valid_node_id
  checked_id s id = do
    guard (valid_node_id id) (http_error 400 (lit "DocLink ID must be 16 hex characters"))
    guard (not (id == s.node.node_id)) (http_error 400 (lit "that's this PC's own DocLink ID"))

  -- The identity of the PC at an address, which its certificate has to match.
  unfoldable pub fetch_identity : Text → Text → Result HttpError NodeInfo
  unfolding check same_ignoring_case
  fetch_identity base id = do
    resp ← bad_gateway (lit "peer unreachable: ") (lan.get_info base)
    cert_fp ← bad_gateway [] (check resp.certificate none)
    info ← bad_gateway (lit "bad peer response: ") resp.body
    guard (info.node_id == id) (http_error 409 (lit "remote node_id mismatch"))
    guard (same_ignoring_case cert_fp info.fingerprint) (
        http_error 409
          (lit "peer certificate does not match its advertised fingerprint — possible MITM"))
    ok info

  abbrev not_on_lan : HttpError
  not_on_lan =
      http_error 404
        (lit "peer not found on the LAN — check it is running DocLink, or set Host to its IP:port")

  -- `contact_fingerprint`
  unfoldable pub contact_fingerprint : AppState → Text → Option Text → Result HttpError NodeInfo
  unfolding checked_id resolve_peer_base fetch_identity
  contact_fingerprint s raw host = do
    checked_id s (lan.to_lowercase (trim raw))
    found ← or_err (resolve_peer_base (lan.to_lowercase (trim raw)) host) not_on_lan
    info ← fetch_identity found.0 (lan.to_lowercase (trim raw))
    guard (is_empty found.1 || found.1 == info.fingerprint)
        (http_error 409 (lit "fingerprint mismatch between mDNS and /v1/info — possible spoofing"))
    ok info

  -- The pair request that `add_contact` builds and signs.
  unfoldable pub signed_request : Crypto → SigningKey → NodeInfo → ℕ → PairRequest
  signed_request C k node duration_secs =
      let req : PairRequest = record {
        node_id = node.node_id;
        name = node.name;
        pubkey_hex = C.hex_encode k.verifying_key;
        requested_duration_secs = duration_secs;
        signature = [];
      } in
      record req { signature = C.hex_encode (k.sign_bytes (canonical_request_string req)) }

  unfoldable pub status_label : PairStatus → Text
  status_label PairStatus.approved = lit "approved"
  status_label PairStatus.pending = lit "pending"
  status_label PairStatus.denied = lit "denied"
  status_label PairStatus.unknown = lit "unknown"

  abbrev not_on_subnet : HttpError
  not_on_subnet = http_error 404 (
      lit
        "peer not found on the LAN — check it is running DocLink and that both PCs are on the same subnet, or set Host (optional) to its IP:port (e.g. 192.168.1.20:37655)")

  -- All of `add_contact` but the store: the contact and the answer of the other PC.
  unfoldable pub asked :
      Crypto
      → SigningKey
      → AppState
      → Text
      → Text
      → Option Text
      → ℕ
      → Result HttpError (Contact × PairStatusResponse)
  unfolding checked_id resolve_peer_base fetch_identity signed_request check status_label
  asked C k s id alias host duration_secs = do
    checked_id s id
    found ← or_err (resolve_peer_base id host) not_on_subnet
    info ← fetch_identity found.0 id
    resp ←
        bad_gateway (lit "pair request failed: ")
          (lan.post_request found.0 (signed_request C k s.node duration_secs))
    pinned ← bad_gateway [] (check resp.certificate (some info.fingerprint))
    status ← bad_gateway (lit "bad pair response: ") resp.body
    ok (
      record {
        node_id = id;
        alias = alias;
        fingerprint = info.fingerprint;
        host = host;
        status = status_label status.status;
      },
      status,
    )

  abbrev pub stored_contact :
      AppState
      → Bool
      → Result HttpError (Contact × PairStatusResponse)
      → AppState × Result HttpError PairStatusResponse
  stored_contact s writable (err e) = (s, err e)
  stored_contact s writable (ok (c, status)) =
      let changed : Store Store.ContactsFile = record s.contacts {
        content = upsert_contact s.contacts.content c;
      } in
      let (contacts, saved) = save writable changed in
      (
        record s { contacts = contacts },
        (if saved then ok status else err (http_error 500 (lit "write failed"))),
      )

  -- `add_contact`
  unfoldable pub add_contact :
      Crypto
      → SigningKey
      → AppState
      → Text
      → Text
      → Option Text
      → ℕ
      → Bool
      → AppState × Result HttpError PairStatusResponse
  unfolding normalize_id asked save upsert_contact
  add_contact C k s raw alias host duration_secs writable =
      stored_contact s writable (asked C k s (normalize_id raw) alias host duration_secs)
