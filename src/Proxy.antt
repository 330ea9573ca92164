-- ===== src/Proxy.antt =====
-- The calls to other PCs of crates/doclinkd/src/proxy.rs: listing and searching. A signed request
-- and its answer are the parameter `send`; a body is read by the parameters of serde_json.
pub mod Doubled
pub mod Ends
use doc_link.Protocol.{HttpError, http_error, lit, peer_base_url}
use doc_link.State.{AppState}
use doc_link.Registry.{Peer}
use doc_link.Scope.{DirEntry, is_dir}
use doc_link.Search.{SearchResponse}
use doc_link.Contacts.{check}
use doc_link.Base.Strings.{trim, contains, is_empty}
use doc_link.Base.Results.{Result, ok, err, guard, or_err, ◌>>=◌, ◌>>◌}
use doc_link.Base.{ltb, leb, if◌then◌else◌, ◌==◌, length, find, All, ℕ, zero, suc, ◌+◌}
use doc_link.Base.{Bool, true, false, not, ◌&&◌, ◌||◌, Option, none, some, List, [], ◌∷◌}
use doc_link.Base.{◌++◌, text_eq, nat_eq, Text}

-- `ProxyError`
pub data ProxyError : Type 0 where
  unknown_peer unsupported_peer : ProxyError
  upstream : Text → ProxyError

-- `PeerTarget`
pub record PeerTarget : Type 0 where
  pub base : Text
  pub fingerprint : Text

-- An answer: the hash of the key in the certificate, the status, and the text of the body.
pub record Answer : Type 0 where
  pub certificate : Result Text Text
  pub status : ℕ
  pub body : Result Text Text

-- What the network and the libraries give: the answer to a signed GET at an address and a path, and
-- what a body reads as.
pub record Wire : Type 0 where
  pub send : Text → Text → Result Text Answer
  pub encode : Text → Text
  pub to_lowercase : Text → Text
  pub show_status : ℕ → Text
  pub error_of : Text → Option Text
  pub list_of : Text → Result Text (List DirEntry)
  pub search_of : Text → Result Text SearchResponse

abbrev pub ok_status : ℕ → Bool
ok_status status = leb 200 status && ltb status 300

abbrev pub from_upstream : {A : Type 0} → Text → Result Text A → Result ProxyError A
from_upstream front (ok a) = ok a
from_upstream front (err e) = err (upstream (front ++ e))

-- `ProxyError::into_response`
unfoldable pub into_response : ProxyError → HttpError
into_response unknown_peer = http_error 404 (lit "unknown or offline peer")
into_response unsupported_peer =
    http_error 501 (lit "that PC runs an older DocLink without this feature — update it")
into_response (upstream m) = http_error 502 m

-- `is_unsupported_route`
unfoldable pub is_unsupported_route : ℕ → Text → Bool
is_unsupported_route status body = status == 404 && is_empty (trim body)

-- `peer_lookup`, with the snapshot of the registry that it takes.
unfoldable pub peer_lookup : AppState → List Peer → Text → Result ProxyError PeerTarget
peer_lookup s peers id = do
  known ← or_err (find (λ c. c.node_id == id) s.contacts.content) unknown_peer
  elim (find (λ p. p.node_id == id) peers) [
    | some p ↦
        ok (record { base = peer_base_url p.addr p.http_port; fingerprint = known.fingerprint })
    | none ↦ elim known.host [
      | some h ↦ ok (record { base = lit "https://" ++ h; fingerprint = known.fingerprint })
      | none ↦ err unknown_peer
    ]
  ]

module _ (wire : Wire) where
  -- `upstream_message`
  unfoldable pub upstream_message : ℕ → Text → Text
  upstream_message status body =
      let raw = lit "peer returned " ++ wire.show_status status ++ lit ": " ++ body in
      elim (wire.error_of body) [ none ↦ raw | some e ↦ if is_empty e then raw else e ]

  -- A signed GET whose connection is pinned to the peer: the status and the body.
  unfoldable pub pinned_get : PeerTarget → Text → Result ProxyError (ℕ × Text)
  unfolding check
  pinned_get target path_q = do
    resp ← from_upstream [] (wire.send target.base path_q)
    pinned ← from_upstream [] (check resp.certificate (some target.fingerprint))
    body ← from_upstream [] resp.body
    ok (resp.status, body)

  -- `list`, with the entries of the response.
  unfoldable pub list : AppState → List Peer → Text → Text → Result ProxyError (List DirEntry)
  unfolding peer_lookup pinned_get upstream_message
  list s peers id path = do
    target ← peer_lookup s peers id
    reply ← pinned_get target (lit "/v1/list?path=" ++ wire.encode path)
    guard (ok_status reply.0) (upstream (upstream_message reply.0 reply.1))
    from_upstream (lit "invalid peer response: ") (wire.list_of reply.1)

  -- `search`
  unfoldable pub search : AppState → List Peer → Text → Text → Result ProxyError SearchResponse
  unfolding peer_lookup pinned_get upstream_message is_unsupported_route
  search s peers id query = do
    target ← peer_lookup s peers id
    reply ← pinned_get target (lit "/v1/search?q=" ++ wire.encode query)
    guard (not (is_unsupported_route reply.0 reply.1)) unsupported_peer
    guard (ok_status reply.0) (upstream (upstream_message reply.0 reply.1))
    from_upstream (lit "invalid peer response: ") (wire.search_of reply.1)

-- The variables of `search_fallback`; the queue's front is its head.
pub record Walk : Type 0 where
  pub queue : List Text
  pub results : List DirEntry
  pub visited : ℕ
  pub truncated : Bool

abbrev pub max_visits : ℕ
max_visits = 1500

module _ (wire : Wire) (q_lower : Text) where
  -- One entry: a folder is queued, a file whose name has the query is a result.
  unfoldable pub visit : DirEntry → Walk → Walk
  visit e w =
      if is_dir e.kind
      then record w { queue = w.queue ++ (e.path ∷ []) }
      else if contains (wire.to_lowercase e.name) q_lower
      then record w { results = w.results ++ (e ∷ []) }
      else w

  -- The loop over the root's entries, which has no budget.
  unfoldable pub visit_root : List DirEntry → Walk → Walk
  unfolding visit
  visit_root [] w = w
  visit_root (e ∷ es) w = visit_root es (visit e (record w { visited = w.visited + 1 }))

  -- The loop over the entries of a folder.
  unfoldable pub visit_all : List DirEntry → Walk → Walk
  unfolding visit
  visit_all [] w = w
  visit_all (e ∷ es) w =
      let counted : Walk = record w { visited = w.visited + 1 } in
      let rest = visit_all es (visit e counted) in
      if ltb max_visits counted.visited then record counted { truncated = true } else rest

  -- A folder that cannot be listed is skipped.
  unfoldable pub visit_folder : Result ProxyError (List DirEntry) → Walk → Walk
  unfolding visit_all
  visit_folder (err e) w = w
  visit_folder (ok es) w = visit_all es w

  -- `while let Some(dir) = queue.pop_front()`, on fuel; `listed` is the call of `list`.
  unfoldable pub walk_loop : (Text → Result ProxyError (List DirEntry)) → ℕ → Walk → Option Walk
  unfolding visit_folder
  walk_loop listed zero w = none
  walk_loop listed (suc fuel) w = elim w.queue [
    | [] ↦ some w
    | d ∷ later ↦
        let popped : Walk = record w { queue = later } in
        let rest = walk_loop listed fuel (visit_folder (listed d) popped) in
        if leb max_visits w.visited || leb 200 (length w.results)
        then some (record popped { truncated = true })
        else rest
  ]

  -- All of `search_fallback` after the first listing of the root.
  unfoldable pub walk_from :
      (Text → Result ProxyError (List DirEntry)) → ℕ → List DirEntry → Option Walk
  unfolding visit_root walk_loop
  walk_from listed fuel first =
      walk_loop listed fuel (
        visit_root first (record { queue = [] ∷ []; results = []; visited = 0; truncated = false }))

-- `search_fallback`: the results and whether they are cut short.
unfoldable pub search_fallback :
    Wire
    → ℕ
    → AppState
    → List Peer
    → Text
    → Text
    → Result ProxyError (Option (List DirEntry × Bool))
unfolding list walk_from
search_fallback wire fuel s peers id query = do
  first ← list wire s peers id []
  ok (elim (walk_from wire (wire.to_lowercase query) (list wire s peers id) fuel first) [
    | none ↦ none
    | some w ↦ some (w.results, w.truncated)
  ])
