-- ===== src/Serve.antt =====
-- The data plane's handlers of crates/doclinkd/src/server.rs: listing, downloading, searching and
-- uploading. What the share root and the inbox do is the record Share; the changed sizes of a file
-- between two reads are left out.
pub mod Walk
pub mod Permitted
use doc_link.Protocol.{HttpError, http_error, lit}
use doc_link.Identity.{Crypto}
use doc_link.State.{AppState}
use doc_link.Store.{Grant}
use doc_link.Scope.{DirEntry, is_dir, can_list, can_read_file, entry_visible}
use doc_link.Range.{ParsedRange, parse_range}
use doc_link.Auth.{AuthError, require_auth}
use doc_link.Events.{push}
use doc_link.Base.Map.{Map, lookup}
use doc_link.Base.Strings.{trim, contains}
use doc_link.Base.Results.{Result, ok, err, guard, or_err, ◌>>=◌, ◌>>◌}
use doc_link.Base.{ltb, leb, if◌then◌else◌, ◌==◌, Text, length, retain, ℕ, zero, suc, ◌+◌}
use doc_link.Base.{◌-◌, Bool, true, false, not, ◌&&◌, ◌||◌, Option, none, some, List, []}
use doc_link.Base.{◌∷◌, ◌++◌, text_eq, nat_eq}

-- `ShareError`
pub data ShareError : Type 0 where
  not_found outside_root is_root io : ShareError

-- What the handlers call of the share, the inbox and the library: `ShareRoot::list`, the length of
-- the file that `ShareRoot::resolve` finds, `InboxRoot::write_file` with the name it stores under,
-- `valid_name`, `str::to_lowercase` and `urlencoding::encode`.
pub record Share : Type 0 where
  pub list_dir : Text → Result ShareError (List DirEntry)
  pub file_length : Text → Result ShareError ℕ
  pub write_file : Text → List ℕ → Option Text
  pub valid_name : Text → Bool
  pub to_lowercase : Text → Text
  pub encode : Text → Text

abbrev pub search_visit_budget : ℕ
search_visit_budget = 20000

abbrev pub search_max_results : ℕ
search_max_results = 200

-- The variables of the loop in `search_scope`; the head of the stack is its top.
pub record Search : Type 0 where
  pub stack : List Text
  pub out : List DirEntry
  pub visited : ℕ
  pub truncated : Bool

-- Empty roots stand for the share root.
abbrev pub start_stack : List Text → List Text
start_stack [] = [] ∷ []
start_stack (r ∷ rs) = r ∷ rs

module _ (share : Share) where
  -- `matches_query`
  unfoldable pub matches_query : Text → Text → Bool
  matches_query name q_lower = contains (share.to_lowercase name) q_lower

  -- One entry of a directory that is within the budget.
  unfoldable pub take_entry : Text → DirEntry → Search → Search
  take_entry q_lower e s =
      if is_dir e.kind
      then record s { stack = e.path ∷ s.stack }
      else if matches_query e.name q_lower && ltb (length s.out) search_max_results
      then record s { out = s.out ++ (e ∷ []) }
      else s

  -- `for e in entries`
  unfoldable pub scan : Text → List DirEntry → Search → Search
  scan q_lower [] s = s
  scan q_lower (e ∷ es) s =
      let counted : Search = record s { visited = s.visited + 1 } in
      let rest = scan q_lower es (take_entry q_lower e counted) in
      if ltb search_visit_budget counted.visited then record counted { truncated = true } else rest

  -- The directory at the top of the stack; one that cannot be listed is skipped.
  unfoldable pub visit_dir : Text → Text → Search → Search
  visit_dir q_lower d s = elim (share.list_dir d) [
    | err e ↦ s
    | ok entries ↦ scan q_lower entries s
  ]

  -- `while let Some(dir) = stack.pop()`, on fuel.
  unfoldable pub search_loop : ℕ → Text → Search → Option Search
  search_loop zero q_lower s = none
  search_loop (suc fuel) q_lower s = elim s.stack [
    | [] ↦ some s
    | d ∷ below ↦
        let popped : Search = record s { stack = below } in
        let rest = search_loop fuel q_lower (visit_dir q_lower d popped) in
        if leb search_visit_budget s.visited || leb search_max_results (length s.out)
        then some (record popped { truncated = true })
        else rest
  ]

  -- `search_scope`
  unfoldable pub search_scope : ℕ → List Text → Text → Option (List DirEntry × Bool)
  search_scope fuel roots query =
      let begin : Search = record {
        stack = start_stack roots;
        out = [];
        visited = 0;
        truncated = false;
      } in
      elim (search_loop fuel (share.to_lowercase (trim query)) begin) [
        | none ↦ none
        | some s ↦ some (s.out, s.truncated)
      ]

abbrev pub auth_response : AuthError → HttpError
auth_response (status, code) = record { status = status; error = []; code = some code }

abbrev pub map_ok {ℓ} : {A : Type ℓ} → Result AuthError A → Result HttpError A
map_ok (ok a) = ok a
map_ok (err e) = err (auth_response e)

abbrev pub share_response : ShareError → HttpError
share_response not_found = http_error 404 (lit "path not found")
share_response outside_root = http_error 403 (lit "path outside share root")
share_response is_root = http_error 403 (lit "path outside share root")
share_response io = http_error 500 (lit "share read error")

abbrev pub map_share {ℓ} : {A : Type ℓ} → Result ShareError A → Result HttpError A
map_share (ok a) = ok a
map_share (err e) = err (share_response e)

-- What a listing shows of the entries.
unfoldable pub shown : List Text → List DirEntry → List DirEntry
shown [] entries = entries
shown (p ∷ ps) entries = retain (λ e. entry_visible (p ∷ ps) e.path e.kind) entries

-- `list`, once the grant is known.
unfoldable pub list_for : Share → Grant → Text → Result HttpError (List DirEntry)
list_for share grant path = do
  guard grant.allow_files (http_error 403 (lit "printing-only grant cannot browse files"))
  guard (can_list grant.paths path) (http_error 403 (lit "path outside grant scope"))
  entries ← map_share (share.list_dir path)
  ok (shown grant.paths entries)

-- The bytes that are sent: the first, the number of them, and whether it is a part.
abbrev pub Sent : Type 0
Sent = ℕ × ℕ × Bool

-- The `match` on the range of a file that has bytes.
unfoldable pub sent_part : ParsedRange → ℕ → Result HttpError Sent
sent_part ParsedRange.unsatisfiable total =
    err (http_error 416 (lit "requested range is beyond the end of the file"))
sent_part ParsedRange.full total = ok (0, total, false)
sent_part (ParsedRange.partial first last) total = ok (first, last - first + 1, true)

-- For an empty file nothing is sent.
unfoldable pub sent_range : Option Text → ℕ → Result HttpError Sent
sent_range hdr total =
    if total == 0 then ok (0, 0, false) else sent_part (parse_range hdr total) total

-- `file`, once the grant is known.
unfoldable pub file_for : Share → Grant → Text → Option Text → Result HttpError Sent
file_for share grant path range = do
  guard grant.allow_files (http_error 403 (lit "printing-only grant cannot download files"))
  guard (can_read_file grant.paths path) (http_error 403 (lit "path outside grant scope"))
  total ← map_share (share.file_length path)
  sent_range range total

module _ (C : Crypto) (share : Share) (headers : Map Text Text) (s : AppState)
    (now_ts now_seen now : ℕ) where
  -- `list`
  unfoldable pub list : Text → AppState × Result HttpError (List DirEntry)
  list path =
      let path_q = lit "/v1/list?path=" ++ share.encode path in
      let (after, grant) = require_auth C headers (lit "GET") path_q [] s now_ts now_seen now in
      (after, map_ok grant >>= λ g. list_for share g path)

  -- `file`
  unfoldable pub download : Text → AppState × Result HttpError Sent
  download path =
      let path_q = lit "/v1/file?path=" ++ share.encode path in
      let (after, grant) = require_auth C headers (lit "GET") path_q [] s now_ts now_seen now in
      (after, map_ok grant >>= λ g. file_for share g path (lookup (lit "range") headers))

  -- The name, the grant and the size are checked before the file is stored.
  unfoldable pub upload_for : ℕ → Grant → Text → List ℕ → Result HttpError Text
  upload_for inbox_max_size g name body = do
    guard g.allow_files (http_error 403 (lit "printing-only grant cannot send files"))
    guard (leb (length body) inbox_max_size)
        (http_error 413 (lit "file exceeds the receiving PC's inbox size limit"))
    or_err (share.write_file name body) (http_error 500 (lit "inbox write failed"))

  -- `upload`
  unfoldable pub upload : ℕ → Text → List ℕ → AppState × Result HttpError (Text × ℕ)
  upload inbox_max_size raw body =
      let name = trim raw in
      let path_q = lit "/v1/upload?name=" ++ share.encode name in
      let (after, grant) = require_auth C headers (lit "POST") path_q body s now_ts now_seen now in
      if not (share.valid_name name)
      then (s, err (http_error 400 (lit "invalid file name")))
      else elim grant [
        | err e ↦ (after, err (auth_response e))
        | ok g ↦ elim (upload_for inbox_max_size g name body) [
          | err e ↦ (after, err e)
          | ok stored ↦
              let (announced, _) =
                push after.events (lit "inbox-file") (g.name ++ lit " sent you " ++ stored)
                  (lit "Accept it into your shared folder, download it, or discard it.") now in
              (record after { events = announced }, ok (stored, length body))
        ]
      ]
