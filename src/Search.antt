-- ===== src/Search.antt =====
-- The search and print endpoints of crates/doclinkd/src/server.rs. Paths are ordered by their code
-- points, which is the order of their bytes.
pub mod Flag
use doc_link.Protocol.{HttpError, http_error, lit}
use doc_link.Identity.{Crypto}
use doc_link.State.{AppState}
use doc_link.Store.{Grant}
use doc_link.Scope.{DirEntry, EntryKind, slash}
use doc_link.Auth.{require_auth}
use doc_link.Events.{push}
use doc_link.Serve.{Share, matches_query, search_scope, auth_response}
use doc_link.Base.Map.{Map}
use doc_link.Base.Sort.{sort_by, text_le}
use doc_link.Base.Strings.{trim, contains, is_empty, rsplit_once}
use doc_link.Base.Results.{Result, ok, err, guard, ◌>>=◌, ◌>>◌}
use doc_link.Base.{ltb, leb, if◌then◌else◌, ◌==◌, Text, length, take, ℕ, Bool, true, false}
use doc_link.Base.{not, ◌&&◌, ◌||◌, Option, none, some, List, [], ◌∷◌, ◌++◌, text_eq}
use doc_link.Base.{nat_eq}

-- `roots.sort()`
unfoldable pub sort : List Text → List Text
unfolding sort_by text_le
sort = sort_by text_le

-- `roots.dedup()`
unfoldable pub dedup : List Text → List Text
dedup [] = []
dedup (t ∷ []) = t ∷ []
dedup (t ∷ u ∷ us) = let rest = dedup (u ∷ us) in if t == u then rest else t ∷ rest

-- The walk's targets: the share root for a full grant, else the granted paths.
unfoldable pub search_roots : List Text → List Text
search_roots [] = [] ∷ []
search_roots (p ∷ ps) = dedup (sort (p ∷ ps))

-- `p.rsplit('/').next()`
unfoldable pub last_name : Text → Text
last_name p = elim (rsplit_once slash p) [ none ↦ p | some (above, n) ↦ n ]

-- The size and the time of the file that a granted path names, if it names one.
abbrev pub FileMeta : Type 0
FileMeta = Text → Option (ℕ × Option ℕ)

-- A granted file whose own name matches.
unfoldable pub direct_hit : Share → FileMeta → Text → Text → List DirEntry
direct_hit share meta q_lower p = elim (meta p) [
  | none ↦ []
  | some (size, modified) ↦
      if matches_query share (last_name p) q_lower
      then record {
        name = last_name p;
        path = p;
        kind = EntryKind.file;
        size = size;
        modified_unix = modified;
      }
        ∷ []
      else []
]

unfoldable pub direct_hits : Share → FileMeta → Text → List Text → List DirEntry
direct_hits share meta q_lower [] = []
direct_hits share meta q_lower (p ∷ ps) =
    direct_hit share meta q_lower p ++ direct_hits share meta q_lower ps

-- `SearchResponse`
pub record SearchResponse : Type 0 where
  pub query : Text
  pub truncated : Bool
  pub results : List DirEntry

-- The end of `search`: the walk's hits behind the direct ones.
unfoldable pub search_response : Text → List DirEntry → List DirEntry × Bool → SearchResponse
search_response query direct (results, truncated) = record {
  query = query;
  truncated = if truncated then false else truncated;
  results = direct ++ results;
}

-- `search`, once the grant is known, on fuel for the walk.
unfoldable pub search_for :
    Share → FileMeta → ℕ → Grant → Text → Option (Result HttpError SearchResponse)
search_for share meta fuel g raw =
    let query = trim raw in
    let roots = search_roots g.paths in
    let direct = direct_hits share meta (share.to_lowercase query) g.paths in
    if not g.allow_files
    then some (err (http_error 403 (lit "printing-only grant cannot search")))
    else if ltb (length query) 2
    then some (err (http_error 400 (lit "search term must be at least 2 characters")))
    else elim (search_scope share fuel roots query) [
      | none ↦ none
      | some found ↦ some (ok (search_response query direct found))
    ]

-- `search`
unfoldable pub search :
    Crypto
    → Share
    → FileMeta
    → ℕ
    → Map Text Text
    → AppState
    → ℕ
    → ℕ
    → ℕ
    → Text
    → AppState × Option (Result HttpError SearchResponse)
search C share meta fuel headers s now_ts now_seen now raw =
    let path_q = lit "/v1/search?q=" ++ share.encode raw in
    let (after, grant) = require_auth C headers (lit "GET") path_q [] s now_ts now_seen now in
    elim grant [
      | err e ↦ (after, some (err (auth_response e)))
      | ok g ↦ (after, search_for share meta fuel g raw)
    ]

-- The local PrintLink agent: a pairing token, and a job with its token, name and bytes.
pub record PrintLink : Type 0 where
  pub ensure_paired : Result Text Text
  pub submit_job : Text → Text → List ℕ → Result Text (Unit {0})

-- `MAX_JOB_BYTES` of local_print.rs: 100 MiB.
abbrev pub max_job_bytes : ℕ
max_job_bytes = 104857600

-- The answer to a job that the agent does not take.
unfoldable pub print_error : Text → HttpError
print_error msg = http_error (if contains msg (lit "offline") then 503 else 502) msg

abbrev map_error {ℓ} : {A : Type ℓ} → (Text → HttpError) → Result Text A → Result HttpError A
map_error f (ok a) = ok a
map_error f (err e) = err (f e)

-- `print_via_local`, once the grant is known.
unfoldable pub print_for : PrintLink → Grant → Text → List ℕ → Result HttpError (Unit {0})
print_for agent g name body = do
  guard g.allow_print (http_error 403 (lit "grant does not allow printing"))
  guard (not (is_empty body)) (http_error 400 (lit "empty file"))
  guard (leb (length body) max_job_bytes)
      (http_error 413 (lit "file exceeds PrintLink size limit (100 MiB)"))
  token ← map_error (λ e. http_error 502 (lit "local PrintLink: " ++ e)) agent.ensure_paired
  map_error print_error (agent.submit_job token name body)

-- `print_via_local`
unfoldable pub print_via_local :
    Crypto
    → Share
    → PrintLink
    → Map Text Text
    → AppState
    → ℕ
    → ℕ
    → ℕ
    → Text
    → List ℕ
    → AppState × Result HttpError (Unit {0})
print_via_local C share agent headers s now_ts now_seen now raw body =
    let name = if is_empty (trim raw) then lit "document" else trim raw in
    let path_q = lit "/v1/print?name=" ++ share.encode name in
    let (after, grant) = require_auth C headers (lit "POST") path_q body s now_ts now_seen now in
    elim grant [
      | err e ↦ (after, err (auth_response e))
      | ok g ↦ elim (print_for agent g name body) [
        | err e ↦ (after, err e)
        | ok u ↦
            let (announced, _) =
              push after.events (lit "print-job")
                (g.name ++ lit " printed " ++ name ++ lit " on this PC")
                (lit "Sent to the default printer via PrintLink.") now in
            (record after { events = announced }, ok tt)
      ]
    ]
