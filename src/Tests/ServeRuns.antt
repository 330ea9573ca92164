-- ===== src/Tests/ServeRuns.antt =====
-- Runs of the data plane's handlers, on a share with one folder and one file.
use doc_link.Tests.{toy, alice, alice_grant, bob}
use doc_link.Protocol.{lit}
use doc_link.Identity.{auth_headers_body}
use doc_link.Store.{Grant}
use doc_link.Scope.{DirEntry, EntryKind, is_dir, can_list, can_read_file}
use doc_link.Auth.{require_auth}
use doc_link.Serve.{
  Share, ShareError, search_max_results, matches_query, search_scope, list, download,
}
use doc_link.Serve.Walk.{search_scope_lem}
use doc_link.Serve.Permitted.{IsShown, list-permitted, download-permitted}
use doc_link.Base.Map.{Map}
use doc_link.Search.{
  FileMeta, SearchResponse, search_for, search_response, search_roots, direct_hits,
}
use doc_link.Search.Flag.{search_for-never_truncated}
use doc_link.Base.{Option, if◌then◌else◌}
use doc_link.Serve.{search_loop, visit_dir, scan, take_entry}
use doc_link.Base.Strings.{trim_start, trim_end, contains, starts_with, is_whitespace}
use doc_link.Base.Strings.{trim}
use doc_link.Base.Results.{Result, ok, err}
use doc_link.Base.{Text, text_beq, length, retain, any, find, All, ℕ, ◌+◌, ◌≤◌, ◌≡◌, refl}
use doc_link.Base.{Bool, true, false, none, some, List, [], ◌∷◌, ◌++◌, arith, text_eq}
use doc_link.Base.{nat_eq}

abbrev report : DirEntry
report = record {
  name = lit "report";
  path = lit "report";
  kind = EntryKind.file;
  size = 10;
  modified_unix = none;
}

-- The root lists the file; nothing else can be listed.
listed : Text → Result ShareError (List DirEntry)
listed [] = ok (report ∷ [])
listed (c ∷ s) = err ShareError.not_found

abbrev share : Share
share = record {
  list_dir = listed;
  file_length = λ p. ok 10;
  write_file = λ n b. some n;
  valid_name = λ n. true;
  to_lowercase = λ t. t;
  encode = λ t. t;
}

abbrev root : Text
root = []

abbrev report_path : Text
report_path = lit "report"

abbrev no_roots : List Text
no_roots = []

abbrev list_headers : Map Text Text
list_headers = auth_headers_body toy alice (lit "GET") (lit "/v1/list?path=") [] 1000 (1 ∷ [])

abbrev file_headers : Map Text Text
file_headers = auth_headers_body toy alice (lit "GET") (lit "/v1/file?path=report") [] 1000 (1 ∷ [])

search_scope_lem_example :
    (out : List DirEntry) × (truncated : Bool) × (search_scope share 20002 no_roots (lit "port")
      ≡ some (out, truncated))
    × (length out ≤ search_max_results)
    × All
        (λ e.
          (is_dir e.kind ≡ false)
          × (matches_query share e.name (share.to_lowercase (trim (lit "port"))) ≡ true))
        out
search_scope_lem_example = search_scope_lem share 20002 no_roots (lit "port") (omega arith)

list-permitted_example :
    (g : Grant) × ((require_auth toy list_headers
        (lit "GET")
        (lit "/v1/list?path=" ++ share.encode root)
        []
        bob
        1300
        1300
        1300).1
      ≡ ok g)
    × (g.allow_files ≡ true)
    × (can_list g.paths root ≡ true)
    × IsShown g.paths (report ∷ [])
unfolding doc_link.Serve.list download require_auth doc_link.Auth.verify_signed_headers
    doc_link.Base.Map.lookup auth_headers_body doc_link.Base.text_beq lit
    doc_link.Base.Decimal.parse_unsigned doc_link.Base.Decimal.to_decimal doc_link.Auth.abs_diff
    doc_link.Identity.verify doc_link.Identity.canonical_peer_request
    doc_link.Base.Utf8.from_utf8_lossy doc_link.Auth.reject_replays doc_link.Base.Map.contains_key
    doc_link.Base.retain doc_link.Auth.check_grant doc_link.Base.find doc_link.Base.Map.insert
    doc_link.Identity.fingerprint doc_link.Identity.fingerprint_from_pubkey_hex
    doc_link.Identity.node_id can_list doc_link.Serve.list_for doc_link.Serve.shown
    doc_link.Serve.file_for can_read_file doc_link.Serve.sent_range doc_link.Serve.sent_part
    doc_link.Range.parse_range doc_link.Base.any listed
list-permitted_example =
    list-permitted toy share list_headers bob 1300 1300 1300 root (report ∷ []) refl

download-permitted_example :
    (g : Grant) × ((require_auth toy file_headers
        (lit "GET")
        (lit "/v1/file?path=" ++ share.encode report_path)
        []
        bob
        1300
        1300
        1300).1
      ≡ ok g)
    × (g.allow_files ≡ true)
    × (can_read_file g.paths report_path ≡ true)
    × ((total : ℕ) × (share.file_length report_path ≡ ok total) × (0 + 10 ≤ total))
unfolding doc_link.Serve.list download require_auth doc_link.Auth.verify_signed_headers
    doc_link.Base.Map.lookup auth_headers_body doc_link.Base.text_beq lit
    doc_link.Base.Decimal.parse_unsigned doc_link.Base.Decimal.to_decimal doc_link.Auth.abs_diff
    doc_link.Identity.verify doc_link.Identity.canonical_peer_request
    doc_link.Base.Utf8.from_utf8_lossy doc_link.Auth.reject_replays doc_link.Base.Map.contains_key
    doc_link.Base.retain doc_link.Auth.check_grant doc_link.Base.find doc_link.Base.Map.insert
    doc_link.Identity.fingerprint doc_link.Identity.fingerprint_from_pubkey_hex
    doc_link.Identity.node_id can_list doc_link.Serve.list_for doc_link.Serve.shown
    doc_link.Serve.file_for can_read_file doc_link.Serve.sent_range doc_link.Serve.sent_part
    doc_link.Range.parse_range doc_link.Base.any
download-permitted_example =
    download-permitted toy share file_headers bob 1300 1300 1300 report_path 0 10 false refl

abbrev no_meta : FileMeta
no_meta p = none

abbrev hits : SearchResponse
hits = record { query = lit "port"; truncated = false; results = report ∷ [] }

search_for-never_truncated_example : (hits.truncated ≡ false) × (alice_grant.allow_files ≡ true)
unfolding search_for search_scope search_loop visit_dir listed scan take_entry matches_query
    search_response search_roots direct_hits lit trim trim_start trim_end contains starts_with
    is_whitespace
search_for-never_truncated_example =
    search_for-never_truncated share no_meta 5 alice_grant (lit "port") hits refl

abbrev item : Text
item = lit "a/b"

abbrev entry : Text → Text → EntryKind → DirEntry
entry name path kind = record {
  name = name;
  path = path;
  kind = kind;
  size = 1;
  modified_unix = none;
}

-- A share with the folder a that has the files b and c.
unfoldable folder_a : Text → Option (List DirEntry)
folder_a [] = some (entry (lit "a") (lit "a") EntryKind.dir ∷ [])
folder_a (c ∷ s) =
    if text_beq (c ∷ s) (lit "a")
    then some
        (entry (lit "b") item EntryKind.file ∷ entry (lit "c") (lit "a/c") EntryKind.file ∷ [])
    else none

-- One grant of the whole share and one of the folder; the first is wanted.
abbrev two_grants : List Grant
two_grants = alice_grant ∷ record alice_grant { fingerprint = lit "f"; paths = lit "a" ∷ [] } ∷ []
