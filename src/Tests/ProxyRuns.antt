-- ===== src/Tests/ProxyRuns.antt =====
-- Runs of the calls to other PCs.
use doc_link.Tests.{bob, repeated}
use doc_link.Protocol.{lit}
use doc_link.Scope.{DirEntry, EntryKind}
use doc_link.Registry.{Peer}
use doc_link.Proxy.{Wire, ProxyError, search_fallback}
use doc_link.Proxy.Doubled.{search_fallback-doubles}
use doc_link.Proxy.Ends.{search_fallback-ends}
use doc_link.Base.Results.{ok, err}
use doc_link.Base.{◌≡◌, refl, ◌⊎◌, Bool, false, none, some, List, [], ◌∷◌, arith}

abbrev plan : DirEntry
plan = record {
  name = lit "plan";
  path = lit "plan";
  kind = EntryKind.file;
  size = 4;
  modified_unix = none;
}

-- A network on which every PC has the one file, and the certificate of alice.
abbrev wire : Wire
wire = record {
  send = λ base path_q.
      ok (record { certificate = ok (repeated 32 b'a'); status = 200; body = ok [] });
  encode = λ t. t;
  to_lowercase = λ t. t;
  show_status = λ n. [];
  error_of = λ t. none;
  list_of = λ t. ok (plan ∷ []);
  search_of = λ t. err [];
}

abbrev alice_peer : Peer
alice_peer = record {
  node_id = repeated 16 b'a';
  name = lit "alice";
  addr = lit "10.0.0.2";
  http_port = 37655;
  fingerprint = [];
  last_seen_unix = 5;
}

abbrev here_now : List Peer
here_now = alice_peer ∷ []

search_fallback-ends_example :
    ((e : ProxyError) × (search_fallback wire 1503 bob here_now (lit "x") (lit "pl") ≡ err e))
    ⊎ ((results : List DirEntry) × (truncated : Bool) × (search_fallback wire 1503 bob here_now
            (lit "x")
            (lit "pl")
          ≡ ok (some (results, truncated))))
search_fallback-ends_example =
    search_fallback-ends wire 1503 bob here_now (lit "x") (lit "pl") (omega arith)

search_fallback-doubles_example :
    search_fallback wire 2 bob here_now alice_peer.node_id (lit "pl")
    ≡ ok (some (plan ∷ plan ∷ [], false))
unfolding doc_link.Proxy.list doc_link.Base.find doc_link.Base.text_beq
    doc_link.Base.Strings.to_ascii_lowercase doc_link.Base.retain doc_link.Base.Strings.contains lit
search_fallback-doubles_example =
    search_fallback-doubles wire 0 bob here_now alice_peer.node_id (lit "pl") (plan ∷ []) refl
      (refl, tt) (omega arith) (omega arith)
