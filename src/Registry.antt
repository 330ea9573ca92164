-- ===== src/Registry.antt =====
-- The registry of peers of crates/doclink-core/src/discovery.rs, which the mDNS browser fills.
pub mod Fresh
use doc_link.Base.Map.{Map, lookup, insert, remove}
use doc_link.Base.{ltb, Text, retain, ℕ, ◌-◌, not, none, some, text_eq, nat_eq}

-- `PEER_TTL_SECS`
abbrev pub peer_ttl_secs : ℕ
peer_ttl_secs = 300

pub record Peer : Type 0 where
  pub node_id : Text
  pub name : Text
  pub addr : Text
  pub http_port : ℕ
  pub fingerprint : Text
  pub last_seen_unix : ℕ

-- `PeerRegistry`
abbrev pub PeerRegistry : Type 0
PeerRegistry = Map Text Peer

-- `PeerRegistry::snapshot`: what is left, of which the caller gets the values.
unfoldable pub snapshot : PeerRegistry → ℕ → PeerRegistry
snapshot peers now = retain (λ e. not (ltb peer_ttl_secs (now - e.1.last_seen_unix))) peers

-- `PeerRegistry::upsert`
unfoldable pub upsert_peer : PeerRegistry → Peer → PeerRegistry
upsert_peer peers p = insert p.node_id p peers

-- `PeerRegistry::touch`
unfoldable pub touch : PeerRegistry → Text → ℕ → PeerRegistry
touch peers id now = elim (lookup id peers) [
  | none ↦ peers
  | some p ↦ insert id (record p { last_seen_unix = now }) peers
]

-- `PeerRegistry::remove`
unfoldable pub remove_peer : PeerRegistry → Text → PeerRegistry
remove_peer peers id = remove id peers
