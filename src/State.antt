-- ===== src/State.antt =====
-- The state of the daemon, `Inner` of crates/doclinkd/src/server.rs, as far as the authentication
-- and the pairing use it. A mutex guards each field and no handler holds two at once across a wait,
-- so a handler is a step from one state to the next.
use doc_link.Protocol.{NodeInfo, PairRequest, PairStatusResponse}
use doc_link.Store.{Store, GrantsFile, ContactsFile}
use doc_link.Events.{Events}
use doc_link.Base.{Text, ℕ}
use doc_link.Base.Map.{Map}

pub record PairRequestEntry : Type 0 where
  pub request : PairRequest
  pub received_unix : ℕ

pub record PairingState : Type 0 where
  pub pending : Map Text PairRequestEntry
  pub decisions : Map Text (PairStatusResponse × ℕ)

pub record AppState : Type 0 where
  pub node : NodeInfo
  pub grants : Store GrantsFile
  pub contacts : Store ContactsFile
  pub pairing : PairingState
  pub seen_sigs : Map Text ℕ
  pub events : Events
