-- ===== src/Tests.antt =====
-- Concrete data: a cipher that is easy to compute with, two nodes, and their states.
pub mod AuthRuns
pub mod PairingRuns
pub mod ServeRuns
pub mod ScopeRuns
pub mod StoreRuns
pub mod FilesRuns
pub mod ProxyRuns
pub mod ContactsRuns
pub mod UpdaterRuns
pub mod SettingsRuns
use doc_link.Protocol.{
  canonical_request_string, canonical_decision_string, PairDecision, NodeInfo, PairRequest,
  PairDecision, PairStatus, lit,
}
use doc_link.Identity.{Crypto, SigningKey, node_id, fingerprint}
use doc_link.State.{AppState, PairingState, PairRequestEntry}
use doc_link.Store.{Grant, Contact, Store, GrantsFile, ContactsFile}
use doc_link.Events.{no_events}
use doc_link.State.{PairRequestEntry}
use doc_link.Pairing.Bounded.{IsBounded}
use doc_link.Auth.Complete.{KeyLaws}
use doc_link.Base.{text_beq, text_beq_refl, ℕ, zero, suc, ◌+◌, ◌*◌, ◌%◌, refl, true, false}
use doc_link.Base.{none, some, List, [], ◌∷◌}
use doc_link.Base.{arith}

abbrev pub repeated : ℕ → ℕ → List ℕ
repeated zero b = []
repeated (suc n) b = b ∷ repeated n b

abbrev pub checksum : List ℕ → ℕ
checksum [] = 7
checksum (b ∷ bs) = (31 * checksum bs + b) % 256

-- Hex and hash leave the bytes as they are, and a signature is a checksum of the text.
abbrev pub toy : Crypto
toy = record {
  hex_encode = λ b. b;
  hex_decode = λ t. some t;
  sha256 = λ b. b;
  from_bytes = λ b. true;
  verify_strict = λ pk m sig. text_beq sig (checksum m ∷ repeated 63 0);
}

abbrev pub alice : SigningKey
alice = record { verifying_key = repeated 32 b'a'; sign_bytes = λ m. checksum m ∷ repeated 63 0 }

pub alice_laws : KeyLaws toy alice
alice_laws = record {
  decode_encode = λ b. refl;
  key_length = refl;
  key_valid = refl;
  sign_length = λ m. refl;
  sign_verifies = λ m. text_beq_refl (checksum m ∷ repeated 63 0);
}

abbrev pub alice_grant : Grant
alice_grant = record {
  fingerprint = repeated 32 b'a';
  node_id = repeated 16 b'a';
  name = lit "alice";
  granted_unix = 100;
  expires_unix = some 9000;
  paths = [];
  allow_files = true;
  allow_print = false;
}

abbrev pub grants_store : Store GrantsFile
grants_store = record { content = alice_grant ∷ []; on_disk = none }

abbrev pub alice_contact : Contact
alice_contact = record {
  node_id = repeated 16 b'a';
  alias = lit "alice";
  fingerprint = repeated 32 b'a';
  host = none;
  status = lit "pending";
}

abbrev pub contacts_store : Store ContactsFile
contacts_store = record { content = alice_contact ∷ []; on_disk = none }

abbrev pub bob_info : NodeInfo
bob_info = record {
  node_id = repeated 16 b'b';
  name = lit "bob";
  version = lit "0.2";
  fingerprint = repeated 32 b'b';
  app_version = lit "1";
}

abbrev pub idle : PairingState
idle = record { pending = []; decisions = [] }

abbrev pub bob : AppState
bob = record {
  node = bob_info;
  grants = grants_store;
  contacts = contacts_store;
  pairing = idle;
  seen_sigs = [];
  events = no_events;
}

abbrev pub draft_request : PairRequest
draft_request = record {
  node_id = repeated 16 b'a';
  name = lit "alice";
  pubkey_hex = repeated 32 b'a';
  requested_duration_secs = 60;
  signature = [];
}

abbrev pub alice_request : PairRequest
alice_request = record draft_request {
  signature = checksum (canonical_request_string draft_request) ∷ repeated 63 0;
}

abbrev pub draft_decision : PairDecision
draft_decision = record {
  requester_node_id = repeated 16 b'b';
  decision = lit "approve";
  duration_secs = 3600;
  pubkey_hex = repeated 32 b'a';
  signature = [];
}

abbrev pub alice_decision : PairDecision
alice_decision = record draft_decision {
  signature = checksum (canonical_decision_string draft_decision) ∷ repeated 63 0;
}

abbrev pub queue : PairingState
queue = record {
  pending = (repeated 16 b'a', record { request = alice_request; received_unix = 500 }) ∷ [];
  decisions = [];
}

abbrev pub waiting : PairRequestEntry
waiting = record { request = alice_request; received_unix = 500 }

pub idle-IsBounded : IsBounded idle
idle-IsBounded = record {
  pending_keys = tt;
  decision_keys = tt;
  few_pending = omega arith;
  few_decisions = omega arith;
}
