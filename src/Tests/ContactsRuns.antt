-- ===== src/Tests/ContactsRuns.antt =====
-- Runs of adding a PC.
use doc_link.Tests.{toy, alice, alice_laws, repeated, bob}
use doc_link.Protocol.{HttpError, http_error, lit, NodeInfo, PairStatus, PairStatusResponse}
use doc_link.Identity.{fingerprint}
use doc_link.Store.{Contact, upsert_contact}
use doc_link.Contacts.{Lan, normalize_id, signed_request, add_contact}
use doc_link.Contacts.Pinned.{IsPinned, add_contact-IsPinned, signed_request-checked}
use doc_link.Pairing.Handlers.{checked_request}
use doc_link.Base.Results.{ok, err}
use doc_link.Base.{if◌then◌else◌, ◌≡◌, refl, ◌⊎◌, true, none, some, []}

abbrev carol_info : NodeInfo
carol_info = record {
  node_id = repeated 16 b'c';
  name = lit "carol";
  version = lit "0.3";
  fingerprint = repeated 64 b'c';
  app_version = lit "0.5.0";
}

abbrev waiting : PairStatusResponse
waiting = record { status = PairStatus.pending; expires_unix = none }

-- A network on which every address is carol's.
abbrev lan : Lan
lan = record {
  snapshots = [];
  scan_enabled = true;
  find_node = λ id. some (lit "https://10.0.0.3:37655");
  get_info = λ base. ok (record { certificate = ok (repeated 64 b'C'); body = ok carol_info });
  post_request = λ base req. ok (record { certificate = ok (repeated 64 b'c'); body = ok waiting });
  get_status = λ url. err (lit "offline");
  to_lowercase = λ t. t;
  encode = λ t. t;
}

add_contact-IsPinned_example :
    ((e : HttpError) × (add_contact lan toy alice bob
          (repeated 16 b'c')
          (lit "Carol")
          none
          3600
          true
        ≡ (bob, err e)))
    ⊎ ((c : Contact) × (status : PairStatusResponse) × IsPinned lan toy alice bob
          (normalize_id lan (repeated 16 b'c'))
          3600
          c
          status
        × ((add_contact lan toy alice bob
              (repeated 16 b'c')
              (lit "Carol")
              none
              3600
              true).0.contacts.content
            ≡ upsert_contact bob.contacts.content c)
        × ((add_contact lan toy alice bob (repeated 16 b'c') (lit "Carol") none 3600 true).1
            ≡ (if true then ok status else err (http_error 500 (lit "write failed")))))
add_contact-IsPinned_example =
    add_contact-IsPinned lan toy alice bob (repeated 16 b'c') (lit "Carol") none 3600 true

abbrev alice_info : NodeInfo
alice_info = record {
  node_id = repeated 16 b'a';
  name = lit "alice";
  version = lit "0.3";
  fingerprint = repeated 32 b'a';
  app_version = lit "0.5.0";
}

signed_request-checked_example :
    checked_request toy (λ body. some (signed_request lan toy alice alice_info 3600)) []
    ≡ ok (signed_request lan toy alice alice_info 3600, fingerprint toy alice)
unfolding doc_link.Identity.node_id fingerprint
signed_request-checked_example =
    signed_request-checked lan toy alice alice_laws alice_info 3600
      (λ body. some (signed_request lan toy alice alice_info 3600)) [] refl refl
