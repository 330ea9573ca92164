-- ===== src/Tests/AuthRuns.antt =====
-- Runs of the authentication: one request of alice's to bob.
use doc_link.Tests.{toy, alice, alice_laws, alice_grant, bob, repeated}
use doc_link.Protocol.{lit}
use doc_link.Identity.{node_id, fingerprint, auth_headers_body, canonical_peer_request}
use doc_link.Auth.{abs_diff, reject_replays, require_auth}
use doc_link.Auth.Complete.{auth_headers_body-accepted}
use doc_link.Base.Results.{ok}
use doc_link.Base.Map.{Map, contains_key}
use doc_link.Base.{Text, retain, find, ◌≡◌, refl, [], ◌∷◌, arith, text_eq, nat_eq}
use doc_link.Base.{text_beq, Elem, ◌+◌, true, false}
use doc_link.Auth.Replay.{replay_after_window, run_replays, replay_refused}
use doc_link.Store.{is_live}
use doc_link.Auth.Sound.{IsVerified, require_auth-accepts}
use doc_link.Base.Decimal.{to_decimal}
use doc_link.Identity.{fingerprint_from_pubkey_hex}

abbrev get : Text
get = lit "GET"

abbrev path : Text
path = lit "/v1/list?path="

abbrev sent : Map Text Text
sent = auth_headers_body toy alice get path [] 1000 (1 ∷ [])

auth_headers_body-accepted_example :
    (require_auth toy
      (auth_headers_body toy alice get path [] 1000 (1 ∷ []))
      get
      path
      []
      bob
      1300
      1300
      1300).1
    ≡ ok alice_grant
unfolding node_id fingerprint find reject_replays contains_key retain abs_diff text_beq
auth_headers_body-accepted_example =
    auth_headers_body-accepted toy alice alice_laws get path [] (1 ∷ []) 1000 bob alice_grant 1300
      1300 1300 (omega arith) (omega arith) refl refl refl refl

sent_accepted : (require_auth toy sent get path [] bob 1300 1300 1300).1 ≡ ok alice_grant
unfolding node_id fingerprint find reject_replays contains_key retain abs_diff text_beq
sent_accepted =
    auth_headers_body-accepted toy alice alice_laws get path [] (1 ∷ []) 1000 bob alice_grant 1300
      1300 1300 (omega arith) (omega arith) refl refl refl refl

require_auth-accepts_example :
    Elem alice_grant bob.grants.content
    × ((is_live 1300 alice_grant.expires_unix ≡ true)
        × ((pk : Text) × ((sig : Text) × (IsVerified toy sent get path [] 1300 alice_grant.node_id
                  pk sig
                × ((fingerprint_from_pubkey_hex toy pk ≡ ok alice_grant.fingerprint)
                    × ((reject_replays bob.seen_sigs sig 1300).1 ≡ true))))))
require_auth-accepts_example =
    require_auth-accepts toy sent get path [] bob 1300 1300 1300 alice_grant sent_accepted

replay_refused_example :
    (reject_replays
      (run_replays (reject_replays [] (1 ∷ []) 100).0 ((2 ∷ [], 200) ∷ []))
      (1 ∷ [])
      900).1
    ≡ false
replay_refused_example =
    replay_refused [] (1 ∷ []) 100 900 ((2 ∷ [], 200) ∷ []) tt ((omega arith, omega arith), tt)
      (omega arith) (omega arith)

-- A request with a timestamp 500 seconds ahead of bob's clock.
abbrev ahead : Map Text Text
ahead = auth_headers_body toy alice get path [] 1500 (1 ∷ [])

abbrev ahead_sig : Text
ahead_sig = alice.sign_bytes (canonical_peer_request toy get path (to_decimal 1500) (1 ∷ []) [])

replay_after_window_example :
    (require_auth toy ahead get path []
      (require_auth toy ahead get path [] bob 1000 1000 1000).0
      (1000 + 901)
      (1000 + 901)
      (1000 + 901)).1
    ≡ ok alice_grant
unfolding doc_link.Auth.verify_signed_headers doc_link.Base.Map.lookup auth_headers_body text_beq
    lit doc_link.Base.Decimal.parse_unsigned to_decimal abs_diff doc_link.Identity.verify
    canonical_peer_request doc_link.Base.Utf8.from_utf8_lossy node_id fingerprint
    doc_link.Auth.check_grant find fingerprint_from_pubkey_hex
replay_after_window_example =
    replay_after_window toy ahead get path [] bob 1000 (repeated 16 b'a') (repeated 32 b'a')
      ahead_sig alice_grant tt refl refl refl
