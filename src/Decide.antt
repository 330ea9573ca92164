-- ===== src/Decide.antt =====
-- The owner's decision on a pair request, `decide_request` of crates/doclinkd/src/admin.rs. The push
-- of the decision to the requester, whose outcome is ignored, is left out.
use doc_link.Protocol.{PairStatusResponse, HttpError, http_error, lit}
use doc_link.Identity.{Crypto}
use doc_link.State.{AppState}
use doc_link.Pairing.{apply_decision_with_perms}
use doc_link.Base.Results.{Result, ok, err}
use doc_link.Base.{if◌then◌else◌, ◌==◌, Text, ℕ, Bool, Option, text_eq, nat_eq}

-- The status of a refused decision.
unfoldable pub decision_error : Text → HttpError
decision_error e =
    http_error (if e == lit "grant must allow at least files or printing" then 400 else 404) e

-- `decide_request`
unfoldable pub decide_request :
    Crypto
    → AppState
    → Text
    → Text
    → ℕ
    → Option Bool
    → Option Bool
    → ℕ
    → Bool
    → AppState × Result HttpError PairStatusResponse
decide_request C s id decision duration_secs allow_files allow_print now writable =
    let (pairing, grants, answer) =
      apply_decision_with_perms C s.pairing s.grants id decision duration_secs allow_files
        allow_print now writable in
    (
      record s { pairing = pairing; grants = grants },
      (elim answer [ ok resp ↦ ok resp | err e ↦ err (decision_error e) ]),
    )
