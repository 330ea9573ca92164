-- ===== src/Pairing/Decisions.antt =====
-- What the owner's decision does, `apply_decision_with_perms` of crates/doclinkd/src/server.rs, and
-- what the requester is told about it afterwards.
use doc_link.Protocol.{PairStatus, lit}
use doc_link.Identity.{Crypto, fingerprint_from_pubkey_hex}
use doc_link.State.{PairRequestEntry, PairingState}
use doc_link.Store.{Store, Grant, GrantsFile, save}
use doc_link.Store.Grants.{OnePerFingerprint, find_fingerprint, upsert_lem}
use doc_link.Base.Map.{lookup, remove, lookup-remove, lookup-remove_self, lookup-insert}
use doc_link.Base.Results.{ok, err}
use doc_link.Pairing.{
  remember_decision, response, expiry, unwrap_or, approve, apply_decision_with_perms,
}
use doc_link.Base.{if◌then◌else◌, ◌==◌, Text, ℕ, ◌≡◌, refl, Bool, true, false, not}
use doc_link.Base.{◌&&◌, ◌||◌, Option, none, some, [], arith, text_eq, nat_eq}
use doc_link.Base.{beq_refl, ◌∙◌}

unqueued :
    (C : Crypto) (p : PairingState) (grants : Store GrantsFile) (id decision : Text)
    (duration_secs : ℕ) (allow_files allow_print : Option Bool) (now : ℕ) (writable : Bool)
    → lookup id p.pending ≡ none
    → apply_decision_with_perms C p grants id decision duration_secs allow_files allow_print now
        writable
      ≡ (p, grants, err (lit "no pending request from this node"))
unfolding apply_decision_with_perms
unqueued C p grants id decision duration_secs allow_files allow_print now writable gone =
    rw (gone, apply_decision_with_perms) refl

module _ (C : Crypto) (p : PairingState) (grants : Store GrantsFile) (id decision : Text)
    (duration_secs : ℕ) (allow_files allow_print : Option Bool) (now : ℕ) (writable : Bool)
    (entry : PairRequestEntry) (queued : lookup id p.pending ≡ some entry) where
  deny_value :
      (decision == lit "approve") ≡ false
      → apply_decision_with_perms C p grants id decision duration_secs allow_files allow_print now
          writable
        ≡ (
          remember_decision
              (record p { pending = remove id p.pending })
              id
              (response PairStatus.denied none)
              now,
          grants,
          ok (response PairStatus.denied none),
        )
  unfolding apply_decision_with_perms
  deny_value refuse =
      rw (queued, apply_decision_with_perms) rw (refuse, apply_decision_with_perms) refl

  approve_value :
      (decision == lit "approve") ≡ true
      → apply_decision_with_perms C p grants id decision duration_secs allow_files allow_print now
          writable
        ≡ (
          record p { pending = remove id p.pending },
          (approve C grants entry.request duration_secs allow_files allow_print now writable).0,
          (approve C grants entry.request duration_secs allow_files allow_print now writable).1,
        )
  unfolding apply_decision_with_perms
  approve_value accept =
      rw (queued, apply_decision_with_perms) rw (accept, apply_decision_with_perms) refl

  -- A request that is queued and answered with anything but "approve" is denied: it leaves the
  -- queue and no other request does, the denial is what a lookup of the decisions finds, the grants
  -- and their file stay as they are, and the answer is the denial.
  pub apply_decision-deny :
      (decision == lit "approve") ≡ false
      → let (q, stored, answer) =
          apply_decision_with_perms C p grants id decision duration_secs allow_files allow_print now
            writable in
        ((j : Text) → lookup j q.pending ≡ (if id == j then none else lookup j p.pending))
        × (lookup id q.decisions ≡ some (response PairStatus.denied none, now))
        × (stored ≡ grants)
        × (answer ≡ ok (response PairStatus.denied none))
  unfolding remember_decision
  apply_decision-deny refuse = rw (deny_value refuse) (
    λ j. lookup-remove j id p.pending,
    lookup-insert id id _ _ ∙ rw (beq_refl id) refl,
    refl,
    refl,
  )

  -- A request that is queued and approved, with a permission left and a public key that can be
  -- read, becomes a grant when the file can be written: the request leaves the queue, the grant found
  -- for its fingerprint is the new one (whole share, the chosen permissions, expiring after the
  -- duration, or never for 0), every other fingerprint's grant is as before, one grant is stored per
  -- fingerprint, the file holds the grants in memory, and the answer is the approval.
  pub apply_decision-approve :
      (fp : Text)
      → (decision == lit "approve") ≡ true
      → unwrap_or true allow_files || unwrap_or false allow_print ≡ true
      → fingerprint_from_pubkey_hex C entry.request.pubkey_hex ≡ ok fp
      → writable ≡ true
      → OnePerFingerprint grants.content
      → let (q, stored, answer) =
          apply_decision_with_perms C p grants id decision duration_secs allow_files allow_print now
            writable in
        let g : Grant = record {
          fingerprint = fp;
          node_id = entry.request.node_id;
          name = entry.request.name;
          granted_unix = now;
          expires_unix = expiry now duration_secs;
          paths = [];
          allow_files = unwrap_or true allow_files;
          allow_print = unwrap_or false allow_print;
        } in
        (lookup id q.pending ≡ none)
        × ((x : Text)
            → find_fingerprint x stored.content
              ≡ (if fp == x then some g else find_fingerprint x grants.content))
        × OnePerFingerprint stored.content
        × (stored.on_disk ≡ some stored.content)
        × (answer ≡ ok (response PairStatus.approved (expiry now duration_secs)))
  unfolding approve save
  apply_decision-approve fp accept some_use key w u =
      let some_left : not (unwrap_or true allow_files) && not (unwrap_or false allow_print)
          ≡ false =
        ground arith in
      let g : Grant = record {
        fingerprint = fp;
        node_id = entry.request.node_id;
        name = entry.request.name;
        granted_unix = now;
        expires_unix = expiry now duration_secs;
        paths = [];
        allow_files = unwrap_or true allow_files;
        allow_print = unwrap_or false allow_print;
      } in
      let (one, found) = upsert_lem grants.content g u in
      rw (approve_value accept) rw (some_left, approve) rw (key, approve) rw (w, save)
        (lookup-remove_self id p.pending, found, one, refl, refl)

  -- An approval without any permission is refused, and the request is lost all the same: the grants
  -- stay as they are, but the request is out of the queue, and a second decision, whatever it says,
  -- is refused for want of a request.
  pub apply_decision-loses_request :
      (decision == lit "approve") ≡ true
      → unwrap_or true allow_files || unwrap_or false allow_print ≡ false
      → (decision2 : Text) (duration2 : ℕ) (files2 print2 : Option Bool) (now2 : ℕ)
        (writable2 : Bool)
      → let (q, stored, answer) =
          apply_decision_with_perms C p grants id decision duration_secs allow_files allow_print now
            writable in
        (stored ≡ grants)
        × (answer ≡ err (lit "grant must allow at least files or printing"))
        × (apply_decision_with_perms C q stored id decision2 duration2 files2 print2 now2 writable2
            ≡ (q, stored, err (lit "no pending request from this node")))
  unfolding apply_decision_with_perms approve
  apply_decision-loses_request accept no_use decision2 duration2 files2 print2 now2 writable2 =
      let none_left : not (unwrap_or true allow_files) && not (unwrap_or false allow_print) ≡ true =
        ground arith in
      rw (approve_value accept) rw (none_left, approve)
        (
          refl,
          refl,
          unqueued C (record p { pending = remove id p.pending }) grants id decision2 duration2
              files2 print2 now2 writable2 (lookup-remove_self id p.pending),
        )
