-- ===== src/Store/Grants.antt =====
-- The grant list of store.rs: one grant to a fingerprint, and pruning.
use doc_link.Store.{Grant, GrantsFile, is_live, upsert, prune_expired}
use doc_link.Store.Keyed.{
  find_key, OnePerKey, find_key-upsert, upsert-OnePerKey, retain-OnePerKey, find_key-retain,
}
use doc_link.Base.{if◌then◌else◌, ◌==◌, Text, retain, All, All-retain_test}
use doc_link.Base.{retain-All, retain_of_length, ℕ, ◌≡◌, true, false, Option, none}
use doc_link.Base.{some, arith, text_eq, nat_eq}

abbrev pub fingerprint_of : Grant → Text
fingerprint_of g = g.fingerprint

-- No fingerprint has two grants.
abbrev pub OnePerFingerprint : GrantsFile → Type 0
OnePerFingerprint = OnePerKey fingerprint_of

-- `grants.iter().find(|g| g.fingerprint == fp)`
abbrev pub find_fingerprint : Text → GrantsFile → Option Grant
find_fingerprint = find_key fingerprint_of

-- `upsert` keeps one grant to a fingerprint. Afterwards the fingerprint of the new grant finds the
-- new grant, and any other fingerprint finds what it found before.
pub upsert_lem :
    (gs : GrantsFile) (g : Grant)
    → OnePerFingerprint gs
    → OnePerFingerprint (upsert gs g)
      × ((fp : Text)
          → find_fingerprint fp (upsert gs g)
            ≡ (if g.fingerprint == fp then some g else find_fingerprint fp gs))
unfolding upsert
upsert_lem gs g u =
    (upsert-OnePerKey fingerprint_of gs g u, λ fp. find_key-upsert fingerprint_of fp gs g)

prune_again :
    (now : ℕ) (gs : GrantsFile)
    → All (λ g. is_live now g.expires_unix ≡ true) gs
    → prune_expired gs now ≡ (gs, false)
unfolding prune_expired
prune_again now gs h = ground (arith, retain-All (λ g. is_live now g.expires_unix) gs h)

-- `prune_expired` leaves live grants only, and of those each one: where a fingerprint has one grant,
-- it finds the same grant after pruning if that is live, and none if not. The result `false` means
-- that the list is unchanged, and a second call at the same time reports `false`.
pub prune_expired_lem :
    (gs : GrantsFile) (now : ℕ)
    → OnePerFingerprint gs
    → let (left, dropped) = prune_expired gs now in
      All (λ g. is_live now g.expires_unix ≡ true) left
      × ((fp : Text) (g : Grant)
          → find_fingerprint fp gs ≡ some g
          → find_fingerprint fp left ≡ (if is_live now g.expires_unix then some g else none))
      × (dropped ≡ false → left ≡ gs)
      × (prune_expired left now ≡ (left, false))
      × OnePerFingerprint left
unfolding prune_expired
prune_expired_lem gs now u =
    let p = λ (g : Grant). is_live now g.expires_unix in
    (
      All-retain_test p gs,
      (λ fp g e. find_key-retain fingerprint_of p fp g gs u e),
      (λ e. retain_of_length p gs (ground (arith, e))),
      prune_again now (retain p gs) (All-retain_test p gs),
      retain-OnePerKey fingerprint_of p gs u,
    )
