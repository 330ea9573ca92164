-- ===== src/Sweeper/Round.antt =====
-- What a round of the expiry sweeper of crates/doclinkd/src/store.rs leaves behind.
use doc_link.Store.{Grant, GrantsFile, Store, is_live, prune_expired, save}
use doc_link.Store.Grants.{OnePerFingerprint, find_fingerprint, prune_expired_lem}
use doc_link.Events.{Events, claim_expiry, pair_beq}
use doc_link.Events.Ring.{IsRing, push-IsRing}
use doc_link.Sweeper.{expiring_soon_secs, announce, announce_all, sweep}
use doc_link.Base.{Text, ℕ}
use doc_link.Base.{ltb, leb, if◌then◌else◌, Bool-cases, Option-cases, any, All, ◌-◌, ◌≡◌}
use doc_link.Base.{inl, inr, Bool, true, ◌&&◌, none, some, [], ◌∷◌}

claim_expiry-IsRing :
    (ev : Events) (fp : Text) (t : ℕ) → IsRing ev → IsRing (claim_expiry ev fp t).0
unfolding claim_expiry
claim_expiry-IsRing ev fp t v = elim (Bool-cases (any (pair_beq (fp, t)) ev.expiry_announced)) [
  | inl e ↦ rw e v
  | inr e ↦ rw e record { bounded = v.bounded; issued = v.issued; counted = v.counted }
]

announce-IsRing : (now : ℕ) (g : Grant) (ev : Events) → IsRing ev → IsRing (announce now g ev)
unfolding announce
announce-IsRing now g ev v = elim (Option-cases g.expires_unix) [
  | inl e ↦ rw e v
  | inr (exp, e) ↦
      rw e
        let c = claim_expiry-IsRing ev g.fingerprint exp v in
          let (r, x, y, z) = push-IsRing (claim_expiry ev g.fingerprint exp).0 _ _ _ now c in
          elim (Bool-cases (ltb now exp && leb (exp - now) expiring_soon_secs)) [
            | inr far ↦ rw far v
            | inl near ↦ rw near elim (Bool-cases (claim_expiry ev g.fingerprint exp).1) [
              | inl f ↦ rw f r
              | inr f ↦ rw f c
            ]
          ]
]

announce_all-IsRing :
    (now : ℕ) (gs : GrantsFile) (ev : Events) → IsRing ev → IsRing (announce_all now gs ev)
unfolding announce_all
announce_all-IsRing now [] ev v = v
announce_all-IsRing now (g ∷ gs) ev v =
    announce_all-IsRing now gs (announce now g ev) (announce-IsRing now g ev v)

-- After a round of the sweeper the events are still a ring of at most 100 with consecutive ids,
-- every grant in memory is live, and each fingerprint has the grant that it had if that one is
-- live, and none else, whether the file can be written or not. The store has one grant per
-- fingerprint.
pub sweep_lem :
    (ev : Events) (store : Store GrantsFile) (now : ℕ) (writable : Bool)
    → IsRing ev
    → OnePerFingerprint store.content
    → let (ev', swept) = sweep ev store now writable in
      IsRing ev'
      × All (λ g. is_live now g.expires_unix ≡ true) swept.content
      × ((fp : Text) (g : Grant)
          → find_fingerprint fp store.content ≡ some g
          → find_fingerprint fp swept.content
            ≡ (if is_live now g.expires_unix then some g else none))
unfolding sweep save
sweep_lem ev store now writable v u =
    let (live, kept, x, y, z) = prune_expired_lem store.content now u in
    let r = announce_all-IsRing now store.content ev v in
    elim (Bool-cases (prune_expired store.content now).1) [
      | inr e ↦ rw (e, sweep) (r, live, kept)
      | inl e ↦
          rw (e, sweep)
            elim (Bool-cases writable) [
              | inl w ↦ rw (w, save) (r, live, kept)
              | inr w ↦ rw (w, save) (r, live, kept)
            ]
    ]
