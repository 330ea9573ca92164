-- ===== src/Sweeper.antt =====
-- One round of the expiry sweeper, `run_expiry_sweeper` of crates/doclinkd/src/store.rs. The clock
-- reads the same at the announcements and at the pruning; the Boolean says whether the file can be
-- written.
pub mod Round
use doc_link.Protocol.{lit}
use doc_link.Store.{Grant, GrantsFile, Store, prune_expired, save}
use doc_link.Events.{Events, push, claim_expiry}
use doc_link.Base.{ltb, leb, if◌then◌else◌, ℕ, ◌-◌, Bool, ◌&&◌, none, some, [], ◌∷◌, ◌++◌}

-- `EXPIRING_SOON_SECS`
abbrev pub expiring_soon_secs : ℕ
expiring_soon_secs = 86400

-- The announcement of one grant.
unfoldable pub announce : ℕ → Grant → Events → Events
announce now gr ev = elim gr.expires_unix [
  | none ↦ ev
  | some exp ↦
      let (claimed, first) = claim_expiry ev gr.fingerprint exp in
      let (pushed, _) =
        push claimed (lit "grant-expiring") (lit "Access for " ++ gr.name ++ lit " expires soon")
          (lit "Renew it from Granted access, or let it lapse.") now in
      if ltb now exp && leb (exp - now) expiring_soon_secs
      then (if first then pushed else claimed)
      else ev
]

-- `for gr in g.read().grants.iter()`
unfoldable pub announce_all : ℕ → GrantsFile → Events → Events
announce_all now [] ev = ev
announce_all now (g ∷ gs) ev = announce_all now gs (announce now g ev)

-- The body of the loop.
unfoldable pub sweep : Events → Store GrantsFile → ℕ → Bool → Events × Store GrantsFile
sweep ev store now writable =
    let (left, dropped) = prune_expired store.content now in
    let pruned : Store GrantsFile = record store { content = left } in
    (announce_all now store.content ev, (if dropped then (save writable pruned).0 else pruned))
