-- ===== src/Events.antt =====
-- The notification ring of crates/doclinkd/src/events.rs. Ids are counted below 2 ^ 64.
pub mod Ring
use doc_link.Base.{ltb, if◌then◌else◌, ◌==◌, Text, length, retain, any, ℕ, ◌+◌, ◌^◌, Bool}
use doc_link.Base.{true, false, ◌&&◌, List, [], ◌∷◌, ◌++◌, text_eq, nat_eq}

-- `CAP`
abbrev pub cap_events : ℕ
cap_events = 100

pub record Event : Type 0 where
  pub id : ℕ
  pub kind : Text
  pub title : Text
  pub body : Text
  pub unix : ℕ

pub record Events : Type 0 where
  pub next_id : ℕ
  pub items : List Event
  pub expiry_announced : List (Text × ℕ)

-- `Events::default()`
abbrev pub no_events : Events
no_events = record { next_id = 0; items = []; expiry_announced = [] }

-- `while self.items.len() > CAP { self.items.pop_front(); }`
unfoldable pub shrink : List Event → List Event
shrink [] = []
shrink (e ∷ es) = let rest = shrink es in if ltb cap_events (length (e ∷ es)) then rest else e ∷ es

-- `Events::push`; `now` is the clock's reading.
unfoldable pub push : Events → Text → Text → Text → ℕ → Events × Event
unfolding shrink
push s kind title body now =
    let id = s.next_id + 1 in
    let ev : Event = record { id = id; kind = kind; title = title; body = body; unix = now } in
    (record s { next_id = id; items = shrink (s.items ++ (ev ∷ [])) }, ev)

-- `Events::since`
unfoldable pub since : Events → ℕ → List Event
since s last = retain (λ e. ltb last e.id) s.items

abbrev pub pair_beq : Text × ℕ → Text × ℕ → Bool
pair_beq (f, t) (g, u) = f == g && t == u

-- `Events::claim_expiry`: the first claim of a pair inserts it.
unfoldable pub claim_expiry : Events → Text → ℕ → Events × Bool
claim_expiry s fingerprint expires_unix =
    if any (pair_beq (fingerprint, expires_unix)) s.expiry_announced
    then (s, false)
    else (record s { expiry_announced = (fingerprint, expires_unix) ∷ s.expiry_announced }, true)
