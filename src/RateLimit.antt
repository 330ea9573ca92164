-- ===== src/RateLimit.antt =====
-- The limiter of the pairing endpoints, `RateLimiter` of crates/doclinkd/src/server.rs. The clock is
-- monotonic and is read in seconds; an address is a text.
pub mod Bound
use doc_link.Base.Map.{Map, lookup, insert}
use doc_link.Base.{leb, if◌then◌else◌, Text, ℕ, ◌+◌, ◌-◌, Bool, true, false, Option, none}
use doc_link.Base.{some, text_eq, nat_eq}

-- `PAIR_RATE_PER_MIN`
abbrev pub pair_rate_per_min : ℕ
pair_rate_per_min = 20

-- `RateLimiter::window`
abbrev pub window : ℕ
window = 60

-- The requests that an address has made in its window, and when the window began.
abbrev pub Buckets : Type 0
Buckets = Map Text (ℕ × ℕ)

-- `buckets.entry(ip).or_insert((0, now))`
abbrev pub or_insert : Option (ℕ × ℕ) → ℕ → ℕ × ℕ
or_insert none now = (0, now)
or_insert (some e) now = e

-- The entry when a window that is over starts anew.
unfoldable pub current : ℕ × ℕ → ℕ → ℕ × ℕ
current (count, began) now = if leb window (now - began) then (0, now) else (count, began)

-- One more request, unless the window's share is used up.
unfoldable pub charge : ℕ × ℕ → (ℕ × ℕ) × Bool
charge (count, began) =
    if leb pair_rate_per_min count then ((count, began), false) else ((count + 1, began), true)

-- `RateLimiter::allow`
unfoldable pub allow : Buckets → Text → ℕ → Buckets × Bool
allow buckets ip now =
    let (entry, granted) = charge (current (or_insert (lookup ip buckets) now) now) in
    (insert ip entry buckets, granted)
