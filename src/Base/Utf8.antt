-- ===== src/Base/Utf8.antt =====
-- `String::from_utf8_lossy` of the standard library: each maximal ill-formed part of the bytes
-- becomes one U+FFFD. The decoder reads one byte at a time; `more` waits for `need + 1` bytes, the
-- next of them between `lo` and `hi`.
use doc_link.Base.{ltb, leb, if◌then◌else◌, ◌==◌, Text, All, zero, suc, ◌+◌, ◌-◌, ◌*◌, ◌≤◌}
use doc_link.Base.{◌<◌, ◌≡◌, refl, Bool, ◌&&◌, List, [], ◌∷◌, ◌++◌, arith, text_eq}
use doc_link.Base.{nat_eq, ℕ}
use doc_link.Base.{lt→ltb, ap}

pub data Decoder : Type 0 where
  start : Decoder
  more : ℕ → ℕ → ℕ → ℕ → Decoder

abbrev pub replacement : ℕ
replacement = 0xfffd

abbrev between : ℕ → ℕ → ℕ → Bool
between lo hi b = leb lo b && leb b hi

unfoldable pub lead : ℕ → Text × Decoder
lead b =
    if ltb b 0x80
    then (b ∷ [], start)
    else if between 0xc2 0xdf b
    then ([], more 0 (b - 0xc0) 0x80 0xbf)
    else if b == 0xe0
    then ([], more 1 0 0xa0 0xbf)
    else if b == 0xed
    then ([], more 1 13 0x80 0x9f)
    else if between 0xe1 0xef b
    then ([], more 1 (b - 0xe0) 0x80 0xbf)
    else if b == 0xf0
    then ([], more 2 0 0x90 0xbf)
    else if b == 0xf4
    then ([], more 2 4 0x80 0x8f)
    else if between 0xf1 0xf3 b
    then ([], more 2 (b - 0xf0) 0x80 0xbf)
    else (replacement ∷ [], start)

-- A byte that does not continue the character ends it, and is read anew.
unfoldable pub feed : Decoder → ℕ → Text × Decoder
unfolding lead
feed start b = lead b
feed (more zero acc lo hi) b =
    if between lo hi b
    then ((acc * 64 + (b - 0x80)) ∷ [], start)
    else (replacement ∷ (lead b).0, (lead b).1)
feed (more (suc need) acc lo hi) b =
    if between lo hi b
    then ([], more need (acc * 64 + (b - 0x80)) 0x80 0xbf)
    else (replacement ∷ (lead b).0, (lead b).1)

unfoldable pub decode : Decoder → List ℕ → Text
unfolding feed
decode start [] = []
decode (more need acc lo hi) [] = replacement ∷ []
decode start (b ∷ s) = let r = feed start b in r.0 ++ decode r.1 s
decode (more need acc lo hi) (b ∷ s) = let r = feed (more need acc lo hi) b in r.0 ++ decode r.1 s

unfoldable pub from_utf8_lossy : List ℕ → Text
unfolding decode
from_utf8_lossy = decode start

-- ASCII is rendered as it is.
pub from_utf8_lossy-ascii : (s : List ℕ) → All (λ b. b < 0x80) s → from_utf8_lossy s ≡ s
unfolding from_utf8_lossy
from_utf8_lossy-ascii [] h = refl
from_utf8_lossy-ascii (b ∷ s) (hb, h) =
    rw (lt→ltb b 0x80 hb) (ap (◌∷◌ b) (from_utf8_lossy-ascii s h))

-- A stray continuation byte is rendered as U+FFFD, whichever it is.
pub from_utf8_lossy-stray :
    (b : ℕ) (s : List ℕ)
    → 0x80 ≤ b
    → b < 0xc2
    → from_utf8_lossy (b ∷ s) ≡ replacement ∷ from_utf8_lossy s
unfolding from_utf8_lossy
from_utf8_lossy-stray b s h k = ground arith
