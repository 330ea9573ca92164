-- ===== src/RateLimit/Bound.antt =====
-- How many requests the limiter of crates/doclinkd/src/server.rs lets through.
use doc_link.RateLimit.{Buckets, or_insert, current, charge, allow, lookup}
use doc_link.Base.{leb, if◌then◌else◌, ◌==◌, Text, ℕ, ◌+◌, ◌-◌, ◌≤◌, ◌<◌, Bool, true, false}
use doc_link.Base.{◌&&◌, Option, none, some, List, [], ◌∷◌, arith, text_eq, nat_eq}
use doc_link.Base.{Bool-cases, Option-cases, beq-eq, All, ◌≡◌, refl, sym, ◌∙◌, subst}
use doc_link.Base.{inl, inr}
use doc_link.Base.Map.{
  contains_key, lookup-insert, contains_key-lookup-none, contains_key-lookup-some,
}

-- The requests of an address that are let through, in a sequence of requests with their readings.
abbrev pub allowed : Buckets → Text → List (Text × ℕ) → ℕ
allowed buckets ip [] = 0
allowed buckets ip ((j, now) ∷ calls) =
    let (after, granted) = allow buckets j now in
    let rest = allowed after ip calls in if granted && j == ip then rest + 1 else rest

abbrev bit : Bool → ℕ
bit true = 1
bit false = 0

-- What an address may still do in a minute from t on.
abbrev slack : ℕ → Option (ℕ × ℕ) → ℕ
slack t none = 20
slack t (some (count, began)) = if leb t began then 20 - count else 40 - count

abbrev pub IsFair : Option (ℕ × ℕ) → Type 0
IsFair none = Unit
IsFair (some (count, began)) = count ≤ 20

charge_lem :
    (t now : ℕ) (o : Option (ℕ × ℕ))
    → IsFair o
    → t ≤ now
    → now < t + 60
    → let (e, granted) = charge (current (or_insert o now) now) in
      IsFair (some e) × (slack t (some e) + bit granted ≤ slack t o)
unfolding charge current
charge_lem t now none f lo hi = ground arith
charge_lem t now (some (count, began)) f lo hi = ground arith

allow-lookup :
    (b : Buckets) (ip j : Text) (now : ℕ)
    → lookup ip (allow b j now).0 ≡ (
        if j == ip then some (charge (current (or_insert (lookup j b) now) now)).0 else lookup ip b)
unfolding allow
allow-lookup b ip j now = lookup-insert ip j _ b

add_step : (g y : Bool) (n s r : ℕ) → n ≤ s → s + bit g ≤ r → (if g && y then n + 1 else n) ≤ r
add_step g y n s r h k = ground arith

skip_step : (g y : Bool) (n r : ℕ) → y ≡ false → n ≤ r → (if g && y then n + 1 else n) ≤ r
skip_step g y n r e h = ground arith

allowed-slack :
    (ip : Text) (t : ℕ) (calls : List (Text × ℕ)) (b : Buckets)
    → IsFair (lookup ip b)
    → All (λ c. (t ≤ c.1) × (c.1 < t + 60)) calls
    → allowed b ip calls ≤ slack t (lookup ip b)
unfolding allow
allowed-slack ip t [] b f a = omega arith
allowed-slack ip t ((j, now) ∷ calls) b f ((lo, hi), a) = elim (Bool-cases (j == ip)) [
  | inl y ↦
      let same : j ≡ ip = beq-eq j ip y in
      let (f2, step) =
        charge_lem t now (lookup j b) (subst (λ k. IsFair (lookup k b)) (sym same) f) lo hi in
      let e = (charge (current (or_insert (lookup j b) now) now)).0 in
      let found : lookup ip (allow b j now).0 ≡ some e = allow-lookup b ip j now ∙ rw y refl in
      let rest = allowed-slack ip t calls (allow b j now).0 (subst IsFair (sym found) f2) a in
      let step2 =
        subst (λ k. slack t (some e) + bit (allow b j now).1 ≤ slack t (lookup k b)) same step in
      let rest2 = subst (λ o. allowed (allow b j now).0 ip calls ≤ slack t o) found rest in
      add_step (allow b j now).1 (j == ip) _ _ _ rest2 step2
  | inr n ↦
      let kept : lookup ip (allow b j now).0 ≡ lookup ip b = allow-lookup b ip j now ∙ rw n refl in
      let rest = allowed-slack ip t calls (allow b j now).0 (subst IsFair (sym kept) f) a in
      let rest2 = subst (λ o. allowed (allow b j now).0 ip calls ≤ slack t o) kept rest in
      skip_step (allow b j now).1 (j == ip) _ _ n rest2
]

slack-le : (t count began n : ℕ) → n ≤ slack t (some (count, began)) → n ≤ 40
slack-le t count began n h = ground arith

-- An address gets at most 20 pairing requests through in a minute if the limiter has no entry for
-- it, and at most 40 if it has one, whatever other addresses do and in whatever order the readings
-- come: for any sequence of requests whose readings lie in one minute, from buckets in which the
-- address's count is at most 20.
pub allowed-le :
    (ip : Text) (t : ℕ) (calls : List (Text × ℕ)) (b : Buckets)
    → IsFair (lookup ip b)
    → All (λ c. (t ≤ c.1) × (c.1 < t + 60)) calls
    → allowed b ip calls ≤ (if contains_key ip b then 40 else 20)
allowed-le ip t calls b f a =
    let l = allowed-slack ip t calls b f a in
    elim (Option-cases (lookup ip b)) [
      | inl e ↦
          rw (contains_key-lookup-none ip b e) (subst (λ o. allowed b ip calls ≤ slack t o) e l)
      | inr ((count, began), e) ↦
          rw (contains_key-lookup-some ip (count, began) b e)
            (slack-le t count began _ (subst (λ o. allowed b ip calls ≤ slack t o) e l))
    ]
