-- ===== src/Auth/Replay.antt =====
-- The replay cache of crates/doclinkd/src/auth.rs, over sequences of requests.
use doc_link.Identity.{Crypto}
use doc_link.State.{AppState}
use doc_link.Store.{Grant}
use doc_link.Base.Map.{
  Map, lookup, NodupKeys, lookup-retain, lookup-insert, contains_key-lookup-some,
  contains_key-lookup-none, retain-NodupKeys, insert-NodupKeys, insert,
}
use doc_link.Base.Results.{ok}
use doc_link.Auth.{max_skew_secs, verify_signed_headers, reject_replays, check_grant, require_auth}
use doc_link.Base.{ltb, le→ltb, Bool-cases, ◌==◌, Text, beq_refl, retain, All, ℕ, ◌+◌}
use doc_link.Base.{◌-◌, ◌≤◌, ◌≡◌, refl, ◌∙◌, inl, inr, false, not, none, some, List, []}
use doc_link.Base.{◌∷◌, arith, text_eq, nat_eq}
use doc_link.Base.{lt→ltb, ◌<◌, true}
use doc_link.Auth.{refusal}

-- The cache after a sequence of calls, each a signature and the clock's reading.
abbrev pub run_replays : Map Text ℕ → List (Text × ℕ) → Map Text ℕ
run_replays seen [] = seen
run_replays seen ((sig, now) ∷ calls) = run_replays (reject_replays seen sig now).0 calls

abbrev IsWithin : ℕ → ℕ → Type 0
IsWithin t now = (t ≤ now) × (now ≤ t + max_skew_secs)

abbrev Remembers : Map Text ℕ → Text → ℕ → Type 0
Remembers seen sig t = NodupKeys seen × ((at : ℕ) × ((lookup sig seen ≡ some at) × IsWithin t at))

kept_lookup :
    (seen : Map Text ℕ) (sig : Text) (t at now : ℕ)
    → NodupKeys seen
    → lookup sig seen ≡ some at
    → IsWithin t at
    → IsWithin t now
    → lookup sig (retain (λ e. not (ltb max_skew_secs (now - e.1))) seen) ≡ some at
kept_lookup seen sig t at now u e (a, b) (c, d) =
    rw
      (
        lookup-retain (λ e. not (ltb max_skew_secs (now - e.1))) sig at seen u e,
        le→ltb max_skew_secs (now - at) (omega arith),
      )
      refl

reject_replays-Remembers :
    (seen : Map Text ℕ) (sig other : Text) (t now : ℕ)
    → Remembers seen sig t
    → IsWithin t now
    → Remembers (reject_replays seen other now).0 sig t
unfolding reject_replays
reject_replays-Remembers seen sig other t now (u, (at, (e, w))) wn =
    let kept = retain (λ x. not (ltb max_skew_secs (now - x.1))) seen in
    let u2 = insert-NodupKeys other now kept (retain-NodupKeys _ seen u) in
    elim (Bool-cases (other == sig)) [
      | inl y ↦ (u2, (now, (lookup-insert sig other now kept ∙ rw y refl, wn)))
      | inr n ↦ (
        u2,
        (at, (lookup-insert sig other now kept ∙ rw n (kept_lookup seen sig t at now u e w wn), w)),
      )
    ]

run_replays-Remembers :
    (seen : Map Text ℕ) (sig : Text) (t : ℕ) (calls : List (Text × ℕ))
    → Remembers seen sig t
    → All (λ c. IsWithin t c.1) calls
    → Remembers (run_replays seen calls) sig t
run_replays-Remembers seen sig t [] r a = r
run_replays-Remembers seen sig t ((other, now) ∷ calls) r (a, rest) =
    run_replays-Remembers (reject_replays seen other now).0 sig t calls
      (reject_replays-Remembers seen sig other t now r a) rest

-- A signature that was presented at time t is refused at every later time up to t + 900, whatever
-- other requests come in between: from the cache that the first presentation leaves, after any
-- sequence of calls with clock readings from t to t + 900, the signature is not new at a reading of
-- that range. The cache has no two entries for one signature, as a hash map has none.
pub replay_refused :
    (seen : Map Text ℕ) (sig : Text) (t now : ℕ) (calls : List (Text × ℕ))
    → NodupKeys seen
    → All (λ c. (t ≤ c.1) × (c.1 ≤ t + max_skew_secs)) calls
    → t ≤ now
    → now ≤ t + max_skew_secs
    → (reject_replays (run_replays (reject_replays seen sig t).0 calls) sig now).1 ≡ false
unfolding reject_replays
replay_refused seen sig t now calls u a lo hi =
    let kept = retain (λ x. not (ltb max_skew_secs (t - x.1))) seen in
    let first : Remembers (reject_replays seen sig t).0 sig t = (
      insert-NodupKeys sig t kept (retain-NodupKeys _ seen u),
      (t, (lookup-insert sig sig t kept ∙ rw (beq_refl sig) refl, (omega arith, omega arith))),
    ) in
    let (u2, (at, (e, w))) = run_replays-Remembers _ sig t calls first a in
    let k = kept_lookup _ sig t at now u2 e w (lo, hi) in
    rw (contains_key-lookup-some sig at _ k) refl

forgets :
    (seen : Map Text ℕ) (sig : Text) (t now : ℕ)
    → NodupKeys seen
    → t + max_skew_secs < now
    → (reject_replays (reject_replays seen sig t).0 sig now).1 ≡ true
unfolding reject_replays
forgets seen sig t now u late =
    let kept = retain (λ x. not (ltb max_skew_secs (t - x.1))) seen in
    let u2 = insert-NodupKeys sig t kept (retain-NodupKeys _ seen u) in
    let e : lookup sig (insert sig t kept) ≡ some t =
      lookup-insert sig sig t kept ∙ rw (beq_refl sig) refl in
    let gone : lookup sig (retain (λ x. not (ltb max_skew_secs (now - x.1))) (insert sig t kept))
        ≡ none =
      rw
        (
          lookup-retain (λ x. not (ltb max_skew_secs (now - x.1))) sig t _ u2 e,
          lt→ltb max_skew_secs (now - t) (omega arith),
        )
        refl in
    rw (contains_key-lookup-none sig _ gone) refl

module _ (C : Crypto) (headers : Map Text Text) (method path_q : Text) (body : List ℕ)
    (s : AppState) (now_ts now_seen now_grant : ℕ) (node pk sig : Text) where
  pub require_auth-remembers :
      verify_signed_headers C headers method path_q body now_ts ≡ ok (node, pk, sig)
      → (require_auth C headers method path_q body s now_ts now_seen now_grant).0
        ≡ record s { seen_sigs = (reject_replays s.seen_sigs sig now_seen).0 }
  unfolding require_auth
  require_auth-remembers v =
      rw (v, require_auth)
        elim (Bool-cases (reject_replays s.seen_sigs sig now_seen).1) [
          | inl e ↦ rw (e, require_auth) refl
          | inr e ↦ rw (e, require_auth) refl
        ]

  pub require_auth-fresh :
      verify_signed_headers C headers method path_q body now_ts ≡ ok (node, pk, sig)
      → (reject_replays s.seen_sigs sig now_seen).1 ≡ true
      → (require_auth C headers method path_q body s now_ts now_seen now_grant).1
        ≡ check_grant C s node pk now_grant
  unfolding require_auth
  require_auth-fresh v e = rw (v, require_auth) rw (e, require_auth) refl

-- The cache forgets a signature 901 seconds after its presentation: a request whose headers verify
-- at time t and still verify at t + 901, which a timestamp ahead of the clock makes possible, is
-- accepted again then as if it were new, when the node's grant is good at that time.
pub replay_after_window :
    (C : Crypto) (headers : Map Text Text) (method path_q : Text) (body : List ℕ) (s : AppState)
    (t : ℕ) (node pk sig : Text) (g : Grant)
    → NodupKeys s.seen_sigs
    → verify_signed_headers C headers method path_q body t ≡ ok (node, pk, sig)
    → verify_signed_headers C headers method path_q body (t + 901) ≡ ok (node, pk, sig)
    → check_grant C s node pk (t + 901) ≡ ok g
    → (require_auth C headers method path_q body
        (require_auth C headers method path_q body s t t t).0
        (t + 901)
        (t + 901)
        (t + 901)).1
      ≡ ok g
unfolding check_grant refusal
replay_after_window C headers method path_q body s t node pk sig g u v w c =
    let s1 : AppState = record s { seen_sigs = (reject_replays s.seen_sigs sig t).0 } in
    rw (require_auth-remembers C headers method path_q body s t t t node pk sig v) (
      require_auth-fresh C headers method path_q body s1 (t + 901) (t + 901) (t + 901) node pk sig w
        (forgets s.seen_sigs sig t (t + 901) u (omega arith))
      ∙ c)
