-- ===== src/Pairing/Bounded.antt =====
-- The bounds of the pairing state of crates/doclinkd/src/server.rs.
use doc_link.Protocol.{PairRequest, PairStatusResponse}
use doc_link.State.{PairRequestEntry, PairingState}
use doc_link.Pairing.{
  max_pending, max_decisions, prune_pending, admit_pending, oldest_from, evict, remember_decision,
}
use doc_link.Base.Map.{
  Map, lookup, contains_key, insert, NodupKeys, length-insert, length-remove-lt, retain-NodupKeys,
  insert-NodupKeys, remove-NodupKeys, lookup-insert,
}
use doc_link.Base.{length-retain-le}
use doc_link.Base.{ltb, Bool-cases, length, retain, ℕ, ◌-◌, ◌≤◌, inl, inr, arith, text_eq}
use doc_link.Base.{nat_eq}
use doc_link.Base.{leb, leb→lt, ◌==◌, Text, beq_refl, ◌+◌, ◌≡◌, refl, ◌∙◌, ◌⊎◌, Bool, some}
use doc_link.Base.{[], ◌∷◌}
use doc_link.Base.{if◌then◌else◌, leb→le, not, ◌&&◌}
use doc_link.Base.{ap}

-- Distinct keys, at most 64 requests and at most 256 decisions.
pub record IsBounded (p : PairingState) : Type 0 where
  pub pending_keys : NodupKeys p.pending
  pub decision_keys : NodupKeys p.decisions
  pub few_pending : length p.pending ≤ max_pending
  pub few_decisions : length p.decisions ≤ max_decisions

pub admit_pending-IsBounded :
    (p : PairingState) (req : PairRequest) (now : ℕ)
    → IsBounded p
    → IsBounded (admit_pending p req now).0
unfolding admit_pending prune_pending
admit_pending-IsBounded p req now v =
    let fits : Text × PairRequestEntry → Bool = λ e. ltb (now - 600) e.1.received_unix in
    let kept = retain fits p.pending in
    let u = retain-NodupKeys fits p.pending v.pending_keys in
    let small : length kept ≤ 64 = omega (arith, length-retain-le fits p.pending, v.few_pending) in
    let entry : PairRequestEntry = record { request = req; received_unix = now } in
    let u2 = insert-NodupKeys req.node_id entry kept u in
    let l = length-insert req.node_id entry kept in
    elim (Bool-cases (contains_key req.node_id kept)) [
      | inl e ↦
          let l2 : length (insert req.node_id entry kept) ≡ length kept = l ∙ rw e refl in
          rw e record {
            pending_keys = u2;
            decision_keys = v.decision_keys;
            few_pending = omega (arith, l2, small);
            few_decisions = v.few_decisions;
          }
      | inr e ↦
          let l2 : length (insert req.node_id entry kept) ≡ length kept + 1 = l ∙ rw e refl in
          elim (Bool-cases (leb 64 (length kept))) [
            | inl full ↦
                rw (e, full)
                  record {
                    pending_keys = u;
                    decision_keys = v.decision_keys;
                    few_pending = small;
                    few_decisions = v.few_decisions;
                  }
            | inr room ↦
                rw (e, room)
                  record {
                    pending_keys = u2;
                    decision_keys = v.decision_keys;
                    few_pending = omega (arith, l2, leb→lt _ _ room);
                    few_decisions = v.few_decisions;
                  }
          ]
    ]

oldest_from-found :
    (c : Text × ℕ) (m : Map Text (PairStatusResponse × ℕ))
    → (oldest_from c m ≡ c.0)
      ⊎ ((v : PairStatusResponse × ℕ) × (lookup (oldest_from c m) m ≡ some v))
unfolding oldest_from lookup
oldest_from-found c [] = inl refl
oldest_from-found (k, at) ((j, (r, b)) ∷ m) =
    let next : Text × ℕ = if ltb b at then (j, b) else (k, at) in
    elim (oldest_from-found (if ltb b at then (j, b) else (k, at)) m) [
      | inr (v, found) ↦ inr (elim (Bool-cases (j == oldest_from next m)) [
        | inl y ↦ ((r, b), rw y refl)
        | inr n ↦ (v, rw n found)
      ])
      | inl same ↦ elim (Bool-cases (ltb b at)) [
        | inl e ↦
            let j_next : oldest_from next m ≡ j = same ∙ rw e refl in
            inr (
              (r, b),
              ap (λ x. if j == x then some (r, b) else lookup x m) j_next ∙ rw (beq_refl j) refl,
            )
        | inr e ↦ inl (same ∙ rw e refl)
      ]
    ]

evict-lt : (m : Map Text (PairStatusResponse × ℕ)) → 1 ≤ length m → length (evict m) + 1 ≤ length m
unfolding evict lookup
evict-lt [] h = absurd (omega (arith, h))
evict-lt ((k, (r, at)) ∷ m) h =
    let x = oldest_from (k, at) m in
    elim (Bool-cases (k == x)) [
      | inl y ↦ length-remove-lt x (r, at) ((k, (r, at)) ∷ m) (rw y refl)
      | inr n ↦ elim (oldest_from-found (k, at) m) [
        | inl same ↦ absurd (ground (arith, same, n, beq_refl k))
        | inr (v, found) ↦ length-remove-lt x v ((k, (r, at)) ∷ m) (rw n found)
      ]
    ]

evict-NodupKeys : (m : Map Text (PairStatusResponse × ℕ)) → NodupKeys m → NodupKeys (evict m)
unfolding evict
evict-NodupKeys [] u = u
evict-NodupKeys ((k, (r, at)) ∷ m) u = remove-NodupKeys (oldest_from (k, at) m) ((k, (r, at)) ∷ m) u

insert-le :
    (k : Text) (v : PairStatusResponse × ℕ) (m : Map Text (PairStatusResponse × ℕ))
    → length (insert k v m) ≤ length m + 1
insert-le k v m = elim (Bool-cases (contains_key k m)) [
  | inl e ↦
      let l : length (insert k v m) ≡ length m = length-insert k v m ∙ rw e refl in omega (arith, l)
  | inr e ↦
      let l : length (insert k v m) ≡ length m + 1 = length-insert k v m ∙ rw e refl in
      omega (arith, l)
]

pub remember_decision-IsBounded :
    (p : PairingState) (id : Text) (resp : PairStatusResponse) (now : ℕ)
    → IsBounded p
    → IsBounded (remember_decision p id resp now)
      × ((j : Text)
          → lookup j (remember_decision p id resp now).decisions ≡ (
              if id == j
              then some (resp, now)
              else lookup j (
                  if not (contains_key id p.decisions) && leb 256 (length p.decisions)
                  then evict p.decisions
                  else p.decisions)))
unfolding remember_decision
remember_decision-IsBounded p id resp now v =
    let d = p.decisions in
    elim (Bool-cases (contains_key id d)) [
      | inl e ↦
          let l2 : length (insert id (resp, now) d) ≡ length d =
            length-insert id (resp, now) d ∙ rw e refl in
          rw e (
            record {
              pending_keys = v.pending_keys;
              decision_keys = insert-NodupKeys id (resp, now) d v.decision_keys;
              few_pending = v.few_pending;
              few_decisions = omega (arith, l2, v.few_decisions);
            },
            λ j. lookup-insert j id (resp, now) d,
          )
      | inr e ↦ elim (Bool-cases (leb 256 (length d))) [
        | inl full ↦
            let short = evict-lt d (omega (arith, leb→le _ _ full)) in
            rw (e, full)
              (
                record {
                  pending_keys = v.pending_keys;
                  decision_keys =
                      insert-NodupKeys id (resp, now) _ (evict-NodupKeys d v.decision_keys);
                  few_pending = v.few_pending;
                  few_decisions =
                      omega (arith, insert-le id (resp, now) (evict d), short, v.few_decisions);
                },
                λ j. lookup-insert j id (resp, now) (evict d),
              )
        | inr room ↦
            let l2 : length (insert id (resp, now) d) ≡ length d + 1 =
              length-insert id (resp, now) d ∙ rw e refl in
            rw (e, room)
              (
                record {
                  pending_keys = v.pending_keys;
                  decision_keys = insert-NodupKeys id (resp, now) d v.decision_keys;
                  few_pending = v.few_pending;
                  few_decisions = omega (arith, l2, leb→lt _ _ room);
                },
                λ j. lookup-insert j id (resp, now) d,
              )
      ]
    ]
