-- ===== src/Proxy/Ends.antt =====
-- The walk of a fallback search ends: `search_fallback` of crates/doclinkd/src/proxy.rs.
use doc_link.Proxy.{
  Wire, Walk, ProxyError, max_visits, visit, visit_root, visit_all, visit_folder, walk_loop,
  walk_from, search_fallback, list,
}
use doc_link.Scope.{DirEntry, is_dir}
use doc_link.Base.Strings.{contains}
use doc_link.State.{AppState}
use doc_link.Registry.{Peer}
use doc_link.Base.Results.{Result, ok, err, Result-cases}
use doc_link.Base.{ltb, leb, Bool-cases, Text, length, length-append, ℕ, zero, suc, ◌+◌}
use doc_link.Base.{◌-◌, ◌≤◌, ◌<◌, ◌≡◌, refl, ap, ◌⊎◌, inl, inr, Bool, true, false, ◌||◌}
use doc_link.Base.{some, List, [], ◌∷◌, arith}

queue-cases : (q : List Text) → (q ≡ []) ⊎ ((d : Text) × (later : List Text) × (q ≡ d ∷ later))
queue-cases [] = inl refl
queue-cases (d ∷ later) = inr (d, later, refl)

module _ (wire : Wire) (q_lower : Text) where
  -- A visit queues one folder at most.
  visit-length :
      (e : DirEntry) (w : Walk)
      → (length (visit wire q_lower e w).queue ≤ length w.queue + 1)
        × ((visit wire q_lower e w).visited ≡ w.visited)
  unfolding visit
  visit-length e w = elim (Bool-cases (is_dir e.kind)) [
    | inl k ↦ rw k (omega (arith, length-append w.queue (e.path ∷ [])), refl)
    | inr k ↦ elim (Bool-cases (contains (wire.to_lowercase e.name) q_lower)) [
      | inl h ↦ rw (k, h) (omega arith, refl)
      | inr h ↦ rw (k, h) (omega arith, refl)
    ]
  ]

  -- What is queued was counted, and the count goes one past the budget at most.
  visit_all-length :
      (es : List DirEntry) (w : Walk)
      → (length (visit_all wire q_lower es w).queue + w.visited
          ≤ length w.queue + (visit_all wire q_lower es w).visited)
        × (w.visited ≤ (visit_all wire q_lower es w).visited)
        × (w.visited ≤ max_visits → (visit_all wire q_lower es w).visited ≤ max_visits + 1)
  unfolding visit_all
  visit_all-length [] w = (omega arith, omega arith, λ h. omega arith)
  visit_all-length (e ∷ es) w =
      let counted : Walk = record w { visited = w.visited + 1 } in
      let (queued, same) = visit-length e counted in
      let (more_queued, more_visits, bound) = visit_all-length es (visit wire q_lower e counted) in
      elim (Bool-cases (ltb max_visits (w.visited + 1))) [
        | inl k ↦ rw k (omega arith, omega arith, λ h. omega arith)
        | inr k ↦ rw k (
          omega (arith, queued, same, more_queued),
          omega (arith, same, more_visits),
          λ h. bound (ground (arith, same, k)),
        )
      ]

  visit_folder-length :
      (r : Result ProxyError (List DirEntry)) (w : Walk)
      → (length (visit_folder wire q_lower r w).queue + w.visited
          ≤ length w.queue + (visit_folder wire q_lower r w).visited)
        × (w.visited ≤ (visit_folder wire q_lower r w).visited)
        × (w.visited ≤ max_visits → (visit_folder wire q_lower r w).visited ≤ max_visits + 1)
  unfolding visit_folder
  visit_folder-length (err e) w = (omega arith, omega arith, λ h. omega arith)
  visit_folder-length (ok es) w = visit_all-length es w

  -- Each round takes one folder from the queue, and what is queued anew is paid for by a visit.
  walk_loop-ends :
      (listed : Text → Result ProxyError (List DirEntry)) (fuel : ℕ) (w : Walk)
      → w.visited ≤ max_visits + 1
      → length w.queue + (max_visits + 1 - w.visited) < fuel
      → (end : Walk) × (walk_loop wire q_lower listed fuel w ≡ some end)
  unfolding walk_loop
  walk_loop-ends listed zero w v h = absurd (omega arith)
  walk_loop-ends listed (suc fuel) w v h = elim (queue-cases w.queue) [
    | inl e ↦ rw (e, walk_loop) (w, refl)
    | inr (d, later, e) ↦
        let popped : Walk = record w { queue = later } in
        elim (Bool-cases (leb max_visits w.visited || leb 200 (length w.results))) [
          | inl k ↦ rw (e, walk_loop, k) (_, refl)
          | inr k ↦
              let within : w.visited ≤ max_visits = ground (arith, k) in
              let (queued, visits, bound) = visit_folder-length (listed d) popped in
              rw (e, walk_loop, k)
                (walk_loop-ends listed fuel (visit_folder wire q_lower (listed d) popped)
                  (bound within)
                  (omega (arith, ap (λ q. length q) e, h, queued, visits, bound within)))
        ]
  ]

  visit_root-length :
      (es : List DirEntry) (w : Walk)
      → (length (visit_root wire q_lower es w).queue + w.visited
          ≤ length w.queue + (visit_root wire q_lower es w).visited)
        × (w.visited ≤ (visit_root wire q_lower es w).visited)
  unfolding visit_root
  visit_root-length [] w = (omega arith, omega arith)
  visit_root-length (e ∷ es) w =
      let counted : Walk = record w { visited = w.visited + 1 } in
      let (queued, same) = visit-length e counted in
      let (more_queued, more_visits) = visit_root-length es (visit wire q_lower e counted) in
      (omega (arith, queued, same, more_queued), omega (arith, same, more_visits))

  -- Over the budget the loop stops at once.
  walk_loop-over :
      (listed : Text → Result ProxyError (List DirEntry)) (fuel : ℕ) (w : Walk)
      → max_visits ≤ w.visited
      → (end : Walk) × (walk_loop wire q_lower listed (suc fuel) w ≡ some end)
  unfolding walk_loop
  walk_loop-over listed fuel w v = elim (queue-cases w.queue) [
    | inl e ↦ rw (e, walk_loop) (w, refl)
    | inr (d, later, e) ↦
        let over : leb max_visits w.visited ≡ true = ground arith in
        rw (e, walk_loop, over) (_, refl)
  ]

  walk_from-ends :
      (listed : Text → Result ProxyError (List DirEntry)) (fuel : ℕ) (es : List DirEntry)
      → max_visits + 2 < fuel
      → (end : Walk) × (walk_from wire q_lower listed fuel es ≡ some end)
  unfolding walk_from
  walk_from-ends listed zero es h = absurd (omega arith)
  walk_from-ends listed (suc fuel) es h =
      let begin : Walk = record { queue = [] ∷ []; results = []; visited = 0; truncated = false } in
      let start = visit_root wire q_lower es begin in
      let (queued, visits) = visit_root-length es begin in
      elim (Bool-cases (leb max_visits start.visited)) [
        | inl over ↦ walk_loop-over listed fuel start (ground (arith, over))
        | inr under ↦
            let below : start.visited < max_visits = ground (arith, under) in
            walk_loop-ends listed (suc fuel) start (omega (arith, below))
              (omega (arith, below, queued, h))
      ]

-- A fallback search ends, with an error of its first listing or with results: more rounds than the
-- budget has visits, and two, are enough, whatever the other PC answers.
pub search_fallback-ends :
    (wire : Wire) (fuel : ℕ) (s : AppState) (peers : List Peer) (id query : Text)
    → max_visits + 2 < fuel
    → ((e : ProxyError) × (search_fallback wire fuel s peers id query ≡ err e))
      ⊎ ((results : List DirEntry) × (truncated : Bool) × (search_fallback wire fuel s peers id
              query
            ≡ ok (some (results, truncated))))
unfolding search_fallback
search_fallback-ends wire fuel s peers id query h = elim (Result-cases (list wire s peers id [])) [
  | inr (e, r) ↦ rw r (inl (e, refl))
  | inl (es, r) ↦
      let (end, done) =
        walk_from-ends wire (wire.to_lowercase query) (list wire s peers id) fuel es h in
      rw (r, done) (inr (end.results, end.truncated, refl))
]
