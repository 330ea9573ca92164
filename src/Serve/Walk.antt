-- ===== src/Serve/Walk.antt =====
-- The search walk of crates/doclinkd/src/server.rs: it ends, and it finds what it is asked for.
use doc_link.Scope.{DirEntry, is_dir}
use doc_link.Serve.{
  Share, Search, search_visit_budget, search_max_results, matches_query, take_entry, scan,
  visit_dir, search_loop, start_stack, search_scope,
}
use doc_link.Base.Strings.{trim}
use doc_link.Base.Results.{Result-cases}
use doc_link.Base.{ltb, ltb→le, Bool-cases, Text, length, All, ℕ, zero, suc, ◌+◌}
use doc_link.Base.{◌-◌, ◌≤◌, ◌<◌, ◌≡◌, refl, ◌≢◌, inl, inr, true, false, ◌&&◌, none}
use doc_link.Base.{List, [], ◌∷◌, arith}
use doc_link.Base.{leb, ltb→lt, Option-cases, length-append, All-append, ap, ◌∙◌, subst}
use doc_link.Base.{◌⊎◌, Bool, ◌||◌, some}

-- The rounds that a search may still take: each directory on the stack, and each visit in the budget.
abbrev rounds : Search → ℕ
rounds s = length s.stack + (20000 - s.visited)

-- Found files match the query, and there are not too many.
pub record IsFound (share : Share) (q_lower : Text) (s : Search) : Type 0 where
  pub few : length s.out ≤ search_max_results
  pub matching :
      All (λ e. (is_dir e.kind ≡ false) × (matches_query share e.name q_lower ≡ true)) s.out

stack_cases : (xs : List Text) → (xs ≡ []) ⊎ ((x : Text) × (rest : List Text) × (xs ≡ x ∷ rest))
stack_cases [] = inl refl
stack_cases (x ∷ xs) = inr (x, xs, refl)

both_cases : (a b : Bool) → ((a ≡ true) × (b ≡ true) × (a && b ≡ true)) ⊎ (a && b ≡ false)
both_cases true true = inl (refl, refl, refl)
both_cases true false = inr refl
both_cases false b = inr refl

start_length : (roots : List Text) → length (start_stack roots) ≤ length roots + 1
start_length [] = omega arith
start_length (r ∷ rs) = omega arith

module _ (share : Share) (q_lower : Text) where
  take_entry-rounds :
      (e : DirEntry) (s : Search)
      → (length (take_entry share q_lower e s).stack ≤ length s.stack + 1)
        × ((take_entry share q_lower e s).visited ≡ s.visited)
  unfolding take_entry
  take_entry-rounds e s = elim (Bool-cases (is_dir e.kind)) [
    | inl d ↦ rw d (omega arith, refl)
    | inr d ↦
        rw d
          elim (Bool-cases
            (matches_query share e.name q_lower && ltb (length s.out) search_max_results)) [
              | inl m ↦ rw m (omega arith, refl)
              | inr m ↦ rw m (omega arith, refl)
            ]
  ]

  scan-rounds : (es : List DirEntry) (s : Search) → rounds (scan share q_lower es s) ≤ rounds s
  unfolding scan
  scan-rounds [] s = omega arith
  scan-rounds (e ∷ es) s =
      let counted : Search = record s { visited = s.visited + 1 } in
      let (l, v) = take_entry-rounds e counted in
      let ih = scan-rounds es (take_entry share q_lower e counted) in
      elim (Bool-cases (ltb search_visit_budget (s.visited + 1))) [
        | inl over ↦ rw over (omega arith)
        | inr within_budget ↦ rw within_budget (omega (arith, ih, l, v, ltb→le _ _ within_budget))
      ]

  visit_dir-rounds : (d : Text) (s : Search) → rounds (visit_dir share q_lower d s) ≤ rounds s
  unfolding visit_dir
  visit_dir-rounds d s = elim (Result-cases (share.list_dir d)) [
    | inl (es, e) ↦ rw (e, visit_dir) (scan-rounds es s)
    | inr (x, e) ↦ rw (e, visit_dir) (omega arith)
  ]

  search_loop-total :
      (fuel : ℕ) (s : Search) → rounds s < fuel → search_loop share fuel q_lower s ≢ none
  unfolding search_loop
  search_loop-total zero s h = absurd (omega (arith, h))
  search_loop-total (suc fuel) s h = elim (stack_cases s.stack) [
    | inl e ↦ rw (e, search_loop) λ z. absurd (cc)
    | inr (d, below, e) ↦
        rw (e, search_loop)
          let popped : Search = record s { stack = below } in
            let len : length s.stack ≡ length below + 1 = ap length e ∙ omega arith in
            let ih =
              search_loop-total fuel (visit_dir share q_lower d popped)
                (omega (arith, visit_dir-rounds d popped, len, h)) in
            elim (Bool-cases
              (leb search_visit_budget s.visited || leb search_max_results (length s.out))) [
                | inl full ↦ rw full λ z. absurd (cc)
                | inr room ↦ rw room ih
              ]
  ]

  take_entry-IsFound :
      (e : DirEntry) (s : Search)
      → IsFound share q_lower s
      → IsFound share q_lower (take_entry share q_lower e s)
  unfolding take_entry
  take_entry-IsFound e s v = elim (Bool-cases (is_dir e.kind)) [
    | inl d ↦ rw d record { few = v.few; matching = v.matching }
    | inr d ↦
        rw d
          elim (both_cases (matches_query share e.name q_lower)
            (ltb (length s.out) search_max_results)) [
              | inl (m, l, both) ↦ rw both record {
                few = omega (arith, length-append s.out (e ∷ []), ltb→lt _ _ l);
                matching = All-append _ s.out (e ∷ []) v.matching ((d, m), tt);
              }
              | inr both ↦ rw both v
            ]
  ]

  scan-IsFound :
      (es : List DirEntry) (s : Search)
      → IsFound share q_lower s
      → IsFound share q_lower (scan share q_lower es s)
  unfolding scan
  scan-IsFound [] s v = v
  scan-IsFound (e ∷ es) s v =
      let counted : Search = record s { visited = s.visited + 1 } in
      let w : IsFound share q_lower counted = record { few = v.few; matching = v.matching } in
      let ih =
        scan-IsFound es (take_entry share q_lower e counted) (take_entry-IsFound e counted w) in
      elim (Bool-cases (ltb search_visit_budget (s.visited + 1))) [
        | inl over ↦ rw over record { few = v.few; matching = v.matching }
        | inr within_budget ↦ rw within_budget ih
      ]

  visit_dir-IsFound :
      (d : Text) (s : Search)
      → IsFound share q_lower s
      → IsFound share q_lower (visit_dir share q_lower d s)
  unfolding visit_dir
  visit_dir-IsFound d s v = elim (Result-cases (share.list_dir d)) [
    | inl (es, e) ↦ rw (e, visit_dir) (scan-IsFound es s v)
    | inr (x, e) ↦ rw (e, visit_dir) v
  ]

  search_loop-IsFound :
      (fuel : ℕ) (s t : Search)
      → IsFound share q_lower s
      → search_loop share fuel q_lower s ≡ some t
      → IsFound share q_lower t
  unfolding search_loop
  search_loop-IsFound zero s t v = λ h. absurd (cc)
  search_loop-IsFound (suc fuel) s t v = elim (stack_cases s.stack) [
    | inl e ↦ rw (e, search_loop) λ h. let same : s ≡ t = cc in subst (IsFound share q_lower) same v
    | inr (d, below, e) ↦
        rw (e, search_loop)
          let popped : Search = record s { stack = below } in
            let w : IsFound share q_lower popped = record { few = v.few; matching = v.matching } in
            let ih =
              search_loop-IsFound fuel (visit_dir share q_lower d popped) t
                (visit_dir-IsFound d popped w) in
            elim (Bool-cases
              (leb search_visit_budget s.visited || leb search_max_results (length s.out))) [
                | inl full ↦ rw full λ h.
                    let cut : Search = record popped { truncated = true } in
                    let same : cut ≡ t = cc in
                    subst (IsFound share q_lower) same
                      (record { few = v.few; matching = v.matching })
                | inr room ↦ rw room ih
              ]
  ]

-- The search ends on every share, also one whose listings are circular: with fuel for the roots
-- and 20001 rounds more, it returns. What it returns are at most 200 files, no folders among them,
-- each with a name that holds the query, both in lower case.
pub search_scope_lem :
    (share : Share) (fuel : ℕ) (roots : List Text) (query : Text)
    → length roots + 20001 < fuel
    → (out : List DirEntry) × (truncated : Bool) × (search_scope share fuel roots query
        ≡ some (out, truncated))
      × (length out ≤ search_max_results)
      × All
          (λ e.
            (is_dir e.kind ≡ false)
            × (matches_query share e.name (share.to_lowercase (trim query)) ≡ true))
          out
unfolding search_scope
search_scope_lem share fuel roots query h =
    let q_lower = share.to_lowercase (trim query) in
    let begin : Search = record {
      stack = start_stack roots;
      out = [];
      visited = 0;
      truncated = false;
    } in
    elim (Option-cases (search_loop share fuel q_lower begin)) [
      | inl e ↦
          absurd
            (search_loop-total share q_lower fuel begin (omega (arith, h, start_length roots)) e)
      | inr (t, e) ↦
          rw (e, search_scope)
            let v =
                search_loop-IsFound share q_lower fuel begin t
                  (record { few = omega arith; matching = tt }) e in
              (t.out, t.truncated, refl, v.few, v.matching)
    ]
