-- ===== src/Proxy/Doubled.antt =====
-- A fallback search lists the root twice: `search_fallback` of crates/doclinkd/src/proxy.rs.
use doc_link.Proxy.{Wire, Walk, max_visits, visit, visit_root, visit_all}
use doc_link.Scope.{DirEntry, is_dir}
use doc_link.Base.Strings.{contains}
use doc_link.Base.{ltb, Bool-cases, Text, length, retain, All, ◌+◌, ◌≤◌, ◌≡◌, refl, ◌∙◌}
use doc_link.Base.{inl, inr, false, List, [], ◌∷◌, ◌++◌, append_assoc, append-nil, arith}
use doc_link.Base.{leb, ℕ, suc, ◌<◌, sym, some}
use doc_link.Proxy.{search_fallback, walk_from, walk_loop, AppState, Result, visit_folder}
use doc_link.Proxy.{Peer, ProxyError, list, ok}

module _ (wire : Wire) (q_lower : Text) where
  -- The files whose name has the query.
  abbrev pub hits : List DirEntry → List DirEntry
  hits = retain (λ e. contains (wire.to_lowercase e.name) q_lower)

  abbrev found : List DirEntry → Walk → Walk
  found es w = record w { results = w.results ++ hits es; visited = w.visited + length es }

  abbrev pub AreFiles : List DirEntry → Type 0
  AreFiles = All (λ e. is_dir e.kind ≡ false)

  found-step :
      (e : DirEntry) (es : List DirEntry) (w : Walk)
      → is_dir e.kind ≡ false
      → found es (visit wire q_lower e (record w { visited = w.visited + 1 })) ≡ found (e ∷ es) w
  unfolding visit retain
  found-step e es w h =
      let count : w.visited + 1 + length es ≡ w.visited + suc (length es) = omega arith in
      elim (Bool-cases (contains (wire.to_lowercase e.name) q_lower)) [
        | inl k ↦ rw (h, k, append_assoc w.results (e ∷ []) (hits es), count) refl
        | inr k ↦ rw (h, k, count) refl
      ]

  found-none : (w : Walk) → found [] w ≡ w
  unfolding retain
  found-none w =
      let same : w.visited + 0 ≡ w.visited = omega arith in rw (append-nil w.results, same) refl

  visit_root-files :
      (es : List DirEntry) (w : Walk) → AreFiles es → visit_root wire q_lower es w ≡ found es w
  unfolding visit_root retain
  visit_root-files [] w h = sym (found-none w)
  visit_root-files (e ∷ es) w (he, h) =
      visit_root-files es (visit wire q_lower e (record w { visited = w.visited + 1 })) h
      ∙ found-step e es w he

  visited-visit : (e : DirEntry) (w : Walk) → (visit wire q_lower e w).visited ≡ w.visited
  unfolding visit
  visited-visit e w = ground arith

  visit_all-files :
      (es : List DirEntry) (w : Walk)
      → AreFiles es
      → w.visited + length es ≤ max_visits
      → visit_all wire q_lower es w ≡ found es w
  unfolding visit_all retain
  visit_all-files [] w h b = sym (found-none w)
  visit_all-files (e ∷ es) w (he, h) b =
      let counted : Walk = record w { visited = w.visited + 1 } in
      let small : ltb max_visits (w.visited + 1) ≡ false = ground arith in
      rw small (
        visit_all-files es (visit wire q_lower e counted) h
          (omega (arith, visited-visit e counted, b))
        ∙ found-step e es w he)

  found-begin :
      (es : List DirEntry)
      → found es (record { queue = [] ∷ []; results = []; visited = 0; truncated = false })
        ≡ record { queue = [] ∷ []; results = hits es; visited = length es; truncated = false }
  found-begin es = let same : 0 + length es ≡ length es = omega arith in rw same refl

  walk_loop-cons :
      (listed : Text → Result ProxyError (List DirEntry)) (fuel : ℕ) (d : Text) (later : List Text)
      (w : Walk)
      → w.queue ≡ d ∷ later
      → w.visited < max_visits
      → length w.results < 200
      → walk_loop wire q_lower listed (suc fuel) w
        ≡ walk_loop wire q_lower listed fuel
            (visit_folder wire q_lower (listed d) (record w { queue = later }))
  unfolding walk_loop
  walk_loop-cons listed fuel d later w q v r =
      let within_visits : leb max_visits w.visited ≡ false = ground arith in
      let within_results : leb 200 (length w.results) ≡ false = ground arith in
      rw (q, walk_loop, within_visits, within_results) refl

  walk_loop-nil :
      (listed : Text → Result ProxyError (List DirEntry)) (fuel : ℕ) (w : Walk)
      → walk_loop wire q_lower listed (suc fuel) (record w { queue = [] })
        ≡ some (record w { queue = [] })
  unfolding walk_loop
  walk_loop-nil listed fuel w = refl

  -- The walk over a root with files only, which lists the same each time.
  walk_from-doubles :
      (listed : Text → Result ProxyError (List DirEntry)) (fuel : ℕ) (es : List DirEntry)
      → listed [] ≡ ok es
      → AreFiles es
      → length es + length es ≤ max_visits
      → length (hits es) < 200
      → length es < max_visits
      → walk_from wire q_lower listed (suc (suc fuel)) es
        ≡ some (record {
          queue = [];
          results = hits es ++ hits es;
          visited = length es + length es;
          truncated = false;
        })
  unfolding walk_from visit_folder
  walk_from-doubles listed fuel es again files fits few short =
      let begin : Walk = record { queue = [] ∷ []; results = []; visited = 0; truncated = false } in
      let once : Walk = record {
        queue = [] ∷ [];
        results = hits es;
        visited = length es;
        truncated = false;
      } in
      let popped : Walk = record once { queue = [] } in
      let first : visit_root wire q_lower es begin ≡ once =
        visit_root-files es begin files ∙ found-begin es in
      rw
        (
          first,
          walk_loop-cons listed (suc fuel) [] [] once refl short few,
          again,
          visit_all-files es popped files fits,
        )
        (walk_loop-nil listed fuel (found es popped))

-- A fallback search of a PC whose root has files only, and answers the same twice, gives each file
-- whose name has the query twice, as long as the budget lasts.
pub search_fallback-doubles :
    (wire : Wire) (fuel : ℕ) (s : AppState) (peers : List Peer) (id query : Text)
    (es : List DirEntry)
    → list wire s peers id [] ≡ ok es
    → AreFiles wire (wire.to_lowercase query) es
    → length es + length es ≤ max_visits
    → length (hits wire (wire.to_lowercase query) es) < 200
    → search_fallback wire (suc (suc fuel)) s peers id query
      ≡ ok (
          some (
            hits wire (wire.to_lowercase query) es ++ hits wire (wire.to_lowercase query) es,
            false,
          ))
unfolding search_fallback
search_fallback-doubles wire fuel s peers id query es listed files fits few =
    rw
      (
        listed,
        walk_from-doubles wire (wire.to_lowercase query) (list wire s peers id) fuel es listed files
            fits few (omega arith),
      )
      refl
