-- ===== src/Subtract/Keeps.antt =====
-- What the subtraction leaves readable, and that it adds nothing.
use doc_link.Base.{text_eq}
use doc_link.Scope.{within}
use doc_link.Subtract.{
  Outcome, out_of_fuel, nothing, kept, survivors, walk, narrow, subtract_from_scope,
}
use doc_link.Subtract.{Text, Option, List, extend, push_front, or_no_access, if_changed}
use doc_link.Base.{Elem, Elem-append_left, Elem-append_right, here, there, Bool}
use doc_link.Base.{ℕ, ◌≡◌, ◌≢◌, [], false, some, ◌∷◌, subst, suc, true}
use doc_link.Subtract.{changed, is_empty}
use doc_link.Base.{Bool-cases, ◌==◌, text_beq_iff, zero, refl, inl, inr, not, ◌&&◌, arith}
use doc_link.Base.{nat_eq}

-- The narrowed scope keeps each path that neither is the removed item nor lies above it.
module _ (children : Text → Option (List Text)) (removed : Text) where
  abbrev Has : Text → Outcome → Type 0
  Has p out_of_fuel = Unit {0}
  Has p nothing = Unit {0}
  Has p (kept qs) = Elem p qs

  Has-extend_right : (p : Text) (a b : Outcome) → Has p b → Has p (extend a b)
  Has-extend_right p out_of_fuel b h = tt
  Has-extend_right p nothing b h = tt
  Has-extend_right p (kept qs) out_of_fuel h = tt
  Has-extend_right p (kept qs) nothing h = tt
  Has-extend_right p (kept qs) (kept rs) h = Elem-append_right p qs rs h

  Has-extend_left : (p : Text) (a b : Outcome) → Has p a → Has p (extend a b)
  Has-extend_left p out_of_fuel b h = tt
  Has-extend_left p nothing b h = tt
  Has-extend_left p (kept qs) out_of_fuel h = tt
  Has-extend_left p (kept qs) nothing h = tt
  Has-extend_left p (kept qs) (kept rs) h = Elem-append_left p qs rs h

  Has-push_front_self : (p : Text) (b : Outcome) → Has p (push_front p b)
  Has-push_front_self p out_of_fuel = tt
  Has-push_front_self p nothing = tt
  Has-push_front_self p (kept rs) = here refl

  Has-push_front : (p q : Text) (b : Outcome) → Has p b → Has p (push_front q b)
  Has-push_front p q out_of_fuel h = tt
  Has-push_front p q nothing h = tt
  Has-push_front p q (kept rs) h = there h

  -- An entry beside the removed branch survives the loop over its directory.
  survivors-Has :
      (deeper : Text → Outcome) (k : Text) (ks : List Text)
      → Elem k ks
      → k ≢ removed
      → within removed k ≡ false
      → Has k (survivors children removed deeper ks)
  unfolding survivors
  survivors-Has deeper k [] m n w = elim m [ ]
  survivors-Has deeper k (j ∷ ks) (here e) n w =
      let no_match : (j == removed) ≡ false = ground (arith, text_beq_iff j removed, e) in
      let no_ancestor : within removed j ≡ false = subst (λ t. within removed t ≡ false) e w in
      rw (no_match, no_ancestor, e) (Has-push_front_self j _)
  survivors-Has deeper k (j ∷ ks) (there m) n w = elim (Bool-cases (j == removed)) [
    | inl same ↦ rw same (survivors-Has deeper k ks m n w)
    | inr other ↦ elim (Bool-cases (within removed j)) [
      | inl above ↦ rw (other, above) (Has-extend_right k _ _ (survivors-Has deeper k ks m n w))
      | inr aside ↦ rw (other, aside) (Has-push_front k j _ (survivors-Has deeper k ks m n w))
    ]
  ]

  -- So does what is kept of a folder above the item.
  survivors-Has_deeper :
      (deeper : Text → Outcome) (j k : Text) (ks : List Text)
      → Elem j ks
      → j ≢ removed
      → within removed j ≡ true
      → Has k (deeper j)
      → Has k (survivors children removed deeper ks)
  unfolding survivors
  survivors-Has_deeper deeper j k [] m n w h = elim m [ ]
  survivors-Has_deeper deeper j k (i ∷ ks) (here e) n w h =
      let no_match : (i == removed) ≡ false = ground (arith, text_beq_iff i removed, e) in
      let above : within removed i ≡ true = subst (λ t. within removed t ≡ true) e w in
      rw (no_match, above) (Has-extend_left k _ _ (subst (λ t. Has k (deeper t)) e h))
  survivors-Has_deeper deeper j k (i ∷ ks) (there m) n w h = elim (Bool-cases (i == removed)) [
    | inl same ↦ rw same (survivors-Has_deeper deeper j k ks m n w h)
    | inr other ↦ elim (Bool-cases (within removed i)) [
      | inl above ↦
          rw (other, above) (Has-extend_right k _ _ (survivors-Has_deeper deeper j k ks m n w h))
      | inr aside ↦
          rw (other, aside) (Has-push_front k i _ (survivors-Has_deeper deeper j k ks m n w h))
    ]
  ]

  -- `k` is listed in `d`, or in a folder below `d` on the way to the removed item.
  pub data Below (k : Text) : Text → Type 0 where
    listed : {d : Text} → (ks : List Text) → children d ≡ some ks → Elem k ks → Below k d
    deeper :
        {d : Text}
        → (ks : List Text) (j : Text) → children d ≡ some ks
        → Elem j ks
        → j ≢ removed
        → within removed j ≡ true
        → Below k j
        → Below k d

  walk-Has :
      (fuel : ℕ) (d k : Text)
      → Below k d
      → k ≢ removed
      → within removed k ≡ false
      → Has k (walk children removed fuel d)
  unfolding walk
  walk-Has zero d k b n w = tt
  walk-Has (suc fuel) d k (listed ks e m) n w =
      rw (e, walk) (survivors-Has (walk children removed fuel) k ks m n w)
  walk-Has (suc fuel) d k (deeper ks j e m jn jw b) n w =
      rw (e, walk)
        (survivors-Has_deeper (walk children removed fuel) j k ks m jn jw (walk-Has fuel j k b n w))

  narrow-Has :
      (fuel : ℕ) (p : Text) (ps : List Text)
      → Elem p ps
      → p ≢ removed
      → within removed p ≡ false
      → Has p (narrow children removed fuel ps)
  unfolding narrow
  narrow-Has fuel p [] m n w = elim m [ ]
  narrow-Has fuel p (j ∷ ps) (here e) n w =
      let no_match : (j == removed) ≡ false = ground (arith, text_beq_iff j removed, e) in
      let no_ancestor : within removed j ≡ false = subst (λ t. within removed t ≡ false) e w in
      let no_walk : (not (is_empty j) && within removed j) ≡ false = ground (arith, no_ancestor) in
      rw (no_match, no_walk, e) (Has-push_front_self j _)
  narrow-Has fuel p (j ∷ ps) (there m) n w = elim (Bool-cases (j == removed)) [
    | inl same ↦ rw same (narrow-Has fuel p ps m n w)
    | inr other ↦ elim (Bool-cases (not (is_empty j) && within removed j)) [
      | inl above ↦ rw (other, above) (Has-extend_right p _ _ (narrow-Has fuel p ps m n w))
      | inr aside ↦ rw (other, aside) (Has-push_front p j _ (narrow-Has fuel p ps m n w))
    ]
  ]

  within-nonempty : (p : Text) → within removed p ≡ true → not (is_empty p) ≡ true
  unfolding within
  within-nonempty [] h = absurd (cc)
  within-nonempty (c ∷ p) h = refl

  narrow-Has_deeper :
      (fuel : ℕ) (p k : Text) (ps : List Text)
      → Elem p ps
      → p ≢ removed
      → within removed p ≡ true
      → Has k (walk children removed fuel p)
      → Has k (narrow children removed fuel ps)
  unfolding narrow
  narrow-Has_deeper fuel p k [] m n w h = elim m [ ]
  narrow-Has_deeper fuel p k (j ∷ ps) (here e) n w h =
      let no_match : (j == removed) ≡ false = ground (arith, text_beq_iff j removed, e) in
      let above : within removed j ≡ true = subst (λ t. within removed t ≡ true) e w in
      let walked : (not (is_empty j) && within removed j) ≡ true =
        ground (arith, above, within-nonempty j above) in
      rw (no_match, walked)
        (Has-extend_left k _ _ (subst (λ t. Has k (walk children removed fuel t)) e h))
  narrow-Has_deeper fuel p k (j ∷ ps) (there m) n w h = elim (Bool-cases (j == removed)) [
    | inl same ↦ rw same (narrow-Has_deeper fuel p k ps m n w h)
    | inr other ↦ elim (Bool-cases (not (is_empty j) && within removed j)) [
      | inl above ↦
          rw (other, above) (Has-extend_right k _ _ (narrow-Has_deeper fuel p k ps m n w h))
      | inr aside ↦ rw (other, aside) (Has-push_front k j _ (narrow-Has_deeper fuel p k ps m n w h))
    ]
  ]

  or_no_access-Has :
      (p : Text) (out : Outcome) → Has p out → Has p (or_no_access children removed out)
  or_no_access-Has p out_of_fuel h = tt
  or_no_access-Has p nothing h = tt
  or_no_access-Has p (kept []) h = elim h [ ]
  or_no_access-Has p (kept (q ∷ qs)) h = h

  if_changed-Has :
      (p : Text) (b : Bool) (out : Outcome) → Has p out → Has p (if_changed children removed b out)
  if_changed-Has p true out h = h
  if_changed-Has p false out_of_fuel h = tt
  if_changed-Has p false nothing h = tt
  if_changed-Has p false (kept qs) h = tt

  -- What a scope grants beside the branch: a granted path, what is listed below a granted folder on
  -- the way to the item, and for the full scope what is listed below the share root on that way.
  pub data Beside (paths : List Text) (k : Text) : Type 0 where
    granted : Elem k paths → Beside paths k
    in_folder :
        (p : Text)
        → Elem p paths
        → p ≢ removed
        → within removed p ≡ true
        → Below k p
        → Beside paths k
    in_share : paths ≡ [] → Below k [] → Beside paths k

  subtract-Has :
      (fuel : ℕ) (paths : List Text) (k : Text)
      → Beside paths k
      → k ≢ removed
      → within removed k ≡ false
      → Has k (subtract_from_scope children removed fuel paths)
  unfolding subtract_from_scope
  subtract-Has fuel [] k (granted m) n w = elim m [ ]
  subtract-Has fuel [] k (in_folder p m pn pw b) n w = elim m [ ]
  subtract-Has fuel [] k (in_share e b) n w = or_no_access-Has k _ (walk-Has fuel [] k b n w)
  subtract-Has fuel (p ∷ ps) k (granted m) n w =
      or_no_access-Has k _
        (if_changed-Has k (changed children removed (p ∷ ps)) _ (narrow-Has fuel k (p ∷ ps) m n w))
  subtract-Has fuel (p ∷ ps) k (in_folder q m qn qw b) n w = or_no_access-Has k _ (
      if_changed-Has k (changed children removed (p ∷ ps)) _
        (narrow-Has_deeper fuel q k (p ∷ ps) m qn qw (walk-Has fuel q k b n w)))
  subtract-Has fuel (p ∷ ps) k (in_share e b) n w = absurd (cc)

  -- Nothing beside the removed branch is lost: of whatever neither is the item nor lies above it, the
  -- new scope still lists each granted path (also one below the item), each entry of a folder that lies between a granted
  -- folder and the item, at any depth, and for a grant of the whole share each entry of the share root
  -- and of the folders between it and the item.
  pub subtract_keeps :
      (fuel : ℕ) (paths out : List Text) (k : Text)
      → subtract_from_scope children removed fuel paths ≡ kept out
      → k ≢ removed
      → within removed k ≡ false
      → Beside paths k
      → Elem k out
  subtract_keeps fuel paths out k e n w b = subst (Has k) e (subtract-Has fuel paths k b n w)
