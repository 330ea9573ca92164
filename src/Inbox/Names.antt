-- ===== src/Inbox/Names.antt =====
-- The search for a free name ends: `dedupe_in_dir` of crates/doclinkd/src/inbox.rs.
use doc_link.Inbox.{Folder, Node, exists, is_present, candidate, first_free, dedupe_in_dir}
use doc_link.Base.Map.{lookup, remove, lookup-remove, length-remove-lt}
use doc_link.Base.Strings.{codes, is_empty, rsplit_once, append_inj, append_sep_inj}
use doc_link.Base.Decimal.{to_decimal, to_decimal_inj, has_char-to_decimal}
use doc_link.Base.{Bool-cases, Option-cases, Text, beq-eq, length, ℕ, zero, suc, ◌+◌}
use doc_link.Base.{◌≤◌, ◌<◌, ◌≡◌, refl, sym, ap, ◌∙◌, ◌≢◌, ◌⊎◌, inl, inr, true, false, some}
use doc_link.Base.{[], ◌∷◌, ◌++◌, arith, text_eq, nat_eq}

-- A number between brackets can be read off.
numbered_inj :
    (front back : Text) (m n : ℕ)
    → front ++ (codes " (" ++ (to_decimal m ++ (b')' ∷ back)))
      ≡ front ++ (codes " (" ++ (to_decimal n ++ (b')' ∷ back)))
    → m ≡ n
numbered_inj front back m n e =
    let tails =
      append_inj (codes " (") (to_decimal m ++ (b')' ∷ back)) (to_decimal n ++ (b')' ∷ back))
        (append_inj front _ _ e) in
    to_decimal_inj m n
      (append_sep_inj b')' (to_decimal m) (to_decimal n) back back (has_char-to_decimal b')' m refl)
        (has_char-to_decimal b')' n refl) tails).0

candidate_inj : (name : Text) (m n : ℕ) → candidate name m ≡ candidate name n → m ≡ n
unfolding candidate
candidate_inj name m n = elim (Option-cases (rsplit_once b'.' name)) [
  | inl e ↦ rw (e, candidate) λ h. numbered_inj name [] m n h
  | inr ((stem, ext), e) ↦ elim (Bool-cases (is_empty stem)) [
    | inl k ↦ rw (e, candidate, k) λ h. numbered_inj name [] m n h
    | inr k ↦ rw (e, candidate, k) λ h. numbered_inj stem (b'.' ∷ ext) m n h
  ]
]

exists-remove : (d : Folder) (k j : Text) → k ≢ j → exists (remove k d) j ≡ exists d j
unfolding exists
exists-remove d k j h =
    let same : lookup j (remove k d) ≡ lookup j d =
      rw (lookup-remove j k d) (ground (arith, h, beq-eq k j)) in
    ap is_present same

-- A name that is there can be taken out, which changes no later test.
first_free-remove :
    (fuel n : ℕ) (f : ℕ → Text) (d : Folder) (k : Text)
    → ((m : ℕ) → n ≤ m → k ≢ f m)
    → first_free fuel n f (remove k d) ≡ first_free fuel n f d
unfolding first_free
first_free-remove zero n f d k h = refl
first_free-remove (suc fuel) n f d k h =
    rw
      (
        exists-remove d k (f n) (h n (omega arith)),
        first_free-remove fuel (n + 1) f d k (λ m le. h m (omega arith)),
      )
      refl

exists-some : (d : Folder) (k : Text) → exists d k ≡ true → (v : Node) × (lookup k d ≡ some v)
unfolding exists
exists-some d k = elim (Option-cases (lookup k d)) [
  | inl e ↦ rw e λ h. absurd (cc)
  | inr (v, e) ↦ λ h. (v, e)
]

-- Among more numbered names than the folder has entries one is free.
pub first_free_total :
    (fuel n : ℕ) (f : ℕ → Text) (d : Folder)
    → ((i j : ℕ) → f i ≡ f j → i ≡ j)
    → length d < fuel
    → (m : ℕ) × (first_free fuel n f d ≡ some (f m)) × (exists d (f m) ≡ false) × (n ≤ m)
unfolding first_free
first_free_total zero n f d inj h = absurd (omega arith)
first_free_total (suc fuel) n f d inj h = elim (Bool-cases (exists d (f n))) [
  | inr e ↦ rw e (n, refl, e, omega arith)
  | inl e ↦
      let (v, found) = exists-some d (f n) e in
      let shorter = length-remove-lt (f n) v d found in
      let other : ((m : ℕ) → n + 1 ≤ m → f n ≢ f m) =
        λ m le same. absurd (omega (arith, inj n m same)) in
      let (m, r, free, le) = first_free_total fuel (n + 1) f (remove (f n) d) inj (omega arith) in
      (
        m,
        rw e (sym (first_free-remove fuel (n + 1) f d (f n) other) ∙ r),
        sym (exists-remove d (f n) (f m) (other m le)) ∙ free,
        omega arith,
      )
]

-- The search for a name always ends with the name itself or one with a number, at which nothing
-- exists yet; as many rounds as the folder has entries, and one, are enough.
pub dedupe_total :
    (d : Folder) (name : Text) (fuel : ℕ)
    → length d < fuel
    → (stored : Text) × (dedupe_in_dir fuel d name ≡ some stored)
      × (exists d stored ≡ false)
      × ((stored ≡ name) ⊎ ((n : ℕ) × (stored ≡ candidate name n)))
unfolding dedupe_in_dir
dedupe_total d name fuel h = elim (Bool-cases (exists d name)) [
  | inr e ↦ rw e (name, refl, e, inl refl)
  | inl e ↦
      let (m, r, free, le) = first_free_total fuel 1 (candidate name) d (candidate_inj name) h in
      rw e (candidate name m, r, free, inr (m, refl))
]
