-- ===== src/GrantAdmin/Laws.antt =====
-- What a revocation and an update of a grant do (crates/doclinkd/src/admin.rs), on every outcome.
use doc_link.Protocol.{HttpError, http_error, lit}
use doc_link.Store.{Store, Grant, GrantsFile, save}
use doc_link.Store.Grants.{find_fingerprint}
use doc_link.Store.Keyed.{find_key-without}
use doc_link.GrantAdmin.{saved, revoke_grant, updated, update_first, update_grant}
use doc_link.Base.Results.{Result, ok, err}
use doc_link.Base.{
  if◌then◌else◌, Bool-cases, Option-cases, subst, some, none, ◌==◌, Text, beq-eq, length, retain,
  find,
}
use doc_link.Base.{length-retain-le, retain_of_length, ℕ, ◌+◌, ◌≤◌, ◌≡◌, refl, ◌⊎◌, inl}
use doc_link.Base.{inr, Bool, false, not, Option, none, some, [], ◌∷◌, arith, text_eq}
use doc_link.Base.{nat_eq}
use doc_link.Base.{true, ◌&&◌, ◌||◌, List}
use doc_link.Base.{text_beq_iff, ap, ◌∙◌}

lt_of_ne : (a b : ℕ) → a ≤ b → (a == b) ≡ false → a + 1 ≤ b
lt_of_ne a b h e = ground (arith, e)

-- A revocation takes the fingerprint's grant out of the memory and no other, whether the file can be
-- written or not. It is answered with 404 just if nothing was taken out, and with success just if
-- something was and the file then holds what the memory holds.
pub revoke_grant_lem :
    (s : Store GrantsFile) (fp reason : Text) (writable : Bool)
    → let (t, answer) = revoke_grant s fp writable reason in
      ((x : Text)
        → find_fingerprint x t.content ≡ (if fp == x then none else find_fingerprint x s.content))
      × ((t.content ≡ s.content) × (answer ≡ err (http_error 404 (lit "unknown grant")))
          ⊎ (length t.content + 1 ≤ length s.content)
            × ((answer ≡ ok tt) × (t.on_disk ≡ some t.content)
                ⊎ (answer ≡ err (http_error 500 reason)) × (t.on_disk ≡ s.on_disk)))
unfolding revoke_grant saved save
revoke_grant_lem s fp reason writable =
    let keep : Grant → Bool = λ x. not (x.fingerprint == fp) in
    let others = λ (x : Text). find_key-without (λ g. g.fingerprint) x fp s.content in
    elim (Bool-cases (length (retain keep s.content) == length s.content)) [
      | inl e ↦
          rw (e, revoke_grant) (others, inl (retain_of_length keep s.content (beq-eq _ _ e), refl))
      | inr e ↦
          rw (e, revoke_grant)
            let short : length (retain keep s.content) + 1 ≤ length s.content =
                lt_of_ne _ _ (length-retain-le keep s.content) e in
              elim (Bool-cases writable) [
                | inl w ↦ rw (w, save) (others, inr (short, inl (refl, refl)))
                | inr w ↦ rw (w, save) (others, inr (short, inr (refl, refl)))
              ]
    ]

insert_before :
    (p q : Bool) (y : Grant) (z l r : Option Grant)
    → l ≡ (if q then z else r)
    → (p ≡ true → q ≡ true → ⊥)
    → (if p then some y else l) ≡ (if q then z else (if p then some y else r))
insert_before p q y z l r h apart = ground arith

differ : (a b x : Text) → (a == b) ≡ false → (a == x) ≡ true → (b == x) ≡ true → ⊥
differ a b x e h k = ground (arith, text_beq_iff a x, text_beq_iff b x, text_beq_iff a b)

update_first-find :
    (fp x : Text) (f : Grant → Grant) (gs : GrantsFile) (g : Grant)
    → ((h : Grant) → (f h).fingerprint ≡ h.fingerprint)
    → find_fingerprint fp gs ≡ some g
    → find_fingerprint x (update_first fp f gs)
      ≡ (if fp == x then some (f g) else find_fingerprint x gs)
unfolding update_first find
update_first-find fp x f [] g keeps = λ h. absurd (cc)
update_first-find fp x f (y ∷ ys) g keeps = elim (Bool-cases (y.fingerprint == fp)) [
  | inl e ↦ rw e λ h.
      let same : y ≡ g = cc in
      let y_fp : y.fingerprint ≡ fp = beq-eq y.fingerprint fp e in
      let left : ((f y).fingerprint == x) ≡ (fp == x) = ap (λ z. z == x) (keeps y ∙ y_fp) in
      let right : (y.fingerprint == x) ≡ (fp == x) = ap (λ z. z == x) y_fp in
      elim (Bool-cases (fp == x)) [
        | inl k ↦ rw (left ∙ k, k) (ap (λ z. some (f z)) same)
        | inr k ↦ rw (left ∙ k, right ∙ k, k) refl
      ]
  | inr e ↦ rw e λ h.
      insert_before (y.fingerprint == x) (fp == x) y (some (f g)) _ _
        (update_first-find fp x f ys g keeps h) (λ a b. differ y.fingerprint fp x e a b)
]

updated_key :
    (paths : List Text) (allow_files allow_print : Option Bool) (h : Grant)
    → (updated paths allow_files allow_print h).fingerprint ≡ h.fingerprint
unfolding updated
updated_key paths allow_files allow_print h = refl

permission_cases :
    (a b : Bool)
    → ((a || b ≡ false) × (not a && not b ≡ true)) ⊎ ((a || b ≡ true) × (not a && not b ≡ false))
permission_cases true b = inr (refl, refl)
permission_cases false true = inr (refl, refl)
permission_cases false false = inl (refl, refl)

-- What an update of a fingerprint with a grant leaves: the first such grant is changed in memory
-- and no other fingerprint's, also when the update is refused.
abbrev pub IsUpdated :
    Text → Grant → Text → Store GrantsFile → Store GrantsFile × Result HttpError Grant → Type 0
IsUpdated fp after reason s (t, answer) =
    ((x : Text)
      → find_fingerprint x t.content
        ≡ (if fp == x then some after else find_fingerprint x s.content))
    × (((after.allow_files || after.allow_print ≡ false)
          × (t.on_disk ≡ s.on_disk)
          × (answer ≡ err (http_error 400 (lit "grant must allow at least files or printing"))))
        ⊎ ((after.allow_files || after.allow_print ≡ true)
            × ((answer ≡ ok after) × (t.on_disk ≡ some t.content)
                ⊎ (answer ≡ err (http_error 500 reason)) × (t.on_disk ≡ s.on_disk))))

update_grant_raw :
    (s : Store GrantsFile) (fp : Text) (paths : List Text) (allow_files allow_print : Option Bool)
    (writable : Bool) (reason : Text) (g : Grant)
    → find_fingerprint fp s.content ≡ some g
    → IsUpdated fp
        (updated paths allow_files allow_print g)
        reason
        s
        (update_grant s fp paths allow_files allow_print writable reason)
unfolding update_grant saved save
update_grant_raw s fp paths allow_files allow_print writable reason g found =
    let f = updated paths allow_files allow_print in
    let where_found = λ (x : Text).
      update_first-find fp x f s.content g (updated_key paths allow_files allow_print) found in
    elim (permission_cases (f g).allow_files (f g).allow_print) [
      | inl (no_use, e) ↦
          rw (found, update_grant) rw (e, update_grant) (where_found, inl (no_use, refl, refl))
      | inr (some_use, e) ↦
          rw (found, update_grant) rw (e, update_grant)
            elim (Bool-cases writable) [
              | inl w ↦ rw (w, save) (where_found, inr (some_use, inl (refl, refl)))
              | inr w ↦ rw (w, save) (where_found, inr (some_use, inr (refl, refl)))
            ]
    ]

updated_lem :
    (paths : List Text) (allow_files allow_print : Option Bool) (g : Grant)
    → updated paths allow_files allow_print g ≡ record g {
      paths = paths;
      allow_files = elim allow_files [ none ↦ g.allow_files | some b ↦ b ];
      allow_print = elim allow_print [ none ↦ g.allow_print | some b ↦ b ];
    }
unfolding updated
updated_lem paths none none g = refl
updated_lem paths none (some b) g = refl
updated_lem paths (some a) none g = refl
updated_lem paths (some a) (some b) g = refl

-- An update of a fingerprint without a grant is answered with 404 and changes nothing. Else the
-- first such grant has afterwards the paths that are given, and each permission that is given, with
-- all else as before, also when the update is refused. It is refused with 400, and the file left
-- alone, just if no permission remains; else it is answered with the new grant if the file can be
-- written, and the file then holds what the memory holds.
pub update_grant_lem :
    (s : Store GrantsFile) (fp : Text) (paths : List Text) (allow_files allow_print : Option Bool)
    (writable : Bool) (reason : Text)
    → let result = update_grant s fp paths allow_files allow_print writable reason in
      ((find_fingerprint fp s.content ≡ none)
        × (result ≡ (s, err (http_error 404 (lit "unknown grant")))))
      ⊎ ((g : Grant) × (find_fingerprint fp s.content ≡ some g)
          × IsUpdated fp
              (record g {
                paths = paths;
                allow_files = elim allow_files [ none ↦ g.allow_files | some b ↦ b ];
                allow_print = elim allow_print [ none ↦ g.allow_print | some b ↦ b ];
              })
              reason
              s
              result)
unfolding update_grant
update_grant_lem s fp paths allow_files allow_print writable reason =
    elim (Option-cases (find_fingerprint fp s.content)) [
      | inl e ↦ inl (e, rw (e, update_grant) refl)
      | inr (g, found) ↦ inr (
        g,
        found,
        subst
            (λ after.
              IsUpdated fp after reason s
                (update_grant s fp paths allow_files allow_print writable reason))
            (updated_lem paths allow_files allow_print g)
            (update_grant_raw s fp paths allow_files allow_print writable reason g found),
      )
    ]
