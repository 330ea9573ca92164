-- ===== src/Updater/Checked.antt =====
-- What a check for an update leaves in the shared state, `run_check` of
-- crates/doclinkd/src/updater.rs.
use doc_link.Updater.{
  GhAsset, pick_assets, UpdateStatus, State, GhRelease, HttpAnswer, check_latest, begin_check,
  end_check, run_check, version_gt, without_v, release_status, is_success,
}
use doc_link.Base.Results.{Result, ok, err, Result-cases}
use doc_link.Base.{Bool-cases, Text, ℕ, ◌≡◌, refl, ◌⊎◌, inl, inr, true, false}
use doc_link.Base.{Option, none, some}
use doc_link.Base.{◌==◌, ◌&&◌, text_eq, nat_eq}
use doc_link.Updater.{contains, codes, ends_with}
use doc_link.Base.{Bool, ap, arith, ◌++◌, not, List, [], ◌∷◌, ◌∙◌}

abbrev or_old : Option Text → Option Text → Option Text
or_old none old = old
or_old (some url) old = some url

or_old_assoc : (a b c : Option Text) → or_old a (or_old b c) ≡ or_old (or_old a b) c
or_old_assoc none b c = refl
or_old_assoc (some u) b c = refl

abbrev url_if : Bool → GhAsset → Option Text
url_if true a = some a.browser_download_url
url_if false a = none

-- The address of the last asset that passes a test.
unfoldable pub last_url : (GhAsset → Bool) → List GhAsset → Option Text
last_url p [] = none
last_url p (a ∷ rest) = or_old (last_url p rest) (url_if (p a) a)

abbrev pub is_zip : GhAsset → Bool
is_zip a = ends_with a.name (codes ".zip")

abbrev pub is_msi : GhAsset → Bool
is_msi a = not (is_zip a) && ends_with a.name (codes ".msi")

pick_assets-cons :
    (a : GhAsset) (rest : List GhAsset) (zip msi : Option Text)
    → pick_assets (a ∷ rest) (zip, msi)
      ≡ pick_assets rest (or_old (url_if (is_zip a) a) zip, or_old (url_if (is_msi a) a) msi)
unfolding pick_assets
pick_assets-cons a rest zip msi = elim (Bool-cases (ends_with a.name (codes ".zip"))) [
  | inl z ↦ rw z refl
  | inr z ↦ elim (Bool-cases (ends_with a.name (codes ".msi"))) [
    | inl m ↦ rw (z, m) refl
    | inr m ↦ rw (z, m) refl
  ]
]

pick_assets_lem :
    (assets : List GhAsset) (zip msi : Option Text)
    → pick_assets assets (zip, msi)
      ≡ (or_old (last_url is_zip assets) zip, or_old (last_url is_msi assets) msi)
unfolding last_url pick_assets
pick_assets_lem [] zip msi = refl
pick_assets_lem (a ∷ rest) zip msi =
    pick_assets-cons a rest zip msi
    ∙ (pick_assets_lem rest _ _
        ∙ (ap (λ z. (z, or_old (last_url is_msi rest) (or_old (url_if (is_msi a) a) msi)))
              (or_old_assoc (last_url is_zip rest) (url_if (is_zip a) a) zip)
            ∙ ap (λ m. (or_old (or_old (last_url is_zip rest) (url_if (is_zip a) a)) zip, m))
                (or_old_assoc (last_url is_msi rest) (url_if (is_msi a) a) msi)))

or_old-none : (o : Option Text) → or_old o none ≡ o
or_old-none none = refl
or_old-none (some u) = refl

-- The status that a check stores for a release that is newer, and for one that is not.
abbrev pub newer_status : Text → GhRelease → UpdateStatus
newer_status app_version rel = record {
  current = app_version;
  latest = without_v rel.tag_name;
  prerelease = rel.prerelease;
  download_url = last_url is_zip rel.assets;
  msi_url = last_url is_msi rel.assets;
  release_notes = rel.body;
  published_at = rel.published_at;
}

abbrev pub up_to_date : Text → UpdateStatus
up_to_date app_version = record {
  current = app_version;
  latest = app_version;
  prerelease = false;
  download_url = none;
  msi_url = none;
  release_notes = none;
  published_at = none;
}

-- A check that failed with a message leaves the message, and the status as it was.
abbrev pub HasFailed : Text → State → State × Bool → Type 0
HasFailed e before t =
    (t.1 ≡ false)
    × (t.0.error ≡ some e)
    × (t.0.status ≡ before.status)
    × (t.0.applied ≡ before.applied)

-- A check that read a release leaves its status, and a newer release is not applied yet.
abbrev pub HasRead : Text → GhRelease → State → State × Bool → Type 0
HasRead app_version rel before t =
    (t.1 ≡ true)
    × (t.0.error ≡ before.error)
    × ((version_gt rel.tag_name app_version ≡ true)
          × (t.0.status ≡ some (newer_status app_version rel))
          × (t.0.applied ≡ false)
        ⊎ (version_gt rel.tag_name app_version ≡ false)
          × (t.0.status ≡ some (up_to_date app_version))
          × (t.0.applied ≡ before.applied))

-- How a check ends, by the answer: a release is read just if the answer is a success whose body is
-- that of the release.
abbrev pub IsOutcome :
    Text → (Text → Result Text GhRelease) → HttpAnswer → State → State × Bool → Type 0
IsOutcome app_version from_str (HttpAnswer.unreachable e) before t =
    HasFailed (codes "cannot reach GitHub: " ++ e) before t
IsOutcome app_version from_str (HttpAnswer.unreadable e) before t =
    HasFailed (codes "read response: " ++ e) before t
IsOutcome app_version from_str (HttpAnswer.answered status body) before t =
    ((rel : GhRelease) × (is_success status ≡ true)
      × (from_str body ≡ ok rel)
      × HasRead app_version rel before t)
    ⊎ ((e : Text) × (is_success status ≡ true)
        × (from_str body ≡ err e)
        × HasFailed (codes "bad release payload: " ++ e) before t)
    ⊎ ((e : Text) × (is_success status ≡ false) × HasFailed e before t)

-- What a check leaves of the state that it finds when the answer is there.
abbrev pub IsChecked :
    Text → (Text → Result Text GhRelease) → ℕ → HttpAnswer → State → State × Bool → Type 0
IsChecked app_version from_str now answer before t =
    (t.0.checking ≡ false)
    × (t.0.last_check_unix ≡ some now)
    × (t.0.downloading ≡ before.downloading)
    × IsOutcome app_version from_str answer before t

module _ (app_version : Text) (from_str : Text → Result Text GhRelease)
    (show_status : ℕ → Text) where
  release_status-newer :
      (rel : GhRelease)
      → version_gt rel.tag_name app_version ≡ true
      → release_status app_version from_str show_status rel ≡ some (newer_status app_version rel)
  unfolding release_status
  release_status-newer rel h =
      let picked : pick_assets rel.assets (none, none)
          ≡ (last_url is_zip rel.assets, last_url is_msi rel.assets) =
        pick_assets_lem rel.assets none none
        ∙ (ap (λ z. (z, or_old (last_url is_msi rel.assets) none)) (or_old-none _)
            ∙ ap (λ m. (last_url is_zip rel.assets, m)) (or_old-none _)) in
      rw (h, picked) refl

  release_status-older :
      (rel : GhRelease)
      → version_gt rel.tag_name app_version ≡ false
      → release_status app_version from_str show_status rel ≡ none
  unfolding release_status
  release_status-older rel h = rw h refl

  end_check-HasRead :
      (now : ℕ) (rel : GhRelease) (before : State)
      → HasRead app_version rel before (
          end_check app_version from_str show_status now
            (ok (release_status app_version from_str show_status rel))
            before)
  unfolding end_check
  end_check-HasRead now rel before = elim (Bool-cases (version_gt rel.tag_name app_version)) [
    | inl h ↦ rw (release_status-newer rel h) (refl, refl, inl (h, refl, refl))
    | inr h ↦ rw (release_status-older rel h) (refl, refl, inr (h, refl, refl))
  ]

  no_success : (status : ℕ) → (status == 403) ≡ true → is_success status ≡ false
  no_success status h = ground (arith, h)

  IsOutcome-answered :
      (now status : ℕ) (body : Text) (before : State)
      → IsOutcome app_version from_str (HttpAnswer.answered status body) before (
          end_check app_version from_str show_status now
            (check_latest app_version from_str show_status (HttpAnswer.answered status body))
            before)
  unfolding check_latest end_check
  IsOutcome-answered now status body before =
      elim (Bool-cases (status == 403 && contains body (codes "rate limit"))) [
        | inl l ↦
            let limited : (status == 403) ≡ true = ground (arith, l) in
            rw l (inr (inr (_, no_success status limited, (refl, refl, refl, refl))))
        | inr l ↦ elim (Bool-cases (is_success status)) [
          | inr f ↦ rw (l, f) (inr (inr (_, refl, (refl, refl, refl, refl))))
          | inl f ↦ elim (Result-cases (from_str body)) [
            | inr (x, r) ↦ rw (l, f, r) (inr (inl (x, refl, refl, (refl, refl, refl, refl))))
            | inl (rel, r) ↦ rw (l, f, r) (inl (rel, refl, refl, end_check-HasRead now rel before))
          ]
        ]
      ]

  end_check_over :
      (now : ℕ) (r : Result Text (Option UpdateStatus)) (before : State)
      → let t = end_check app_version from_str show_status now r before in
        (t.0.checking ≡ false)
        × (t.0.last_check_unix ≡ some now)
        × (t.0.downloading ≡ before.downloading)
  unfolding end_check
  end_check_over now (ok (some s)) before = (refl, refl, refl)
  end_check_over now (ok none) before = (refl, refl, refl)
  end_check_over now (err e) before = (refl, refl, refl)

  end_check-IsOutcome :
      (now : ℕ) (answer : HttpAnswer) (before : State)
      → IsOutcome app_version from_str answer before (
          end_check app_version from_str show_status now
            (check_latest app_version from_str show_status answer)
            before)
  unfolding check_latest end_check
  end_check-IsOutcome now (HttpAnswer.unreachable e) before = (refl, refl, refl, refl)
  end_check-IsOutcome now (HttpAnswer.unreadable e) before = (refl, refl, refl, refl)
  end_check-IsOutcome now (HttpAnswer.answered status body) before =
      IsOutcome-answered now status body before

  -- A check is over when it returns, at the time it notes, whatever others did to the state in
  -- between, and leaves a running download alone. If GitHub cannot be reached, or the answer cannot
  -- be read, is no success or is not that of a release, the check fails with a message and keeps the
  -- status. Else it succeeds: a release that is newer gives its status, with the addresses of its
  -- last portable package and its last installer, and is not marked as applied; any other release
  -- gives the running version as the latest.
  pub run_check_lem :
      (now : ℕ) (answer : HttpAnswer) (others : State → State) (st : State)
      → IsChecked app_version from_str now answer
          (others (begin_check app_version from_str show_status st))
          (run_check app_version from_str show_status now answer others st)
  unfolding run_check
  run_check_lem now answer others st =
      let before = others (begin_check app_version from_str show_status st) in
      let (over, at, downloading) =
        end_check_over now (check_latest app_version from_str show_status answer) before in
      (over, at, downloading, end_check-IsOutcome now answer before)
