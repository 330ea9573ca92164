-- ===== src/Updater.antt =====
-- Versions and the state of an update, crates/doclinkd/src/updater.rs. The answers of the network,
-- of serde_json and of the operating system are arguments.
pub mod Versions
pub mod Apply
pub mod Laws
pub mod Checked
use doc_link.Base.Strings.{codes, is_empty, trim, split, ends_with, contains}
use doc_link.Base.Decimal.{parse_unsigned, u32_mod}
use doc_link.Base.Results.{Result, ok, err, guard, or_err, ◌>>=◌, ◌>>◌}
use doc_link.Base.{ltb, leb, if◌then◌else◌, ◌==◌, Bool, true, false, not, ◌&&◌, ◌||◌}
use doc_link.Base.{Option, none, some, List, [], ◌∷◌, ◌++◌, text_eq, nat_eq, Text, ℕ}

-- `UpdateStatus`
pub record UpdateStatus : Type 0 where
  pub current : Text
  pub latest : Text
  pub prerelease : Bool
  pub download_url : Option Text
  pub msi_url : Option Text
  pub release_notes : Option Text
  pub published_at : Option Text

-- `State`; the progress of a download is in percent.
pub record State : Type 0 where
  pub last_check_unix : Option ℕ
  pub status : Option UpdateStatus
  pub checking : Bool
  pub downloading : Option ℕ
  pub error : Option Text
  pub applied : Bool

-- `trim_start_matches(['v', 'V'])`
unfoldable pub without_v : Text → Text
without_v [] = []
without_v (c ∷ s) = if c == b'v' || c == b'V' then without_v s else c ∷ s

pub record Version : Type 0 where
  pub major : ℕ
  pub minor : ℕ
  pub patch : ℕ

-- `bits.next().unwrap_or("0")`
abbrev pub next_or_zero : List Text → Text
next_or_zero [] = b'0' ∷ []
next_or_zero (w ∷ ws) = w

abbrev pub after_next : List Text → List Text
after_next [] = []
after_next (w ∷ ws) = ws

unfoldable pub parse_part : Text → Option ℕ
parse_part s = parse_unsigned u32_mod (trim s)

abbrev version_of : Option ℕ → Option ℕ → Option ℕ → Option Version
version_of (some a) (some b) (some c) = some (record { major = a; minor = b; patch = c })
version_of _ _ _ = none

-- The parts between the dots; what follows the third is not read.
unfoldable pub parse_parts : List Text → Option Version
unfolding parse_part
parse_parts [] = none
parse_parts (w ∷ ws) =
    version_of (parse_part w) (parse_part (next_or_zero ws))
      (parse_part (next_or_zero (after_next ws)))

-- `parse_version`
unfoldable pub parse_version : Text → Option Version
unfolding without_v parse_parts
parse_version v = parse_parts (split (λ c. c == b'.') (without_v (trim v)))

-- `>` on triples.
unfoldable pub newer : Version → Version → Bool
newer a b =
    ltb b.major a.major
    || (a.major == b.major && (ltb b.minor a.minor || (a.minor == b.minor && ltb b.patch a.patch)))

abbrev pub newer_of : Option Version → Option Version → Bool
newer_of (some a) (some b) = newer a b
newer_of (some a) none = true
newer_of none b = false

-- `version_gt`
unfoldable pub version_gt : Text → Text → Bool
unfolding parse_version newer
version_gt candidate baseline = newer_of (parse_version candidate) (parse_version baseline)

-- `GhAsset`
pub record GhAsset : Type 0 where
  pub name : Text
  pub browser_download_url : Text

-- `GhRelease`
pub record GhRelease : Type 0 where
  pub tag_name : Text
  pub prerelease : Bool
  pub published_at : Option Text
  pub body : Option Text
  pub assets : List GhAsset

-- The last `.zip` and the last `.msi` among the assets.
unfoldable pub pick_assets : List GhAsset → Option Text × Option Text → Option Text × Option Text
pick_assets [] urls = urls
pick_assets (a ∷ rest) (zip, msi) =
    if ends_with a.name (codes ".zip")
    then pick_assets rest (some a.browser_download_url, msi)
    else if ends_with a.name (codes ".msi")
    then pick_assets rest (zip, some a.browser_download_url)
    else pick_assets rest (zip, msi)

-- What the request gives: no answer, an answer whose body cannot be read, or a status and a body.
pub data HttpAnswer : Type 0 where
  unreachable : Text → HttpAnswer
  unreadable : Text → HttpAnswer
  answered : ℕ → Text → HttpAnswer

abbrev pub is_success : ℕ → Bool
is_success status = leb 200 status && ltb status 300

module _ (app_version : Text) (from_str : Text → Result Text GhRelease)
    (show_status : ℕ → Text) where
  -- The status of a newer release; none if the release is not newer.
  unfoldable pub release_status : GhRelease → Option UpdateStatus
  unfolding version_gt without_v pick_assets
  release_status rel =
      let (zip, msi) = pick_assets rel.assets (none, none) in
      if not (version_gt rel.tag_name app_version)
      then none
      else some (record {
        current = app_version;
        latest = without_v rel.tag_name;
        prerelease = rel.prerelease;
        download_url = zip;
        msi_url = msi;
        release_notes = rel.body;
        published_at = rel.published_at;
      })

  abbrev parsed_release : Result Text GhRelease → Result Text (Option UpdateStatus)
  parsed_release (ok rel) = ok (release_status rel)
  parsed_release (err e) = err (codes "bad release payload: " ++ e)

  -- `check_latest`
  unfoldable pub check_latest : HttpAnswer → Result Text (Option UpdateStatus)
  unfolding release_status
  check_latest (unreachable e) = err (codes "cannot reach GitHub: " ++ e)
  check_latest (unreadable e) = err (codes "read response: " ++ e)
  check_latest (answered status body) =
      if status == 403 && contains body (codes "rate limit")
      then err (codes "GitHub rate limit reached — try again later")
      else if not (is_success status)
      then err (codes "GitHub replied " ++ show_status status)
      else parsed_release (from_str body)

  -- The first half of `run_check`.
  unfoldable pub begin_check : State → State
  begin_check st = record st { checking = true; error = none }

  -- The second half, with the outcome; the flag is `Ok`.
  unfoldable pub end_check : ℕ → Result Text (Option UpdateStatus) → State → State × Bool
  end_check now (ok (some status)) st = (
    record st {
      checking = false;
      last_check_unix = some now;
      status = some status;
      applied = false;
    },
    true,
  )
  end_check now (ok none) st = (
    record st {
      checking = false;
      last_check_unix = some now;
      status = some (record {
        current = app_version;
        latest = app_version;
        prerelease = false;
        download_url = none;
        msi_url = none;
        release_notes = none;
        published_at = none;
      });
    },
    true,
  )
  end_check now (err e) st =
      (record st { checking = false; last_check_unix = some now; error = some e }, false)

  -- `run_check`; between its halves the lock is free, and `others` is what others do to the state.
  unfoldable pub run_check : ℕ → HttpAnswer → (State → State) → State → State × Bool
  unfolding check_latest begin_check end_check
  run_check now answer others st = end_check now (check_latest answer) (others (begin_check st))
