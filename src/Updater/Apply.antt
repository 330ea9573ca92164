-- ===== src/Updater/Apply.antt =====
-- Downloading and applying an update: `apply_update` and `download_and_stage` of
-- crates/doclinkd/src/updater.rs.
use doc_link.Updater.{UpdateStatus, State, version_gt, is_success}
use doc_link.Base.Strings.{codes}
use doc_link.Base.Results.{Result, ok, err, guard, or_err, ◌>>=◌, ◌>>◌}
use doc_link.Base.{if◌then◌else◌, Bool, true, false, not, Option, none, some, List, ◌++◌}
use doc_link.Base.{Text, ℕ}

-- What the request for the package gives.
pub data Download : Type 0 where
  failed : Text → Download
  replied : ℕ → Result Text (List ℕ) → Download

-- The answers of the network and of the operating system: the download, the error of writing the
-- package, whether it could be unpacked and holds the window's program, the error of the script.
pub record Machine : Type 0 where
  pub get : Text → Download
  pub write_zip : List ℕ → Option Text
  pub unpack : Bool
  pub has_window : Bool
  pub spawn : Option Text
  pub show_status : ℕ → Text

abbrev pub no_error : Option Text → Text → Result Text (Unit {0})
no_error none msg = ok tt
no_error (some e) msg = err (msg ++ e)

-- The bytes of the package, on disk; the shared state is not touched.
unfoldable pub fetch : Machine → Download → Result Text (Unit {0})
fetch m (failed e) = err (codes "download failed: " ++ e)
fetch m (replied status body) =
    if not (is_success status)
    then err (codes "download failed: HTTP " ++ m.show_status status)
    else elim body [
      | err e ↦ err (codes "download failed: " ++ e)
      | ok bytes ↦ no_error (m.write_zip bytes) (codes "write staging zip: ")
    ]

-- The package unpacked and the script started.
unfoldable pub stage : Machine → Result Text (Unit {0})
stage m = do
  guard m.unpack (codes "could not unpack the downloaded package")
  guard m.has_window (codes "downloaded package is missing doclink-win.exe")
  no_error m.spawn (codes "launch updater: ")

abbrev pub done_message : Text
done_message = codes "Update downloaded — DocLink will restart in a moment"

abbrev pub finished : Result Text (Unit {0}) → State → State × Result Text Text
finished (err e) st = (st, err e)
finished (ok done) st = (record st { downloading = none; applied = true }, ok done_message)

abbrev pub staged : Machine → Result Text (Unit {0}) → State → State × Result Text Text
staged m (err e) st = (st, err e)
staged m (ok done) st = finished (stage m) (record st { downloading = some 50 })

-- `download_and_stage`
unfoldable pub download_and_stage : Machine → Text → State → State × Result Text Text
unfolding fetch stage
download_and_stage m url st = staged m (fetch m (m.get url)) st

-- The status of a newer release, if the last check found one.
unfoldable pub matched : Text → Option UpdateStatus → Option UpdateStatus
unfolding version_gt
matched app_version none = none
matched app_version (some s) = if version_gt s.latest app_version then some s else none

unfoldable pub update_url : Text → State → Result Text Text
unfolding matched
update_url app_version st = do
  status ← or_err (matched app_version st.status) (codes "no update matched for apply")
  or_err status.download_url (codes "no portable build published for this release")

abbrev pub noted : State × Result Text Text → State × Result Text Text
noted (st, ok msg) = (st, ok msg)
noted (st, err e) = (record st { downloading = none; error = some e }, err e)

-- `apply_update`, without other calls in between.
unfoldable pub apply_update : Text → Machine → State → State × Result Text Text
unfolding update_url download_and_stage
apply_update app_version m st = elim (update_url app_version st) [
  | err e ↦ (st, err e)
  | ok url ↦
      noted (
        download_and_stage m url
          (record st { downloading = some 0; error = none; applied = false }))
]
