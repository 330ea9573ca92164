-- ===== src/Tests/UpdaterRuns.antt =====
-- Runs of the updater and of the guard of the admin plane.
use doc_link.Protocol.{lit}
use doc_link.Updater.{Version, UpdateStatus, State, GhRelease, HttpAnswer, begin_check, run_check}
use doc_link.Updater.Apply.{Machine, Download}
use doc_link.Updater.Checked.{IsChecked, run_check_lem}
use doc_link.LocalGuard.Loopback.{NamesLoopback, local_only_guard-NamesLoopback}
use doc_link.Base.Map.{Map}
use doc_link.Base.Results.{ok}
use doc_link.Base.{Text, refl, inl, inr, true, false, none, some, [], ◌∷◌, arith}
use doc_link.Base.{text_beq, text_eq, nat_eq}

abbrev release : Version
release = record { major = 0; minor = 5; patch = 0 }

abbrev next_release : Version
next_release = record { major = 0; minor = 10; patch = 0 }

abbrev newer_status : UpdateStatus
newer_status = record {
  current = lit "0.5.0";
  latest = lit "0.6.0";
  prerelease = false;
  download_url = some (lit "https://host/app.zip");
  msi_url = none;
  release_notes = none;
  published_at = none;
}

abbrev checked_state : State
checked_state = record {
  last_check_unix = some 7;
  status = some newer_status;
  checking = false;
  downloading = none;
  error = none;
  applied = false;
}

abbrev machine : Machine
machine = record {
  get = λ url. Download.replied 200 (ok (1 ∷ 2 ∷ []));
  write_zip = λ bytes. none;
  unpack = true;
  has_window = true;
  spawn = none;
  show_status = λ n. [];
}

abbrev release_found : GhRelease
release_found = record {
  tag_name = lit "v0.6.0";
  prerelease = false;
  published_at = none;
  body = none;
  assets = [];
}

run_check_lem_example :
    IsChecked
      (lit "0.5.0")
      (λ t. ok release_found)
      99
      (HttpAnswer.answered 200 [])
      (begin_check (lit "0.5.0") (λ t. ok release_found) (λ n. []) checked_state)
      (run_check
        (lit "0.5.0")
        (λ t. ok release_found)
        (λ n. [])
        99
        (HttpAnswer.answered 200 [])
        (λ st. st)
        checked_state)
run_check_lem_example =
    run_check_lem (lit "0.5.0") (λ t. ok release_found) (λ n. []) 99 (HttpAnswer.answered 200 [])
      (λ st. st) checked_state

abbrev ui_headers : Map Text Text
ui_headers = (lit "host", lit "localhost:7878") ∷ (lit "origin", lit "http://127.0.0.1:7878") ∷ []

local_only_guard-NamesLoopback_example : NamesLoopback (lit "http://127.0.0.1:7878") 7878
unfolding doc_link.LocalGuard.local_only_guard doc_link.Base.Map.lookup doc_link.Base.text_beq lit
    doc_link.LocalGuard.authority_allowed doc_link.Base.Strings.rsplit_once
    doc_link.LocalGuard.before_path doc_link.LocalGuard.without_prefix
    doc_link.Base.Strings.strip_prefix doc_link.Base.Strings.to_ascii_lowercase
    doc_link.Base.Strings.trim doc_link.Base.Decimal.to_decimal doc_link.LocalGuard.without_dot
    doc_link.LocalGuard.source_allowed
local_only_guard-NamesLoopback_example =
    local_only_guard-NamesLoopback ui_headers 7878 (lit "origin") (lit "http://127.0.0.1:7878") refl
      (inr (inl refl)) refl
