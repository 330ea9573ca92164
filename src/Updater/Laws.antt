-- ===== src/Updater/Laws.antt =====
-- What the application of an update leaves in the shared state, `apply_update` of
-- crates/doclinkd/src/updater.rs.
use doc_link.Updater.{UpdateStatus, State, version_gt}
use doc_link.Updater.Apply.{Machine, fetch, stage, done_message}
use doc_link.Base.Results.{Result, ok, err}
use doc_link.Base.{Text, ◌≡◌, ◌⊎◌, true, false}
use doc_link.Base.{Option, none, some}
use doc_link.Base.{text_eq, nat_eq}
use doc_link.Updater.{codes}

-- What applying an update leaves: the result, the flags and the message say how the steps ended.
abbrev pub IsSettled : Machine → Text → State → State × Result Text Text → Type 0
IsSettled m url before t =
    (t.0.downloading ≡ none)
    × (t.0.status ≡ before.status)
    × (t.0.last_check_unix ≡ before.last_check_unix)
    × (t.0.checking ≡ before.checking)
    × ((fetch m (m.get url) ≡ ok tt)
          × (stage m ≡ ok tt)
          × (t.1 ≡ ok done_message)
          × (t.0.applied ≡ true)
          × (t.0.error ≡ none)
        ⊎ ((e : Text) × ((fetch m (m.get url) ≡ err e)
              ⊎ (fetch m (m.get url) ≡ ok tt) × (stage m ≡ err e))
            × (t.1 ≡ err e)
            × (t.0.applied ≡ false)
            × (t.0.error ≡ some e)))

-- No status of a newer release, or none with the address of a package, and the message for it.
abbrev pub IsRefused : Text → Option UpdateStatus → Text → Type 0
IsRefused app_version status e =
    ((status ≡ none) × (e ≡ codes "no update matched for apply"))
    ⊎ ((s : UpdateStatus) × (status ≡ some s)
        × ((version_gt s.latest app_version ≡ false) × (e ≡ codes "no update matched for apply")
            ⊎ (version_gt s.latest app_version ≡ true)
              × (s.download_url ≡ none)
              × (e ≡ codes "no portable build published for this release")))
