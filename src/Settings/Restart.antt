-- ===== src/Settings/Restart.antt =====
-- Settings outlive a restart: `put_settings` of crates/doclinkd/src/admin.rs and `load` of
-- crates/doclinkd/src/config.rs.
use doc_link.Settings.{
  Config, ReadFile, Toml, load, persist_settings, Settings, snapshot_config, SettingsBody,
  set_advertise, set_updates, put_settings, same_bool,
}
use doc_link.Base.Results.{ok, Result-cases}
use doc_link.Base.Utf8.{from_utf8_lossy}
use doc_link.Base.{Bool-cases, Option-cases, Text, ◌≡◌, refl, sym, ap, ◌∙◌, inl, inr, Bool}
use doc_link.Base.{true, false, not, ◌&&◌, Option, none, some}

-- A configuration that was written is read back.
abbrev pub IsFaithful : Toml → Type 0
IsFaithful toml = (cfg : Config) (t : Text) → toml.to_string cfg ≡ ok t → toml.from_str t ≡ ok cfg

persisted-load :
    (toml : Toml) (path machine : Text) (failure : Option (Text × ReadFile)) (cfg : Config)
    (file : ReadFile)
    → IsFaithful toml
    → (persist_settings toml path failure cfg file).1 ≡ none
    → load toml path machine (persist_settings toml path failure cfg file).0 ≡ ok cfg
unfolding persist_settings load
persisted-load toml path machine none cfg file faithful = elim (Result-cases (toml.to_string cfg)) [
  | inr (x, e) ↦ rw (e, persist_settings) λ h. absurd (cc)
  | inl (t, e) ↦ rw (e, persist_settings, load, faithful cfg t e) λ h. refl
]
persisted-load toml path machine (some left) cfg file faithful =
    elim (Result-cases (toml.to_string cfg)) [
      | inr (x, e) ↦ rw (e, persist_settings) λ h. absurd (cc)
      | inl (t, e) ↦ rw (e, persist_settings) λ h. absurd (cc)
    ]

same_bool-eq : (a b : Bool) → same_bool a b ≡ true → a ≡ b
same_bool-eq true true h = refl
same_bool-eq true false h = absurd (cc)
same_bool-eq false true h = absurd (cc)
same_bool-eq false false h = refl

set_advertise-ok :
    (present registers wanted : Bool) (s shown : Settings)
    → set_advertise present registers wanted s ≡ ok shown
    → shown ≡ record s { advertise_on = wanted }
unfolding set_advertise
set_advertise-ok present registers wanted s shown =
    elim (Bool-cases (same_bool wanted s.advertise_on)) [
      | inl e ↦ rw e λ h.
          let same : s ≡ shown = cc in
          sym same
          ∙ ap (λ b. record s { advertise_on = b }) (sym (same_bool-eq wanted s.advertise_on e))
      | inr e ↦ elim (Bool-cases present) [
        | inr p ↦ rw (e, p) λ h. absurd (cc)
        | inl p ↦ elim (Bool-cases (wanted && not registers)) [
          | inl r ↦ rw (e, p, r) λ h. absurd (cc)
          | inr r ↦ rw (e, p, r) λ h. cc
        ]
      ]
    ]

wanted_updates :
    (v : Option Bool) (s : Settings)
    → set_updates v s ≡ record s { check_updates = elim v [ none ↦ s.check_updates | some b ↦ b ] }
wanted_updates none s = refl
wanted_updates (some b) s = refl

-- If a change of the settings is answered with success, then the toggles that run, and that are
-- answered, are the ones that were asked for, or as before if the change does not name them, and
-- nothing else that runs changes. A restart then loads them, with the name, the port that the daemon
-- is bound to, the texts of its two roots, the largest upload and the scan of the subnet: for a
-- library that reads back what it writes.
pub put_settings-load :
    (toml : Toml) (machine : Text) (present registers : Bool) (failure : Option (Text × ReadFile))
    (body : SettingsBody) (s after : Settings) (advertise check_updates : Bool)
    → IsFaithful toml
    → put_settings toml present registers failure body s ≡ (after, ok (advertise, check_updates))
    → let wanted : Bool = elim body.check_updates [ none ↦ s.check_updates | some b ↦ b ] in
      (after
        ≡ record s { advertise_on = body.advertise; check_updates = wanted; file = after.file })
      × (advertise ≡ body.advertise)
      × (check_updates ≡ wanted)
      × (load toml s.config_path machine after.file
          ≡ ok (record {
            node_name = s.node_name;
            http_port = s.data_port;
            share_root = from_utf8_lossy s.share_root;
            inbox_root = from_utf8_lossy s.inbox_root;
            inbox_max_size = s.inbox_max_size;
            advertise = body.advertise;
            subnet_scan = s.scan_enabled;
            check_updates = wanted;
          }))
unfolding put_settings snapshot_config
put_settings-load toml machine present registers failure body s after advertise check_updates
      faithful =
    elim (Result-cases (set_advertise present registers body.advertise s)) [
      | inr (x, e) ↦ rw (e, put_settings) λ h. absurd (cc)
      | inl (shown, e) ↦
          let wanted : Bool = elim body.check_updates [ none ↦ s.check_updates | some b ↦ b ] in
          let target : Settings = record s {
            advertise_on = body.advertise;
            check_updates = wanted;
          } in
          let changed = set_updates body.check_updates shown in
          let cfg = snapshot_config changed in
          let stored = persist_settings toml changed.config_path failure cfg changed.file in
          let reached : changed ≡ target =
            ap (set_updates body.check_updates)
              (set_advertise-ok present registers body.advertise s shown e)
            ∙ wanted_updates body.check_updates (record s { advertise_on = body.advertise }) in
          elim (Option-cases stored.1) [
            | inr (x, f) ↦ rw (e, put_settings, f) λ h. absurd (cc)
            | inl f ↦
                rw (e, put_settings, f)
                  λ h.
                    let now : record changed { file = stored.0 } ≡ after = cc in
                    let told : body.advertise ≡ advertise = cc in
                    let told_updates : changed.check_updates ≡ check_updates = cc in
                    (
                      sym now
                          ∙ (ap {A = Settings} {B = Settings} (λ c. record c { file = stored.0 })
                                reached
                              ∙ ap {A = Settings} {B = Settings}
                                  (λ a. record target { file = a.file }) now),
                      sym told,
                      sym told_updates ∙ ap (λ c. c.check_updates) reached,
                      ap (λ a. load toml s.config_path machine a.file) (sym now)
                          ∙ (ap (λ c. load toml c.config_path machine stored.0) (sym reached)
                              ∙ (persisted-load toml changed.config_path machine failure cfg
                                    changed.file faithful f
                                  ∙ ap (λ c. ok (snapshot_config c)) reached)),
                    )
          ]
    ]
