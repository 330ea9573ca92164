-- ===== src/Settings.antt =====
-- The settings: crates/doclinkd/src/config.rs, and `get_settings`, `put_settings` and
-- `persist_settings` of crates/doclinkd/src/admin.rs. The mDNS service and the file are parameters.
pub mod Restart
use doc_link.Protocol.{HttpError, http_error, lit}
use doc_link.Base.Results.{Result, ok, err, guard, or_err, ◌>>=◌, ◌>>◌}
use doc_link.Base.{if◌then◌else◌, there, ℕ, ◌*◌, Bool, true, false, not, ◌&&◌, Option, none}
use doc_link.Base.Utf8.{from_utf8_lossy}
use doc_link.Base.{List, some, ◌++◌, Text}

-- `Config`
pub record Config : Type 0 where
  pub node_name : Text
  pub http_port : ℕ
  pub share_root : Text
  pub inbox_root : Text
  pub inbox_max_size : ℕ
  pub advertise : Bool
  pub subnet_scan : Bool
  pub check_updates : Bool

abbrev pub mib : ℕ
mib = 1024 * 1024

-- `Config::default`, with the name of the machine.
unfoldable pub default_config : Text → Config
default_config machine = record {
  node_name = machine;
  http_port = 37655;
  share_root = lit "shared";
  inbox_root = lit "inbox";
  inbox_max_size = 256 * mib;
  advertise = true;
  subnet_scan = true;
  check_updates = true;
}

-- What reading the file gives.
pub data ReadFile : Type 0 where
  missing : ReadFile
  unreadable : Text → ReadFile
  text : Text → ReadFile

-- `toml::to_string_pretty` and `toml::from_str`.
pub record Toml : Type 0 where
  pub to_string : Config → Result Text Text
  pub from_str : Text → Result Text Config

module _ (toml : Toml) (path : Text) where
  -- `Config::load`, with the outermost message of an error.
  unfoldable pub load : Text → ReadFile → Result Text Config
  load machine missing = ok (default_config machine)
  load machine (unreadable e) = err (lit "reading config " ++ path)
  load machine (text t) = elim (toml.from_str t) [
    | ok cfg ↦ ok cfg
    | err e ↦ err (lit "parsing config " ++ path)
  ]

  -- `persist_settings`: what the file holds afterwards, and the error. A write that fails says why,
  -- and may leave anything in the file.
  unfoldable pub persist_settings :
      Option (Text × ReadFile) → Config → ReadFile → ReadFile × Option Text
  persist_settings failure cfg file = elim (toml.to_string cfg) [
    | err e ↦ (file, some (lit "serialize config: " ++ e))
    | ok t ↦ elim failure [
      | none ↦ (text t, none)
      | some (e, left) ↦ (left, some (lit "write " ++ (path ++ (lit ": " ++ e))))
    ]
  ]

-- The fields of `AdminInner` that the settings are made of: the port that the daemon is bound to, the
-- canonical roots as the bytes of their paths, the two toggles; and the file of the configuration.
pub record Settings : Type 0 where
  pub node_name : Text
  pub data_port : ℕ
  pub share_root : List ℕ
  pub inbox_root : List ℕ
  pub inbox_max_size : ℕ
  pub advertise_on : Bool
  pub scan_enabled : Bool
  pub check_updates : Bool
  pub config_path : Text
  pub file : ReadFile

-- `snapshot_config`; `to_string_lossy` decodes the bytes of a path.
unfoldable pub snapshot_config : Settings → Config
snapshot_config s = record {
  node_name = s.node_name;
  http_port = s.data_port;
  share_root = from_utf8_lossy s.share_root;
  inbox_root = from_utf8_lossy s.inbox_root;
  inbox_max_size = s.inbox_max_size;
  advertise = s.advertise_on;
  subnet_scan = s.scan_enabled;
  check_updates = s.check_updates;
}

-- `SettingsBody`
pub record SettingsBody : Type 0 where
  pub advertise : Bool
  pub check_updates : Option Bool

abbrev pub same_bool : Bool → Bool → Bool
same_bool true b = b
same_bool false b = not b

-- The change of the advertising: the daemon of mDNS has to be there, and to register.
unfoldable pub set_advertise : Bool → Bool → Bool → Settings → Result HttpError Settings
set_advertise present registers wanted s =
    if same_bool wanted s.advertise_on
    then ok s
    else if not present
    then err (http_error 500 (lit "mDNS is unavailable on this machine"))
    else if wanted && not registers
    then err (http_error 500 (lit "could not register on mDNS"))
    else ok (record s { advertise_on = wanted })

abbrev pub set_updates : Option Bool → Settings → Settings
set_updates none s = s
set_updates (some v) s = record s { check_updates = v }

-- `put_settings`: the two toggles that it answers.
unfoldable pub put_settings :
    Toml
    → Bool
    → Bool
    → Option (Text × ReadFile)
    → SettingsBody
    → Settings
    → Settings × Result HttpError (Bool × Bool)
unfolding set_advertise persist_settings snapshot_config
put_settings toml present registers failure body s =
    elim (set_advertise present registers body.advertise s) [
      | err e ↦ (s, err e)
      | ok shown ↦
          let changed = set_updates body.check_updates shown in
          let stored =
            persist_settings toml changed.config_path failure (snapshot_config changed)
              changed.file in
          (
            record changed { file = stored.0 },
            elim stored.1 [
              | none ↦ ok (body.advertise, changed.check_updates)
              | some e ↦ err (http_error 500 e)
            ],
          )
    ]
