-- ===== src/Tests/SettingsRuns.antt =====
-- A run of the settings, with a toy file format that loses nothing.
use doc_link.Protocol.{lit}
use doc_link.Settings.{Config, Toml, load, Settings, SettingsBody, put_settings}
use doc_link.Settings.Restart.{IsFaithful, put_settings-load}
use doc_link.Base.Results.{Result, ok, err}
use doc_link.Base.{
  Text, ℕ, zero, suc, ◌≡◌, refl, sym, ap, ◌∙◌, Bool, true, false, none, some, [], ◌∷◌, ◌++◌, length,
}
use doc_link.Base.Utf8.{from_utf8_lossy}
use doc_link.Settings.{missing, text}
use doc_link.Base.{max}

abbrev bit : Bool → ℕ
bit true = 1
bit false = 0

abbrev from_bit : ℕ → Bool
from_bit zero = false
from_bit (suc n) = true

bit_lem : (b : Bool) → from_bit (bit b) ≡ b
bit_lem true = refl
bit_lem false = refl

-- The first texts of given lengths.
unfoldable cut : ℕ → Text → Text × Text
cut zero t = ([], t)
cut (suc n) [] = ([], [])
cut (suc n) (c ∷ t) = let rest = cut n t in (c ∷ rest.0, rest.1)

cut_lem : (s t : Text) → cut (length s) (s ++ t) ≡ (s, t)
unfolding cut
cut_lem [] t = refl
cut_lem (c ∷ s) t = ap (λ r. (c ∷ r.0, r.1)) (cut_lem s t)

abbrev printed : Config → Text
printed c =
    c.http_port
    ∷ c.inbox_max_size
    ∷ bit c.advertise
    ∷ bit c.subnet_scan
    ∷ bit c.check_updates
    ∷ length c.node_name
    ∷ length c.share_root
    ∷ (c.node_name ++ (c.share_root ++ c.inbox_root))

abbrev built : ℕ → ℕ → Bool → Bool → Bool → Text × (Text × Text) → Config
built port max adv scan upd names = record {
  node_name = names.0;
  http_port = port;
  share_root = names.1.0;
  inbox_root = names.1.1;
  inbox_max_size = max;
  advertise = adv;
  subnet_scan = scan;
  check_updates = upd;
}

unfoldable three : ℕ → ℕ → Text → Text × (Text × Text)
unfolding cut
three n m t = let first = cut n t in (first.0, cut m first.1)

three_lem : (a b c : Text) → three (length a) (length b) (a ++ (b ++ c)) ≡ (a, (b, c))
unfolding three
three_lem a b c =
    ap (λ r. (r.0, cut (length b) r.1)) (cut_lem a (b ++ c)) ∙ ap (λ r. (a, r)) (cut_lem b c)

abbrev parsed : Text → Result Text Config
parsed (port ∷ max ∷ adv ∷ scan ∷ upd ∷ n ∷ m ∷ t) =
    ok (built port max (from_bit adv) (from_bit scan) (from_bit upd) (three n m t))
parsed _ = err (lit "not a configuration")

abbrev toy_toml : Toml
toy_toml = record { to_string = λ c. ok (printed c); from_str = parsed }

parsed-printed : (c : Config) → parsed (printed c) ≡ ok c
parsed-printed c =
    ap
      (λ names. ok (
        built c.http_port c.inbox_max_size (from_bit (bit c.advertise))
          (from_bit (bit c.subnet_scan)) (from_bit (bit c.check_updates)) names))
      (three_lem c.node_name c.share_root c.inbox_root)
    ∙ (ap
          (λ b. ok (
            built c.http_port c.inbox_max_size b (from_bit (bit c.subnet_scan))
              (from_bit (bit c.check_updates)) (c.node_name, (c.share_root, c.inbox_root))))
          (bit_lem c.advertise)
        ∙ (ap
              (λ b. ok (
                built c.http_port c.inbox_max_size c.advertise b (from_bit (bit c.check_updates))
                  (c.node_name, (c.share_root, c.inbox_root))))
              (bit_lem c.subnet_scan)
            ∙ ap
                (λ b. ok (
                  built c.http_port c.inbox_max_size c.advertise c.subnet_scan b
                    (c.node_name, (c.share_root, c.inbox_root))))
                (bit_lem c.check_updates)))

toy_toml-IsFaithful : IsFaithful toy_toml
toy_toml-IsFaithful c t e = let same : printed c ≡ t = cc in ap parsed (sym same) ∙ parsed-printed c

abbrev running : Settings
running = record {
  node_name = lit "PC";
  data_port = 37656;
  share_root = lit "/srv/shared";
  inbox_root = lit "/srv/inbox";
  inbox_max_size = 1000;
  advertise_on = true;
  scan_enabled = true;
  check_updates = true;
  config_path = lit "doclink.toml";
  file = missing;
}

abbrev hide : SettingsBody
hide = record { advertise = false; check_updates = some false }

abbrev hidden_config : Config
hidden_config = record {
  node_name = lit "PC";
  http_port = 37656;
  share_root = lit "/srv/shared";
  inbox_root = lit "/srv/inbox";
  inbox_max_size = 1000;
  advertise = false;
  subnet_scan = true;
  check_updates = false;
}

abbrev hidden : Settings
hidden = record running {
  advertise_on = false;
  check_updates = false;
  file = text (printed hidden_config);
}

hide_run : put_settings toy_toml true true none hide running ≡ (hidden, ok (false, false))
unfolding put_settings from_utf8_lossy lit
hide_run = refl

put_settings-load_example :
    (hidden ≡ record running { advertise_on = false; check_updates = false; file = hidden.file })
    × (false ≡ false)
    × (false ≡ false)
    × (load toy_toml (lit "doclink.toml") (lit "PC") hidden.file ≡ ok hidden_config)
unfolding from_utf8_lossy lit
put_settings-load_example =
    put_settings-load toy_toml (lit "PC") true true none hide running hidden false false
      toy_toml-IsFaithful hide_run
