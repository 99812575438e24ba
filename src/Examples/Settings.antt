-- ===== src/Examples/Settings.antt =====
-- The theorems on the configuration, at the defaults with one venue whose key is in a file.
use delta_works.Base.{ℕ, ◌*◌, ◌==◌, ◌≡◌, ◌↔◌, refl, Bool, true, List, [], ◌∷◌}
use delta_works.Decimal.Integers.{pos}
use delta_works.Errors.{ok}
use delta_works.Config.{
  Config, Venue, Files, Koanf, validate, load, resolve_secret_files, resolve_venue, resolve_enabled,
  resolve_secret, expand_home, read_secret, validate_venues, validate_venue, is_valid_level, second,
  minute, millisecond,
}
use delta_works.Config.Texts.{trim_space, trim_left, trim_right, cut_home}
use delta_works.Config.Validity.{IsValid, validate-IsValid}
use delta_works.Config.Loading.{load-IsValid}

abbrev venue : Venue ℕ
venue = record {
  enabled = true;
  trading = true;
  accounts = "spot" ∷ [];
  rate = record { rps = 5; burst = pos 10 };
  api_key = "";
  api_secret = "secret";
  api_key_file = "~/key";
  api_secret_file = "";
}

abbrev config : Config ℕ
config = record {
  log = record { level = "info"; format = "json" };
  http_addr = ":8080";
  api_addr = "";
  postgres_dsn = "postgres://db";
  quest_db_conf = "http::addr=localhost:9000;";
  snapshot_interval = pos minute;
  outbox = record { interval = pos (500 * millisecond); batch = pos 100 };
  reconcile_interval = pos (30 * second);
  submit_budget = pos (10 * second);
  venues = ("kraken", venue) ∷ [];
}

abbrev sources : Koanf (List ℕ) ℕ
sources = record {
  load_defaults = ok [];
  load_file = λ path k. ok k;
  load_env = λ k. ok k;
  unmarshal = λ k. ok config;
}

abbrev files : Files
files = record {
  user_home_dir = ok "/home/op";
  join = λ dir path. dir;
  read_file = λ path. ok " key\n";
}

abbrev is_zero : ℕ → Bool
is_zero n = n == 0

validate-IsValid_example : (validate is_zero config ≡ []) ↔ IsValid is_zero config
validate-IsValid_example = validate-IsValid is_zero config

loaded : (c : Config ℕ) × (load sources files is_zero "config.yaml" true ≡ ok c)
unfolding load resolve_secret_files resolve_venue resolve_enabled resolve_secret expand_home
    read_secret trim_space trim_left trim_right cut_home validate validate_venues validate_venue
    is_valid_level
loaded = (_, refl)

load-IsValid_example : IsValid is_zero loaded.0
load-IsValid_example = load-IsValid sources files is_zero "config.yaml" true loaded.0 loaded.1
