-- ===== src/Config.antt =====
-- internal/config/config.go and internal/config/load.go: the configuration, its checks, and the secrets
-- that files hold. A Go map is the list of its entries in the order of the iteration. koanf (the parsing
-- and merging of the sources), the user's home, the files and the float64 of the rate are parameters.
pub mod Texts
pub mod Validity
pub mod Loading
use delta_works.Base.{
  ℕ, ◌+◌, ◌*◌, Bool, true, false, not, ◌&&◌, ◌||◌, List, [], ◌∷◌, ◌++◌, Option, none, some, map,
  String, str_eq, ltb, leb, keep, if◌then◌else◌,
}
use delta_works.Decimal.Integers.{ℤ, pos, negsuc}
use delta_works.Errors.{Result, ok, err, Error, Cause, is, wrap, other, not_exist, ◌>>=◌}
use Texts.{cut_home, trim_space}

pub record Log : Type 0 where
  pub level : String
  pub format : String

-- An interval is a `time.Duration`: nanoseconds, negative ones included.
pub record Outbox : Type 0 where
  pub interval : ℤ
  pub batch : ℤ

-- `RPS` is a float64 `F`.
pub record Rate (F : Type 0) : Type 0 where
  pub rps : F
  pub burst : ℤ

pub record Venue (F : Type 0) : Type 0 where
  pub enabled : Bool
  pub trading : Bool
  pub accounts : List String
  pub rate : Rate F
  pub api_key : String
  pub api_secret : String
  pub api_key_file : String
  pub api_secret_file : String

-- The sections with one field are that field.
pub record Config (F : Type 0) : Type 0 where
  pub log : Log
  pub http_addr : String
  pub api_addr : String
  pub postgres_dsn : String
  pub quest_db_conf : String
  pub snapshot_interval : ℤ
  pub outbox : Outbox
  pub reconcile_interval : ℤ
  pub submit_budget : ℤ
  pub venues : List (String × Venue F)

abbrev pub millisecond : ℕ
millisecond = 1000000

abbrev pub second : ℕ
second = 1000 * millisecond

abbrev pub minute : ℕ
minute = 60 * second

-- Tests of a signed number against a bound that is not negative.
abbrev pub is_below : ℤ → ℕ → Bool
is_below (pos a) b = ltb a b
is_below (negsuc a) b = true

abbrev pub is_above : ℤ → ℕ → Bool
is_above (pos a) b = ltb b a
is_above (negsuc a) b = false

-- `<= 0`.
abbrev pub is_not_positive : ℤ → Bool
is_not_positive a = is_below a 1

unfoldable pub is_valid_level : String → Bool
is_valid_level l =
    str_eq l "trace"
    || (str_eq l "debug" || (str_eq l "info" || (str_eq l "warn" || str_eq l "error")))

abbrev pub is_empty : String → Bool
is_empty s = str_eq s ""

abbrev pub has_none : {A : Type 0} → List A → Bool
has_none [] = true
has_none (a ∷ rest) = false

-- `if failed { errs = append(errs, ...) }`, with the key that the message names.
abbrev pub complaint : Bool → String → List String
complaint failed key = if failed then key ∷ [] else []

abbrev pub gather : List (List String) → List String
gather [] = []
gather (found ∷ rest) = found ++ gather rest

module _ {F : Type 0} (rps_not_positive : F → Bool) where
  unfoldable pub validate_venue : Venue F → List String
  validate_venue v =
      if not v.enabled
      then []
      else gather (
          complaint (rps_not_positive v.rate.rps || is_not_positive v.rate.burst) "venues.rate"
          ∷ complaint (has_none v.accounts) "venues.accounts"
          ∷ complaint (is_empty v.api_key || is_empty v.api_secret) "venues.api_key"
          ∷ [])

  unfoldable pub validate_venues : List (String × Venue F) → List String
  validate_venues [] = []
  validate_venues ((name, v) ∷ vs) =
      complaint (v.trading && not v.enabled) "venues.trading"
      ++ (validate_venue v ++ validate_venues vs)

  -- The errors that `Validate` joins; none is a nil error.
  unfoldable pub validate : Config F → List String
  validate c = gather (
      complaint (not (is_valid_level c.log.level)) "log.level"
      ∷ complaint (not (str_eq c.log.format "console") && not (str_eq c.log.format "json"))
          "log.format"
      ∷ complaint (is_empty c.http_addr) "http.addr"
      ∷ complaint (is_not_positive c.snapshot_interval) "snapshot.interval"
      ∷ complaint
          (is_below c.outbox.interval (200 * millisecond) || is_above c.outbox.interval second)
          "outbox.interval"
      ∷ complaint (is_not_positive c.outbox.batch || is_above c.outbox.batch 1000) "outbox.batch"
      ∷ complaint
          (is_below c.reconcile_interval (5 * second) || is_above c.reconcile_interval (5 * minute))
          "reconcile.interval"
      ∷ complaint (is_below c.submit_budget second || is_above c.submit_budget minute)
          "order.submit_budget"
      ∷ complaint (is_empty c.postgres_dsn) "postgres.dsn"
      ∷ complaint (is_empty c.quest_db_conf) "questdb.conf"
      ∷ validate_venues c.venues
      ∷ [])

abbrev pub name_if_enabled : {F : Type 0} → String → Venue F → List String
name_if_enabled name v = if v.enabled then name ∷ [] else []

unfoldable pub enabled_of : {F : Type 0} → List (String × Venue F) → List String
enabled_of [] = []
enabled_of ((name, v) ∷ vs) = name_if_enabled name v ++ enabled_of vs

abbrev pub enabled_venues : {F : Type 0} → Config F → List String
enabled_venues c = enabled_of c.venues

-- What `load.go` uses of the operating system: `os.UserHomeDir`, `filepath.Join` and `os.ReadFile`.
pub record Files : Type 0 where
  pub user_home_dir : Result String
  pub join : String → String → String
  pub read_file : String → Result String

-- An error of the right operand wrapped in a message.
abbrev pub wrapping {ℓ} : {A : Type ℓ} → String → Result A → Result A
wrapping message (ok a) = ok a
wrapping message (err e) = err (wrap (other message) e)

module _ (files : Files) where
  unfoldable pub expand_home : String → Result String
  expand_home path = elim (cut_home path) [
    | some home ↦ do dir ← wrapping "resolve ~" files.user_home_dir; ok (files.join dir home)
    | none ↦ ok path
  ]

  unfoldable pub read_secret : String → Result String
  read_secret path = do
    b ← wrapping "read secret file" (files.read_file path)
    if is_empty (trim_space b) then err (other "secret file is empty" ∷ []) else ok (trim_space b)

  unfoldable pub resolve_secret : String → String → Result String
  resolve_secret value path =
      if is_empty path
      then ok value
      else if not (is_empty value)
      then err (other "set either the value or the file, not both" ∷ [])
      else (expand_home path >>= read_secret)

  unfoldable pub resolve_enabled : {F : Type 0} → Venue F → Result (Venue F)
  resolve_enabled v = do
    key ← wrapping "venues.api_key" (resolve_secret v.api_key v.api_key_file)
    secret ← wrapping "venues.api_secret" (resolve_secret v.api_secret v.api_secret_file)
    ok (record v { api_key = key; api_secret = secret })

  unfoldable pub resolve_venue : {F : Type 0} → Venue F → Result (Venue F)
  resolve_venue v = if not v.enabled then ok v else resolve_enabled v

  unfoldable pub resolve_secret_files :
      {F : Type 0} → List (String × Venue F) → Result (List (String × Venue F))
  resolve_secret_files [] = ok []
  resolve_secret_files ((name, v) ∷ vs) = do
    resolved ← resolve_venue v
    rest ← resolve_secret_files vs
    ok ((name, resolved) ∷ rest)

-- koanf: what is loaded so far, `K`, and what each source makes of it.
pub record Koanf (K F : Type 0) : Type 0 where
  pub load_defaults : Result K
  pub load_file : String → K → Result K
  pub load_env : K → Result K
  pub unmarshal : K → Result (Config F)

-- A file that is absent counts only if its path was given.
abbrev pub after_file : {K : Type 0} → Bool → K → Result K → Result K
after_file explicit k (ok loaded) = ok loaded
after_file explicit k (err e) =
    if explicit || not (is e not_exist) then err (wrap (other "load config file") e) else ok k

abbrev pub when_valid : {F : Type 0} → Config F → List String → Result (Config F)
when_valid c [] = ok c
when_valid c (key ∷ keys) = err (map other ("invalid config" ∷ key ∷ keys))

module _ {K F : Type 0} where
  unfoldable pub load : Koanf K F → Files → (F → Bool) → String → Bool → Result (Config F)
  load koanf files rps_not_positive path explicit = do
    k ← wrapping "load defaults" koanf.load_defaults
    with_file ← after_file explicit k (koanf.load_file path k)
    merged ← wrapping "load env" (koanf.load_env with_file)
    c ← wrapping "unmarshal config" (koanf.unmarshal merged)
    vs ← resolve_secret_files files c.venues
    when_valid (record c { venues = vs }) (validate rps_not_positive (record c { venues = vs }))
