-- ===== src/Server/Config.antt =====
-- server/config.go: the configuration out of the environment, and what the engine gets of it.
-- The environment is a function of the variables' names; an unset variable reads as the empty text.
-- The .env file, the inherited socket and the log of the effective values are left out.
pub mod Checked
pub mod Accepted
use panaudia_lasa.Prelude.{
  ℕ, Bool, true, false, ◌&&◌, ◌||◌, not, Option, none, some, List, [], ◌∷◌, ◌==◌, if◌then◌else◌,
  length,
}
use panaudia_lasa.Prelude.Int.{ℤ, pos, ltb_ℤ}
use panaudia_lasa.Server.Text.{
  bytes, same_text, one_of, to_lower, atoi, parse_bool, parse_level, decode64,
}
use panaudia_lasa.Engine.Plane.{is_empty, is_none}

-- PANAUDIA_HOST and so on.
pub data Var : Type 0 where
  host_var port_var http_port_var space_var cert_var key_var order_var : Var
  max_entities_var workers_var reverb_var stats_sec_var log_level_var : Var
  log_format_var log_sink_var log_project_var mixer_gonum_var : Var
  arrival_record_dir_var ticket_key_var allow_unticketed_var : Var

pub record AppConfig : Type 0 where
  pub host : List ℕ
  pub port : ℤ
  pub http_port : ℤ
  pub space_id : List ℕ
  pub cert_file : List ℕ
  pub key_file : List ℕ
  pub order : ℤ
  pub max_entities : ℤ
  pub workers : ℤ
  pub reverb : List ℕ
  pub stats_sec : ℤ
  pub ticket_key : Option (List ℕ)
  pub allow_unticketed : Bool
  pub log_level : ℤ
  pub log_format : List ℕ
  pub log_sink : List ℕ
  pub log_project : List ℕ
  pub mixer_gonum : Bool
  pub arrival_record_dir : List ℕ

pub data ConfigError : Type 0 where
  not_an_int not_a_bool : Var → ConfigError
  http_port_range cert_without_key stats_sec_range unknown_reverb : ConfigError
  unknown_log_level unknown_log_format unknown_log_sink : ConfigError
  key_encoding key_size ticketed_and_open no_ticket_key : ConfigError

pub data Loaded (A : Type 0) : Type 0 where
  ok : A → Loaded A
  fails : ConfigError → Loaded A

infixl 5 ◌>>=◌
abbrev pub ◌>>=◌ : {A B : Type 0} → Loaded A → (A → Loaded B) → Loaded B
ok a >>= f = f a
fails e >>= f = fails e

abbrev pub Env : Type 0
Env = Var → List ℕ

abbrev pub reverb_presets : List (List ℕ)
reverb_presets =
    bytes "none"
    ∷ bytes "tight-room"
    ∷ bytes "small-room"
    ∷ bytes "medium-room"
    ∷ bytes "large-hall"
    ∷ bytes "cathedral"
    ∷ []

unfoldable pub default_config : AppConfig
default_config = record {
  host = [];
  port = pos 4443;
  http_port = pos 0;
  space_id = bytes "main";
  cert_file = [];
  key_file = [];
  order = pos 3;
  max_entities = pos 64;
  workers = pos 16;
  reverb = bytes "medium-room";
  stats_sec = pos 60;
  ticket_key = none;
  allow_unticketed = true;
  log_level = pos 0;
  log_format = bytes "text";
  log_sink = bytes "stderr";
  log_project = [];
  mixer_gonum = false;
  arrival_record_dir = [];
}

module _ (env : Env) where
  unfoldable pub env_int : Var → ℤ → Loaded ℤ
  env_int name def =
      if is_empty (env name)
      then ok def
      else elim (atoi (env name)) [ none ↦ fails (not_an_int name) | some n ↦ ok n ]

  abbrev pub env_bool : Var → Bool → Loaded Bool
  env_bool name def =
      if is_empty (env name)
      then ok def
      else elim (parse_bool (env name)) [ none ↦ fails (not_a_bool name) | some b ↦ ok b ]

  abbrev pub env_text : Var → List ℕ → List ℕ
  env_text name def = if is_empty (env name) then def else env name

  abbrev pub env_lower : Var → List ℕ → List ℕ
  env_lower name def = if is_empty (env name) then def else to_lower (env name)

  -- loadConfig in its order, in four stretches.
  unfoldable pub load_ports : AppConfig → Loaded AppConfig
  load_ports cfg = do
    port ← env_int port_var cfg.port
    http_port ← env_int http_port_var cfg.http_port
    if ltb_ℤ http_port (pos 0) || ltb_ℤ (pos 65535) http_port
        then fails http_port_range
        else if not (is_empty (env cert_var)) && is_empty (env key_var)
            || is_empty (env cert_var) && not (is_empty (env key_var))
        then fails cert_without_key
        else ok (record cfg {
          host = env host_var;
          port = port;
          http_port = http_port;
          space_id = env_text space_var cfg.space_id;
          cert_file = env cert_var;
          key_file = env key_var;
        })

  unfoldable pub load_engine : AppConfig → Loaded AppConfig
  load_engine cfg = do
    order ← env_int order_var cfg.order
    max_entities ← env_int max_entities_var cfg.max_entities
    workers ← env_int workers_var cfg.workers
    let reverb = env_text reverb_var cfg.reverb
    stats_sec ← env_int stats_sec_var cfg.stats_sec
    if ltb_ℤ stats_sec (pos 1)
        then fails stats_sec_range
        else if not (one_of reverb reverb_presets)
        then fails unknown_reverb
        else ok (record cfg {
          order = order;
          max_entities = max_entities;
          workers = workers;
          reverb = reverb;
          stats_sec = stats_sec;
        })

  unfoldable pub env_level : ℤ → Loaded ℤ
  env_level def =
      if is_empty (env log_level_var)
      then ok def
      else elim (parse_level (env log_level_var)) [ none ↦ fails unknown_log_level | some l ↦ ok l ]

  unfoldable pub load_logs : AppConfig → Loaded AppConfig
  unfolding env_level
  load_logs cfg = do
    level ← env_level cfg.log_level
    let format = env_lower log_format_var cfg.log_format
    let sink = env_lower log_sink_var cfg.log_sink
    if not (same_text format (bytes "text") || same_text format (bytes "json"))
        then fails unknown_log_format
        else if not (same_text sink (bytes "stderr") || same_text sink (bytes "cloud-logging"))
        then fails unknown_log_sink
        else do
          gonum ← env_bool mixer_gonum_var cfg.mixer_gonum
          ok (record cfg {
            log_level = level;
            log_format = format;
            log_sink = sink;
            log_project = env log_project_var;
            mixer_gonum = gonum;
            arrival_record_dir = env arrival_record_dir_var;
          })

  unfoldable pub env_key : Option (List ℕ) → Loaded (Option (List ℕ))
  env_key def =
      if is_empty (env ticket_key_var) then ok def else elim (decode64 (env ticket_key_var)) [
        | none ↦ fails key_encoding
        | some raw ↦ if length raw == 32 then ok (some raw) else fails key_size
      ]

  unfoldable pub load_access : AppConfig → Loaded AppConfig
  unfolding env_key
  load_access cfg = do
    key ← env_key cfg.ticket_key
    unticketed ← env_bool allow_unticketed_var false
    if not (is_none key) && unticketed
        then fails ticketed_and_open
        else if is_none key && not unticketed
        then fails no_ticket_key
        else ok (record cfg { ticket_key = key; allow_unticketed = unticketed })

  unfoldable pub load_config : Loaded AppConfig
  unfolding load_ports load_engine load_logs load_access default_config
  load_config = do a ← load_ports default_config; b ← load_engine a; c ← load_logs b; load_access c
