-- ===== src/Server/Config/Accepted.antt =====
-- What a configuration that loadConfig accepts is.
use mathlib.Core.Path.{subst}
use panaudia_lasa.Prelude.{◌≡◌, refl, ◌∙◌, Bool, true, false, ◌&&◌, ◌||◌, not, arith}
use panaudia_lasa.Prelude.Int.{ℤ, pos, ltb_ℤ, ◌≤ℤ◌}
use panaudia_lasa.Server.Text.{bytes, same_text, one_of}
use panaudia_lasa.Engine.Plane.{is_empty}
use panaudia_lasa.Server.Config.{
  port_var, http_port_var, cert_var, key_var, order_var, max_entities_var, workers_var,
  stats_sec_var, log_format_var, log_sink_var, mixer_gonum_var, arrival_record_dir_var,
  log_project_var, unknown_log_format, unknown_log_sink, AppConfig, Loaded, ok, ◌>>=◌, Env,
  reverb_presets, default_config, env_int, env_bool, env_lower, load_ports, load_engine, env_level,
  load_logs, load_config,
}
use panaudia_lasa.Server.Config.Checked.{>>=-ok, ok-inj, gate_then, gate, Access, access_lem}

-- The checks of each stretch.
abbrev pub PortsOk : AppConfig → Type 0
PortsOk c =
    (pos 0 ≤ℤ c.http_port)
    × (c.http_port ≤ℤ pos 65535)
    × (is_empty c.cert_file ≡ is_empty c.key_file)

abbrev pub EngineOk : AppConfig → Type 0
EngineOk c = (pos 1 ≤ℤ c.stats_sec) × (one_of c.reverb reverb_presets ≡ true)

abbrev pub LogsOk : AppConfig → Type 0
LogsOk c =
    ((same_text c.log_format (bytes "text") || same_text c.log_format (bytes "json")) ≡ true)
    × ((same_text c.log_sink (bytes "stderr") || same_text c.log_sink (bytes "cloud-logging"))
        ≡ true)

negated : (b : Bool) → not b ≡ false → b ≡ true
negated true h = refl
negated false h = absurd (ground (arith, h))

in_range :
    (n : ℤ) → (ltb_ℤ n (pos 0) || ltb_ℤ (pos 65535) n) ≡ false → (pos 0 ≤ℤ n) × (n ≤ℤ pos 65535)
in_range n h = ground (arith, h)

at_least_one : (n : ℤ) → ltb_ℤ n (pos 1) ≡ false → pos 1 ≤ℤ n
at_least_one n h = ground (arith, h)

both_or_none : (a b : Bool) → (not a && b || a && not b) ≡ false → a ≡ b
both_or_none true true h = refl
both_or_none true false h = absurd (ground (arith, h))
both_or_none false true h = absurd (ground (arith, h))
both_or_none false false h = refl

module _ (env : Env) where
  ports_lem :
      (cfg c : AppConfig) → load_ports env cfg ≡ ok c → PortsOk c × (c.ticket_key ≡ cfg.ticket_key)
  unfolding load_ports
  ports_lem cfg c e =
      let (port, got, e1) = >>=-ok (env_int env port_var cfg.port) _ c e in
      let (http, got2, e2) = >>=-ok (env_int env http_port_var cfg.http_port) _ c e1 in
      let (range, pair, is) = gate _ _ _ _ _ c e2 in
      let (low, high) = in_range http range in
      let same = both_or_none (is_empty (env cert_var)) (is_empty (env key_var)) pair in
      subst (λ x. PortsOk x × (x.ticket_key ≡ cfg.ticket_key)) is ((low, high, same), refl)

  engine_lem :
      (cfg c : AppConfig)
      → load_engine env cfg ≡ ok c
      → PortsOk cfg
      → EngineOk c × PortsOk c × (c.ticket_key ≡ cfg.ticket_key)
  unfolding load_engine
  engine_lem cfg c e v =
      let (order, got1, e1) = >>=-ok (env_int env order_var cfg.order) _ c e in
      let (ents, got2, e2) = >>=-ok (env_int env max_entities_var cfg.max_entities) _ c e1 in
      let (workers, got3, e3) = >>=-ok (env_int env workers_var cfg.workers) _ c e2 in
      let (secs, got4, e4) = >>=-ok (env_int env stats_sec_var cfg.stats_sec) _ c e3 in
      let (range, preset, is) = gate _ _ _ _ _ c e4 in
      subst (λ x. EngineOk x × PortsOk x × (x.ticket_key ≡ cfg.ticket_key)) is
        ((at_least_one secs range, negated _ preset), v, refl)

  abbrev logs_of : AppConfig → ℤ → Bool → AppConfig
  logs_of cfg level gonum = record cfg {
    log_level = level;
    log_format = env_lower env log_format_var cfg.log_format;
    log_sink = env_lower env log_sink_var cfg.log_sink;
    log_project = env log_project_var;
    mixer_gonum = gonum;
    arrival_record_dir = env arrival_record_dir_var;
  }

  abbrev set_logs : AppConfig → ℤ → Bool → Loaded AppConfig
  set_logs cfg level gonum = ok (logs_of cfg level gonum)

  logs_lem :
      (cfg c : AppConfig)
      → load_logs env cfg ≡ ok c
      → PortsOk cfg
      → EngineOk cfg
      → LogsOk c × EngineOk c × PortsOk c × (c.ticket_key ≡ cfg.ticket_key)
  unfolding load_logs
  logs_lem cfg c e v w =
      let format = env_lower env log_format_var cfg.log_format in
      let sink = env_lower env log_sink_var cfg.log_sink in
      let (level, got1, e1) = >>=-ok (env_level env cfg.log_level) _ c e in
      let (known, known2, e2) =
        gate_then (not (same_text format (bytes "text") || same_text format (bytes "json")))
          (not (same_text sink (bytes "stderr") || same_text sink (bytes "cloud-logging")))
          unknown_log_format unknown_log_sink
          (env_bool env mixer_gonum_var cfg.mixer_gonum >>= set_logs cfg level) c e1 in
      let (gonum, got3, e3) =
        >>=-ok (env_bool env mixer_gonum_var cfg.mixer_gonum) (set_logs cfg level) c e2 in
      subst (λ x. LogsOk x × EngineOk x × PortsOk x × (x.ticket_key ≡ cfg.ticket_key))
        {x = logs_of cfg level gonum} {y = c} (ok-inj (logs_of cfg level gonum) c e3)
        ((negated _ known, negated _ known2), w, v, refl)

  -- A configuration that loads has its HTTP port off or in range, a certificate exactly with a key,
  -- statistics at least a second apart, a known reverb, a log format and a log sink of the two that
  -- there are, and a space that is either ticketed by one key of 32 bytes or open because the
  -- environment says so: it is never open for want of a key, and never both.
  pub load_config_lem :
      (c : AppConfig) → load_config env ≡ ok c → PortsOk c × EngineOk c × LogsOk c × Access env c
  unfolding load_config default_config
  load_config_lem c e =
      let (c1, got1, e1) = >>=-ok (load_ports env default_config) _ c e in
      let (c2, got2, e2) = >>=-ok (load_engine env c1) _ c e1 in
      let (c3, got3, e3) = >>=-ok (load_logs env c2) _ c e2 in
      let (ports1, key1) = ports_lem default_config c1 got1 in
      let (engine2, ports2, key2) = engine_lem c1 c2 got2 ports1 in
      let (logs3, engine3, ports3, key3) = logs_lem c2 c3 got3 ports2 engine2 in
      let (access, key, chosen, is) = access_lem env c3 c (key3 ∙ key2 ∙ key1) e3 in
      let (ports, engine, logs) =
        subst (λ x. PortsOk x × EngineOk x × LogsOk x) is (ports3, engine3, logs3) in
      (ports, engine, logs, access)
