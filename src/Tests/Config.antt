-- ===== src/Tests/Config.antt =====
-- The environment of a ticketed space, and two that are refused.
use panaudia_lasa.Prelude.{◌≡◌, refl, [], true}
use panaudia_lasa.Prelude.Int.{pos}
use panaudia_lasa.Server.Text.{bytes, atoi, parse_bool, digits, decode64, groups}
use panaudia_lasa.Server.Config.{
  port_var, ticket_key_var, allow_unticketed_var, AppConfig, ok, fails, no_ticket_key,
  ticketed_and_open, Env, load_config, default_config, load_ports, load_engine, load_logs,
  load_access, env_int, env_level, env_key,
}
use panaudia_lasa.Server.Config.Checked.{Access}
use panaudia_lasa.Server.Config.Accepted.{PortsOk, EngineOk, LogsOk, load_config_lem}

abbrev silent : Env
silent v = []

abbrev open_space : Env
open_space allow_unticketed_var = bytes "true"
open_space port_var = bytes "4444"
open_space v = []

-- Thirty-two bytes of zero.
abbrev ticketed : Env
ticketed ticket_key_var = bytes "AAAAAAAAAAAAAAAAAAAAAAAAAAAAAAAAAAAAAAAAAAA="
ticketed v = []

abbrev clashing : Env
clashing allow_unticketed_var = bytes "true"
clashing v = ticketed v

-- Without a ticket key and without the choice to open the space, nothing loads.
unticketed : load_config silent ≡ fails no_ticket_key
unfolding load_config default_config load_ports load_engine load_logs load_access env_int env_level
    env_key
unticketed = refl

two_ways : load_config clashing ≡ fails ticketed_and_open
unfolding load_config default_config load_ports load_engine load_logs load_access env_int env_level
    env_key decode64 parse_bool groups
two_ways = refl

abbrev loaded : AppConfig
loaded = record default_config { port = pos 4444; allow_unticketed = true }

loads : load_config open_space ≡ ok loaded
unfolding load_config default_config load_ports load_engine load_logs load_access env_int env_level
    env_key parse_bool atoi digits
loads = refl

load_config_lem_example :
    PortsOk loaded × EngineOk loaded × LogsOk loaded × Access open_space loaded
load_config_lem_example = load_config_lem open_space loaded loads
