-- ===== src/Program/Tests.antt =====
-- A start of the program that comes to run the children, and one that does not.
use vela_dns.Base.{ℕ, ◌≡◌, refl, true, if◌then◌else◌, Option, none, some, [], ◌∷◌}
use vela_dns.Text.{Bytes, equal, codes, contains}
use vela_dns.Text.Decimal.{itoa, atoi}
use vela_dns.Text.Replace.{replace_all}
use vela_dns.Config.{ok, load_config}
use vela_dns.Config.Prepare.{prepare_runtime}
use vela_dns.Config.Samples.{environment, forwarding, sound, installed, templates}
use vela_dns.Program.{
  World, Running, exited, ran, main, supervise_all, printed, new_logger, mosdns_not_ready,
}
use vela_dns.Program.Bootstrap.{IsParser, bootstrap_log_level, bootstrap_log_level-new_logger}
use vela_dns.Program.Laws.{IsStarted, main-IsStarted}
use Prim.Native.String.{String}
use vela_dns.Runtime.{new_runtime_state, update}
use vela_dns.Doh.Exchange.{Transport, value, fault}
use vela_dns.Doh.Startup.{Probing, Selection, select_doh_upstreams}
use vela_dns.Doh.Started.{set_up, start_doh_bridge}
use vela_dns.Health.{nothing}
use vela_dns.Waiting.{connected, timed_out}

-- Nothing is answered.
abbrev cut_line : Transport
cut_line = record {
  pack = λ m. value (1 ∷ 2 ∷ []);
  new_request = λ p. value p;
  send = λ p. fault 9;
  unpack = λ b. fault 9;
}

abbrev probing : String → Probing
probing tag = record { rand = λ n. 0; transport = cut_line; started = 1000; now = 2000; id = 7 }

abbrev world : World
world = record {
  getenv = environment;
  os = sound;
  files = installed;
  page = none;
  exchanged = nothing;
  probing = probing;
  listens_udp = true;
  listens_tcp = true;
  unbound_wait = connected;
  classifier_wait = connected;
  mosdns_wait = timed_out;
}

abbrev selection : Selection
selection = select_doh_upstreams probing forwarding new_runtime_state

abbrev running : Running
running =
    supervise_all world forwarding (prepare_runtime sound forwarding installed).0
      selection.upstreams (update "doh_bridge" set_up selection.state)

one_warning : running.output ≡ mosdns_not_ready ∷ []
unfolding printed new_logger
one_warning = refl

started : main [] world ≡ ran running
unfolding main start_doh_bridge load_config prepare_runtime itoa atoi replace_all contains
started = refl

main-IsStarted_example : IsStarted [] world running templates
main-IsStarted_example = main-IsStarted [] world running templates started

abbrev misconfigured : World
misconfigured = record world { getenv = λ name. codes "x" }

unknown_command : main (codes "serve" ∷ []) world ≡ exited 2
unfolding main
unknown_command = refl

misconfigured_exits : main [] misconfigured ≡ exited 2
unfolding main load_config
misconfigured_exits = refl

abbrev parse_level : Bytes → Option ℕ
parse_level name =
    if equal name (codes "debug")
    then some 0
    else if equal name (codes "info")
    then some 1
    else if equal name (codes "warn")
    then some 2
    else if equal name (codes "error")
    then some 3
    else none

parse_level-IsParser : IsParser parse_level
unfolding equal
parse_level-IsParser = record { debug = refl; info = refl; warn = refl; error = refl }

loaded : load_config environment ≡ ok forwarding
unfolding load_config itoa atoi
loaded = refl

bootstrap_log_level-new_logger_example :
    bootstrap_log_level parse_level (environment "LOG_LEVEL") ≡ new_logger forwarding.log_level
bootstrap_log_level-new_logger_example =
    bootstrap_log_level-new_logger parse_level environment forwarding parse_level-IsParser loaded

unhealthy : main (codes "healthcheck" ∷ []) world ≡ exited 1
unfolding main equal vela_dns.Health.run_healthcheck vela_dns.Health.check_supervisor_health
unhealthy = refl
