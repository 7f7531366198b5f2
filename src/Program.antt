-- ===== src/Program.antt =====
-- main of cmd/veladns/main.go, and the logger of cmd/veladns/logger.go. A `World` is what main
-- meets: the environment, the operating system with its files, what the health check gets, what the
-- bridge meets as it starts, and how the three waits end. A run that is not cut short ends with
-- the signal that ends the context; the child loops are in Supervise.
pub mod Laws
pub mod Causes
pub mod Bootstrap
mod Tests
use Prim.Native.String.{String}
use vela_dns.Base.{
  ℕ, Bool, true, false, ◌||◌, leb, if◌then◌else◌, Option, none, some, List, [], ◌∷◌, ◌++◌,
}
use vela_dns.Text.{Bytes, codes, equal}
use vela_dns.Config.{Config, Result, ok, err, load_config}
use vela_dns.Config.Files.{Os, Files, Problem}
use vela_dns.Config.Prepare.{
  unbound_runtime_config, unbound_recursive_runtime_config, mosdns_runtime_config, prepare_runtime,
}
use vela_dns.Runtime.{RuntimeState, new_runtime_state}
use vela_dns.Doh.Exchange.{Upstream}
use vela_dns.Doh.Startup.{Probing}
use vela_dns.Doh.Started.{Started, no_udp, no_tcp, running, start_doh_bridge}
use vela_dns.Health.{Response, Exchanged, HealthError, run_healthcheck}
use vela_dns.Waiting.{connected, canceled, timed_out}
use vela_dns.Waiting

pub data Level : Type 0 where
  info warn error : Level

-- The threshold of newLogger.
unfoldable pub new_logger : Bytes → ℕ
unfolding equal
new_logger level =
    if equal level (codes "debug")
    then 0
    else if equal level (codes "info")
    then 1
    else if equal level (codes "warn")
    then 2
    else if equal level (codes "error")
    then 3
    else 2

abbrev pub prints : ℕ → Level → Bool
prints threshold info = leb threshold 1
prints threshold warn = leb threshold 2
prints threshold error = true

pub data Line : Type 0 where
  unbound_not_ready classifier_not_ready mosdns_not_ready shutdown_requested : Line
  ready : Bool → Line

abbrev pub level_of : Line → Level
level_of unbound_not_ready = warn
level_of classifier_not_ready = warn
level_of mosdns_not_ready = warn
level_of shutdown_requested = info
level_of (ready auto) = info

-- The lines that are printed of those that main logs.
unfoldable pub printed : ℕ → List Line → List Line
printed threshold [] = []
printed threshold (l ∷ lines) =
    let rest = printed threshold lines in if prints threshold (level_of l) then l ∷ rest else rest

pub record ChildSpec : Type 0 where
  pub name : String
  pub path : String
  pub args : List String
  pub suppress_startup_info : Bool

pub record World : Type 0 where
  pub getenv : String → Bytes
  pub os : Os
  pub files : Files
  pub page : Option Response
  pub exchanged : Exchanged
  pub probing : String → Probing
  pub listens_udp : Bool
  pub listens_tcp : Bool
  pub unbound_wait : Waiting.Outcome
  pub classifier_wait : Waiting.Outcome
  pub mosdns_wait : Waiting.Outcome

-- The upstreams of the bridge and the state as it has left it, and the children in the order of
-- their start.
pub record Running : Type 0 where
  pub config : Config
  pub files : Files
  pub bridge : List Upstream
  pub state : RuntimeState
  pub children : List ChildSpec
  pub output : List Line

pub data Ended : Type 0 where
  exited : ℕ → Ended
  ran : Running → Ended

abbrev pub quiet_unbound_startup : Config → Bool
quiet_unbound_startup cfg =
    equal cfg.log_level (codes "warn") || equal cfg.log_level (codes "error")

abbrev pub unbound_child : String → String → Config → ChildSpec
unbound_child name config cfg = record {
  name = name;
  path = "/usr/sbin/unbound";
  args = "-d" ∷ "-c" ∷ config ∷ [];
  suppress_startup_info = quiet_unbound_startup cfg;
}

abbrev pub mosdns_child : ChildSpec
mosdns_child = record {
  name = "mosdns";
  path = "/usr/local/bin/mosdns";
  args = "start" ∷ "-c" ∷ mosdns_runtime_config ∷ [];
  suppress_startup_info = false;
}

-- A warning unless the wait ends with a connection.
abbrev pub warn_unless : Waiting.Outcome → Line → List Line → List Line
warn_unless connected line lines = lines
warn_unless canceled line lines = line ∷ lines
warn_unless timed_out line lines = line ∷ lines

abbrev pub tell_mosdns : Waiting.Outcome → Config → List Line → List Line
tell_mosdns connected cfg lines = ready cfg.auto_enabled ∷ lines
tell_mosdns canceled cfg lines = mosdns_not_ready ∷ lines
tell_mosdns timed_out cfg lines = mosdns_not_ready ∷ lines

abbrev pub lines_of : World → Config → List Line
lines_of w cfg = warn_unless w.unbound_wait unbound_not_ready (
    warn_unless w.classifier_wait classifier_not_ready
      (tell_mosdns w.mosdns_wait cfg (shutdown_requested ∷ [])))

abbrev pub supervise_all : World → Config → Files → List Upstream → RuntimeState → Running
supervise_all w cfg files bridge state = record {
  config = cfg;
  files = files;
  bridge = bridge;
  state = state;
  children =
      unbound_child "unbound" unbound_runtime_config cfg
      ∷ unbound_child "unbound_recursive" unbound_recursive_runtime_config cfg
      ∷ mosdns_child
      ∷ [];
  output = printed (new_logger cfg.log_level) (lines_of w cfg);
}

abbrev pub with_bridge : World → Config → Files → Started → Ended
with_bridge w cfg files no_udp = exited 1
with_bridge w cfg files no_tcp = exited 1
with_bridge w cfg files (running bridge state) = ran (supervise_all w cfg files bridge state)

abbrev pub bridge_of : World → Config → Started
bridge_of w cfg = start_doh_bridge w.probing w.listens_udp w.listens_tcp cfg new_runtime_state

abbrev pub start_bridge : World → Config → Files × Option Problem → Ended
start_bridge w cfg (files, some problem) = exited 1
start_bridge w cfg (files, none) = with_bridge w cfg files (bridge_of w cfg)

abbrev pub start : World → Result Config → Ended
start w (err e) = exited 2
start w (ok cfg) = start_bridge w cfg (prepare_runtime w.os cfg w.files)

abbrev pub health_code : Option HealthError → Ended
health_code none = exited 0
health_code (some e) = exited 1

-- The arguments behind the name of the program.
unfoldable pub main : List Bytes → World → Ended
unfolding equal load_config prepare_runtime new_logger printed start_doh_bridge run_healthcheck
main [] w = start w (load_config w.getenv)
main (command ∷ []) w =
    if equal command (codes "version")
    then exited 0
    else if equal command (codes "healthcheck")
    then health_code (run_healthcheck w.page w.exchanged)
    else exited 2
main (command ∷ more ∷ rest) w = exited 2
