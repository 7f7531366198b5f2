-- ===== src/Circuit/Settings.antt =====
-- The arguments of the plugin and their defaults: initPlugin of internal/circuitplugin/circuit.go.
-- Integers are int64 bit patterns. Looking up the primary plugin and registering the metrics come
-- before and between these steps, in Circuit.Registered.
use vela_dns.Base.{ℕ, ◌*◌, ◌≤◌, ◌<◌, ◌≡◌, List, arith, if◌then◌else◌}
use vela_dns.Base.Int64.{two63, wrap, slt, sle}
use vela_dns.Backoff.{second, minute}
use vela_dns.Circuit.{Circuit}
use vela_dns.Circuit.Events.{IsConfigured, initial}

pub record Args : Type 0 where
  pub failure_threshold : ℕ
  pub attempts : ℕ
  pub attempt_timeout_millis : ℕ
  pub initial_backoff_millis : ℕ
  pub max_backoff_millis : ℕ
  pub failure_rcodes : List ℕ

pub record Plugin : Type 0 where
  pub circuit : Circuit
  pub attempts : ℕ
  pub attempt_timeout : ℕ
  pub failure_rcodes : List ℕ

abbrev pub or_default : ℕ → ℕ → ℕ
or_default n d = if sle n 0 then d else n

-- time.Duration(n) * time.Millisecond
abbrev pub millis : ℕ → ℕ
millis n = wrap (n * 1_000_000)

unfoldable pub new_plugin : Args → Plugin
unfolding initial
new_plugin args =
    let first = or_default (millis args.initial_backoff_millis) second in
    let most = millis args.max_backoff_millis in
    let maximum = if slt most first then 5 * minute else most in
    record {
      circuit = initial (or_default args.failure_threshold 2) first maximum;
      attempts = or_default args.attempts 1;
      attempt_timeout = or_default (millis args.attempt_timeout_millis) second;
      failure_rcodes = args.failure_rcodes;
    }

-- A time in milliseconds that is no more than 4.6 * 10^12, which is 146 years, and not negative.
abbrev pub IsMillis : ℕ → Type 0
IsMillis n = n ≤ 4_600_000_000_000

-- Any threshold that is not negative and any two delays that are not, with the first delay at most
-- five minutes and the maximum below 146 years, give a circuit with settings that are in range; zero and a maximum below the first delay stand for the defaults.
pub new_plugin-IsConfigured :
    (args : Args)
    → args.failure_threshold < two63
    → args.initial_backoff_millis ≤ 300_000
    → IsMillis args.max_backoff_millis
    → IsConfigured (new_plugin args).circuit
unfolding new_plugin slt sle
new_plugin-IsConfigured args t i m = ground arith

-- With a first delay above five minutes and below 146 years, and a smaller maximum, the plugin takes
-- the first delay as it is given and falls back on a maximum of five minutes, below the first delay.
pub new_plugin_short_maximum :
    (args : Args)
    → 300_000 < args.initial_backoff_millis
    → IsMillis args.initial_backoff_millis
    → args.max_backoff_millis < args.initial_backoff_millis
    → let c = (new_plugin args).circuit in
      (c.initial_backoff ≡ args.initial_backoff_millis * 1_000_000)
      × (c.max_backoff ≡ 5 * minute)
      × (c.max_backoff < c.initial_backoff)
unfolding new_plugin slt sle
new_plugin_short_maximum args i m l = (ground arith, ground arith, ground arith)
