-- ===== src/Circuit.antt =====
-- The AUTO_FORWARD circuit breaker of internal/circuitplugin/circuit.go: its state, and the three
-- methods that change it, each of which runs under the circuit's mutex. The time is a count of
-- nanoseconds after the zero time.Time, and a method that reads the clock takes it as `now`. The
-- gauges and counters are plain fields; the backoff gauge holds the duration that the source
-- converts to seconds. Log lines are left out.
pub mod Settings
pub mod Registered
pub mod Query
pub mod Events
pub mod Invariant
pub mod Phases
pub mod Refinement
pub mod Episodes
pub mod Opening
pub mod Threshold
pub mod Verdict
pub mod Retry
mod Tests
use vela_dns.Base.{ℕ, ◌+◌, ◌-◌, Bool, true, false, not, ◌||◌, ltb, ◌==◌, if◌then◌else◌}
use vela_dns.Base.Int64.{two64, two63, wrap, slt}
use vela_dns.Backoff.{exponential_delay}

pub record Permit : Type 0 where
  pub probe : Bool

pub record Circuit : Type 0 where
  pub consecutive_failures : ℕ
  pub backoff_step : ℕ
  pub retry_at : ℕ
  pub probing : Bool
  pub failure_threshold : ℕ
  pub initial_backoff : ℕ
  pub max_backoff : ℕ
  pub state_gauge : ℕ
  pub backoff_gauge : ℕ
  pub failure_counter : ℕ
  pub bypass_counter : ℕ

-- time.Time.Add of a signed duration
abbrev pub add_duration : ℕ → ℕ → ℕ
add_duration t d = if ltb d two63 then t + d else t - (two64 - d)

-- The permit of a refused query is the zero value.
unfoldable pub acquire : ℕ → Circuit → Circuit × Permit × Bool
acquire now c =
    if c.backoff_step == 0
    then (c, record { probe = false }, true)
    else if ltb now c.retry_at || c.probing
    then (record c { bypass_counter = c.bypass_counter + 1 }, record { probe = false }, false)
    else (
      record c { probing = true; state_gauge = 2; backoff_gauge = 0 },
      record { probe = true },
      true,
    )

unfoldable pub succeed : Circuit → Circuit
succeed c = record c {
  consecutive_failures = 0;
  backoff_step = 0;
  retry_at = 0;
  probing = false;
  state_gauge = 0;
  backoff_gauge = 0;
}

-- The last part of `fail`: the circuit opens, or opens again, until `now` plus the delay.
unfoldable pub open_until : (ℕ → ℕ → ℕ) → ℕ → Circuit → Circuit
open_until jitter now c =
    let nominal = exponential_delay c.initial_backoff c.max_backoff c.backoff_step in
    let delay = jitter nominal c.max_backoff in
    record c {
      probing = false;
      retry_at = add_duration now delay;
      state_gauge = 1;
      backoff_gauge = delay;
    }

-- `jitter` is the circuit's field of that name, in this call.
unfoldable pub fail : (ℕ → ℕ → ℕ) → ℕ → Permit → Circuit → Circuit
unfolding open_until
fail jitter now p c =
    let counted = record c { failure_counter = c.failure_counter + 1 } in
    let failures = wrap (c.consecutive_failures + 1) in
    let more = record counted { consecutive_failures = failures } in
    if c.backoff_step == 0
    then (if p.probe
        then counted
        else if slt failures c.failure_threshold
        then more
        else open_until jitter now (record more { backoff_step = 1 }))
    else if not p.probe || not c.probing
    then counted
    else open_until jitter now (record counted { backoff_step = wrap (c.backoff_step + 1) })
