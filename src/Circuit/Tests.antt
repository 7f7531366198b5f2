-- ===== src/Circuit/Tests.antt =====
-- Runs of the circuit at fixed inputs, and the theorems at inputs that meet their conditions.
use vela_dns.Base.{
  ℕ, zero, suc, ◌+◌, ◌*◌, ◌<◌, ◌≡◌, refl, true, false, none, some, List, [], ◌∷◌, All, arith,
}
use vela_dns.Base.Int64.{slt, sle}
use vela_dns.Backoff.{second, minute, exponential_delay}
use vela_dns.Circuit.{Permit, Circuit, acquire, succeed, fail, open_until}
use vela_dns.Circuit.Episodes.{admitted, admitted_once, replies, IsRefused, abandoned_probe_blocks}
use vela_dns.Circuit.Events.{Event, acquired, failed, apply, run, IsConfigured, initial}
use vela_dns.Circuit.Invariant.{IsSound, run-IsSound}
use vela_dns.Circuit.Phases.{closed, half_open, phase, policy}
use vela_dns.Circuit.Query.{result, timer, done, Attempt, attempt_once, Query, attempts_of, exec}
use vela_dns.Circuit.Refinement.{moves, run-refines}
use vela_dns.Circuit.Retry.{exec-retried, IsLost, IsAnswered}
use vela_dns.Circuit.Settings.{Args, Plugin, new_plugin, new_plugin_short_maximum}

abbrev plain : ℕ → ℕ → ℕ
plain nominal maximum = nominal

abbrev ordinary : Permit
ordinary = record { probe = false }

abbrev trial : Permit
trial = record { probe = true }

abbrev start : Circuit
start = record {
  consecutive_failures = 0;
  backoff_step = 0;
  retry_at = 0;
  probing = false;
  failure_threshold = 2;
  initial_backoff = second;
  max_backoff = 30 * second;
  state_gauge = 0;
  backoff_gauge = 0;
  failure_counter = 0;
  bypass_counter = 0;
}

start-IsConfigured : IsConfigured (initial 2 second (30 * second))
unfolding initial
start-IsConfigured = omega arith

-- Two failures, a refused query, a trial that fails, and one that succeeds.
abbrev trace : List Event
trace =
    failed plain (5 * second) ordinary
    ∷ failed plain (6 * second) ordinary
    ∷ acquired (6 * second + 1)
    ∷ acquired (8 * second)
    ∷ failed plain (9 * second) trial
    ∷ acquired (12 * second)
    ∷ []

trace-phase : phase (run trace (initial 2 second (30 * second))) ≡ half_open 2
unfolding run initial acquire fail succeed apply open_until exponential_delay slt sle
trace-phase = refl

run-refines_example :
    phase (run trace (initial 2 second (30 * second)))
    ≡ moves (policy (initial 2 second (30 * second))) trace (closed 0)
run-refines_example = run-refines trace 2 second (30 * second) start-IsConfigured (omega arith)

run-IsSound_example : IsSound (run trace (initial 2 second (30 * second)))
run-IsSound_example = run-IsSound trace 2 second (30 * second) start-IsConfigured (omega arith)

-- A circuit that has opened once, until the ninth second.
abbrev parked : Circuit
parked = record start {
  consecutive_failures = 2;
  backoff_step = 1;
  retry_at = 9 * second;
  state_gauge = 1;
  backoff_gauge = second;
}

admitted_once_example :
    admitted (8 * second ∷ 9 * second ∷ 9 * second ∷ 10 * second ∷ []) parked ≡ 1
admitted_once_example =
    admitted_once (8 * second ∷ 9 * second ∷ 9 * second ∷ 10 * second ∷ []) parked (omega arith)
      refl

abbrev plugin : Plugin
plugin = record {
  circuit = start;
  attempts = 2;
  attempt_timeout = 800_000_000;
  failure_rcodes = 2 ∷ 5 ∷ [];
}

abbrev late : Attempt
late = record { arrival = timer; context_end = none }

abbrev good : Attempt
good = record { arrival = result none (some (record { rcode = 0 })); context_end = none }

abbrev left : Attempt
left = record { arrival = done 7; context_end = some 7 }

abbrev at_first : Attempt → Attempt → ℕ → Attempt
at_first a b n = elim n [ zero ↦ a | suc m ↦ b ]

abbrev query : (ℕ → Attempt) → Query
query world = record {
  started = 10 * second;
  finished = 11 * second;
  jitter = plain;
  world = world;
}

late-IsLost : IsLost late
unfolding attempt_once
late-IsLost = record { goes_on = refl; unanswered = λ m e. cc e }

exec-retried_example :
    IsAnswered start (record { rcode = 0 }) (exec plugin (query (at_first late good)) start)
unfolding sle
exec-retried_example =
    exec-retried plugin (query (at_first late good)) start 1 (record { rcode = 0 }) refl
      (omega arith) one_lost refl
  where
    one_lost : (j : ℕ) → j < 1 → IsLost (at_first late good j)
    one_lost zero h = late-IsLost
    one_lost (suc j) h = absurd (omega arith)

-- Its client leaves while the trial query waits; a minute later, after the failure of an earlier query,
-- the circuit still refuses.
abandoned_probe_blocks_example : All IsRefused (
    replies plugin
      (((plain, 65 * second) ∷ [], record (query (λ n. good)) { started = 70 * second }) ∷ [])
      (exec plugin (query (λ n. left)) parked).circuit)
unfolding attempts_of attempt_once sle
abandoned_probe_blocks_example =
    abandoned_probe_blocks plugin (query (λ n. left)) parked 7
      (((plain, 65 * second) ∷ [], record (query (λ n. good)) { started = 70 * second }) ∷ [])
      (omega arith) refl (omega arith) refl

abbrev args : Args
args = record {
  failure_threshold = 5;
  attempts = 2;
  attempt_timeout_millis = 800;
  initial_backoff_millis = 1000;
  max_backoff_millis = 30_000;
  failure_rcodes = 2 ∷ [];
}

abbrev slow : Args
slow = record args { initial_backoff_millis = 600_000 }

new_plugin_short_maximum_example :
    ((new_plugin slow).circuit.initial_backoff ≡ 600 * second)
    × ((new_plugin slow).circuit.max_backoff ≡ 5 * minute)
    × ((new_plugin slow).circuit.max_backoff < (new_plugin slow).circuit.initial_backoff)
new_plugin_short_maximum_example =
    new_plugin_short_maximum slow (omega arith) (omega arith) (omega arith)
