-- ===== src/Health/Tests.antt =====
-- The theorems on the health pages at fixed states.
use vela_dns.Base.{
  ℕ, ◌+◌, ◌*◌, ◌<◌, ◌≡◌, ◌⊎◌, refl, Bool, true, false, Option, none, some, List, [], ◌∷◌,
  if◌then◌else◌, arith, All, ◌≤◌,
}
use vela_dns.Base.Int64.{two63}
use vela_dns.Backoff.{second}
use vela_dns.Text.{Bytes, has_prefix, trim_space}
use vela_dns.Wire.{Component, Snapshot, zero_upstream}
use vela_dns.Runtime.{snapshot, new_runtime_state, unix_epoch}
use vela_dns.Health.{
  Plugin, ready, not_ready, check_supervisor_health, DnsReply, replied, run_healthcheck,
  current_snapshot,
}
use mathlib.Mathlib.Data.Multiset.Defs.{of_list}
use vela_dns.Health.Metrics.{Metric, collect}
use vela_dns.Health.Unordered.{metrics_of, collect-unordered}
use vela_dns.Health.Sent.{Tick, send_state_loop, read_loop}
use vela_dns.Health.Fresh.{IsWritable, read_loop-checked}
use vela_dns.Health.Laws.{is_none, run_healthcheck-passes}

abbrev running : Component
running = record { enabled = true; up = true; restarts = 0; backoff = 0 }

abbrev restarting : Component
restarting = record { enabled = true; up = false; restarts = 1; backoff = second }

abbrev degraded : Snapshot
degraded = record {
  timestamp = 1_700_000_000;
  components = ("mosdns", running) ∷ ("unbound", restarting) ∷ [];
  upstreams = [];
}

abbrev plugin : Plugin
plugin = record { snapshot = degraded; received_at = 100 * second }

stale_page : check_supervisor_health (some (ready (106 * second) plugin)) ≡ some not_ready
unfolding check_supervisor_health ready trim_space has_prefix
stale_page = refl

second-small : second < two63
second-small = omega arith

abbrev address : DnsReply
address = record { rcode = 0; answers = 5 ∷ 1 ∷ [] }

run_healthcheck-passes_example :
    is_none (run_healthcheck (some (ready (102 * second) plugin)) (replied address)) ≡ true
unfolding current_snapshot vela_dns.Base.Dict.find
run_healthcheck-passes_example = run_healthcheck-passes (102 * second) plugin address

-- A supervisor that has just been started, before it has started mosdns.
abbrev sent : Snapshot
sent = snapshot (unix_epoch + second) new_runtime_state

abbrev decode_sent : Bytes → Option Snapshot
decode_sent message = some sent

abbrev asked : Snapshot
asked = record degraded {
  upstreams =
      ("quad9", record zero_upstream { requests = 3; successes = 2; failures = 1 })
      ∷ ("google", zero_upstream)
      ∷ [];
}

abbrev scraped : Plugin
scraped = record { snapshot = asked; received_at = 100 * second }

collect-unordered_example :
    (ms : List Metric) × (collect 7 scraped ≡ some ms)
    × (of_list ms
        ≡ metrics_of 7 scraped.received_at (of_list asked.components) (of_list asked.upstreams))
collect-unordered_example = collect-unordered 7 scraped

abbrev tick : ℕ → Bool → Tick
tick n writes = record {
  at = unix_epoch + second + n * second;
  state = new_runtime_state;
  resolves = true;
  dials = true;
  writes = writes;
  read_at = unix_epoch + second + n * second + 3;
  canceled = false;
}

abbrev write_sent : Snapshot → Option Bytes
write_sent s = some []

-- Two lost messages behind one that arrives.
abbrev ticks : List Tick
ticks = tick 0 true ∷ tick 0 false ∷ tick 0 false ∷ []

tick-IsWritable : (writes : Bool) → IsWritable write_sent decode_sent (tick 0 writes)
tick-IsWritable writes = record { dated = omega arith; payload = []; written = refl; read = refl }

read_loop-checked_example :
    check_supervisor_health (
      some (
        ready
          (unix_epoch + 2 * second)
          (read_loop decode_sent (send_state_loop write_sent ticks) plugin)))
    ≡ some not_ready
unfolding new_runtime_state vela_dns.Base.Dict.at_or vela_dns.Base.Dict.find
read_loop-checked_example =
    read_loop-checked write_sent decode_sent (unix_epoch + second) ticks plugin (tick 0 true)
      (unix_epoch + 2 * second)
      (
        omega arith,
        omega arith,
        refl,
        tick-IsWritable true,
        (
          omega arith,
          omega arith,
          refl,
          tick-IsWritable false,
          (omega arith, omega arith, refl, tick-IsWritable false, tt),
        ),
      )
      refl (omega arith) (omega arith) (omega arith)
