-- ===== src/Circuit/Events.antt =====
-- The calls of a circuit's methods as a sequence. The mutex makes each call one step, so that any
-- interleaving of the queries in flight is a list of these events, with any permit that a query
-- may hold. `initial` is the circuit as initPlugin builds it.
use vela_dns.Base.{ℕ, ◌≤◌, ◌<◌, false, List, [], ◌∷◌}
use vela_dns.Base.Int64.{two63}
use vela_dns.Backoff.Laws.{half63}
use vela_dns.Circuit.{Permit, Circuit, acquire, succeed, fail}

pub data Event : Type 0 where
  acquired : ℕ → Event
  succeeded : Event
  failed : (ℕ → ℕ → ℕ) → ℕ → Permit → Event

unfoldable pub apply : Event → Circuit → Circuit
apply (acquired now) c = (acquire now c).0
apply succeeded c = succeed c
apply (failed jitter now p) c = fail jitter now p c

unfoldable pub run : List Event → Circuit → Circuit
run [] c = c
run (e ∷ es) c = run es (apply e c)

-- The settings under which the delays are the intended ones.
pub record IsConfigured (c : Circuit) : Type 0 where
  pub threshold_pos : 0 < c.failure_threshold
  pub threshold_small : c.failure_threshold < two63
  pub initial_pos : 0 < c.initial_backoff
  pub initial_le : c.initial_backoff ≤ c.max_backoff
  pub max_small : c.max_backoff < half63

unfoldable pub initial : ℕ → ℕ → ℕ → Circuit
initial threshold first maximum = record {
  consecutive_failures = 0;
  backoff_step = 0;
  retry_at = 0;
  probing = false;
  failure_threshold = threshold;
  initial_backoff = first;
  max_backoff = maximum;
  state_gauge = 0;
  backoff_gauge = 0;
  failure_counter = 0;
  bypass_counter = 0;
}
