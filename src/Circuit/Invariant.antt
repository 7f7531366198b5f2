-- ===== src/Circuit/Invariant.antt =====
-- What holds of a circuit between two calls, for any number of queries in flight.
use vela_dns.Base.{ℕ, suc, ◌+◌, ◌≤◌, ◌<◌, ◌≡◌, ◌≢◌, true, false, List, [], ◌∷◌, arith, length}
use vela_dns.Base.Int64.{two64, slt-nonneg}
use vela_dns.Circuit.{Circuit, acquire, succeed, fail}
use vela_dns.Circuit.Events.{Event, acquired, succeeded, failed, apply, run, IsConfigured, initial}

pub record IsSound (c : Circuit) : Type 0 where
  pub closed_clean :
      c.backoff_step ≡ 0
      → (c.probing ≡ false) × (c.retry_at ≡ 0) × (c.state_gauge ≡ 0) × (c.backoff_gauge ≡ 0)
  pub closed_count : c.backoff_step ≡ 0 → c.consecutive_failures < c.failure_threshold
  pub open_count : c.backoff_step ≢ 0 → c.consecutive_failures ≡ c.failure_threshold
  pub open_gauge : c.backoff_step ≢ 0 → c.probing ≡ false → c.state_gauge ≡ 1
  pub probing_gauge : c.probing ≡ true → (c.state_gauge ≡ 2) × (c.backoff_gauge ≡ 0)

pub apply-IsConfigured : (e : Event) (c : Circuit) → IsConfigured c → IsConfigured (apply e c)
unfolding apply acquire succeed fail
apply-IsConfigured (acquired now) c h = ground arith
apply-IsConfigured succeeded c h = ground arith
apply-IsConfigured (failed jitter now p) c h = ground arith

-- Every call keeps the invariant, as long as the step of the backoff does not wrap around.
pub apply-IsSound :
    (e : Event) (c : Circuit)
    → IsConfigured c
    → suc c.backoff_step < two64
    → IsSound c
    → IsSound (apply e c)
unfolding apply acquire succeed fail
apply-IsSound (acquired now) c k b h = ground arith
apply-IsSound succeeded c k b h = ground arith
apply-IsSound (failed jitter now p) c k b h =
    ground (arith, slt-nonneg (c.consecutive_failures + 1) c.failure_threshold)

pub backoff_step-apply : (e : Event) (c : Circuit) → (apply e c).backoff_step ≤ suc c.backoff_step
unfolding apply acquire succeed fail
backoff_step-apply (acquired now) c = ground arith
backoff_step-apply succeeded c = ground arith
backoff_step-apply (failed jitter now p) c = ground arith

run-keeps :
    (es : List Event) (c : Circuit)
    → IsConfigured c
    → IsSound c
    → c.backoff_step + length es < two64
    → IsConfigured (run es c) × IsSound (run es c)
unfolding run
run-keeps [] c k h b = (k, h)
run-keeps (e ∷ es) c k h b =
    run-keeps es (apply e c) (apply-IsConfigured e c k) (apply-IsSound e c k (omega arith) h)
      (omega (arith, backoff_step-apply e c))

pub initial-IsSound :
    (threshold first maximum : ℕ)
    → IsConfigured (initial threshold first maximum)
    → IsSound (initial threshold first maximum)
unfolding initial
initial-IsSound threshold first maximum k = ground arith

-- After any calls of any queries, fewer than 2^64 of them, a circuit that starts with settings that
-- are in range is sound: closed exactly when the gauge shows 0, with less failures counted than the threshold,
-- else open or probing with the gauge at 1 or 2.
pub run-IsSound :
    (es : List Event) (threshold first maximum : ℕ)
    → IsConfigured (initial threshold first maximum)
    → length es < two64
    → IsSound (run es (initial threshold first maximum))
unfolding initial
run-IsSound es threshold first maximum k b =
    (run-keeps es (initial threshold first maximum) k (initial-IsSound threshold first maximum k)
      (omega arith)).1
