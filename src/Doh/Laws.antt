-- ===== src/Doh/Laws.antt =====
-- The backoff of one DoH upstream, for any calls by any exchanges in flight.
use Prim.Native.Nat.{min}
use vela_dns.Base.{
  ℕ, suc, ◌+◌, ◌-◌, ◌*◌, ◌^◌, ◌≤◌, ◌<◌, ◌≡◌, ◌≢◌, Bool, true, false, List, [], ◌∷◌, arith, length,
}
use vela_dns.Base.Int64.{two64}
use vela_dns.Backoff.{IsRandom, second, doh_maximum}
use vela_dns.Backoff.Bounds.{IsNear, jitter_doh_backoff-IsNear}
use vela_dns.Doh.{Breaker, fresh, failure_threshold, acquire, fail, succeed}

pub data Event : Type 0 where
  acquired : ℕ → Event
  succeeded : Event
  failed : (ℕ → ℕ) → ℕ → Bool → Event

unfoldable pub apply : Event → Breaker → Breaker
apply (acquired now) u = (acquire now u).0
apply succeeded u = succeed u
apply (failed rand now probe) u = fail rand now probe u

unfoldable pub run : List Event → Breaker → Breaker
unfolding apply
run [] u = u
run (e ∷ es) u = run es (apply e u)

pub record IsSound (u : Breaker) : Type 0 where
  pub closed_clean : u.backoff_step ≡ 0 → (u.probing ≡ false) × (u.retry_at ≡ 0)
  pub closed_count : u.backoff_step ≡ 0 → u.failures < failure_threshold
  pub parked_count : u.backoff_step ≢ 0 → u.failures ≡ failure_threshold

apply-IsSound :
    (e : Event) (u : Breaker) → suc u.backoff_step < two64 → IsSound u → IsSound (apply e u)
unfolding apply acquire succeed fail
apply-IsSound (acquired now) u b h = ground arith
apply-IsSound succeeded u b h = ground arith
apply-IsSound (failed rand now probe) u b h = ground arith

backoff_step-apply : (e : Event) (u : Breaker) → (apply e u).backoff_step ≤ suc u.backoff_step
unfolding apply acquire succeed fail
backoff_step-apply (acquired now) u = ground arith
backoff_step-apply succeeded u = ground arith
backoff_step-apply (failed rand now probe) u = ground arith

run-keeps :
    (es : List Event) (u : Breaker)
    → IsSound u
    → u.backoff_step + length es < two64
    → IsSound (run es u)
unfolding run
run-keeps [] u h b = h
run-keeps (e ∷ es) u h b =
    run-keeps es (apply e u) (apply-IsSound e u (omega arith) h)
      (omega (arith, backoff_step-apply e u))

-- After any calls, fewer than 2^64, a new upstream is either in use, with fewer than two failures
-- counted, no probe out and no retry time, or parked after exactly two failures.
pub breaker-IsSound : (es : List Event) → length es < two64 → IsSound (run es fresh)
breaker-IsSound es b = run-keeps es fresh (ground arith) (omega arith)

-- A parked upstream is not tried before its retry time, nor long after its maximum.
pub record ParksFor (now n : ℕ) (u : Breaker) : Type 0 where
  pub step_is : u.backoff_step ≡ suc n
  pub not_probing : u.probing ≡ false
  pub near : IsNear (min doh_maximum (second * 2 ^ n)) doh_maximum (u.retry_at - now)
  pub later : now ≤ u.retry_at

module _ {rand : ℕ → ℕ} (random : IsRandom rand) where
  -- The second failure of an upstream in use parks it for about a second.
  pub fail-ParksFor_first :
      (now : ℕ) (probe : Bool) (u : Breaker)
      → u.backoff_step ≡ 0
      → u.failures ≡ 1
      → ParksFor now 0 (fail rand now probe u)
  unfolding fail
  fail-ParksFor_first now probe u s f = ground (arith, jitter_doh_backoff-IsNear random 0)

  -- A failed probe parks the upstream again, for about twice as long as the time before and for
  -- five minutes at most.
  pub fail-ParksFor :
      (now : ℕ) (u : Breaker)
      → u.backoff_step ≢ 0
      → suc u.backoff_step < two64
      → u.probing ≡ true
      → ParksFor now u.backoff_step (fail rand now true u)
  unfolding fail
  fail-ParksFor now u s b p = ground (arith, jitter_doh_backoff-IsNear random u.backoff_step)
