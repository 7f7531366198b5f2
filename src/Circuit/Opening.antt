-- ===== src/Circuit/Opening.antt =====
-- When the circuit opens, and for how long.
use Prim.Native.Nat.{min}
use vela_dns.Base.{ℕ, suc, ◌+◌, ◌-◌, ◌*◌, ◌^◌, ◌<◌, ◌≡◌, ◌≢◌, true, false, arith}
use vela_dns.Base.Int64.{two64, slt-nonneg}
use vela_dns.Backoff.{IsRandom, jitter_delay, exponential_delay}
use vela_dns.Backoff.Bounds.{IsNear, jitter_delay-IsNear}
use vela_dns.Backoff.Laws.{exponential_delay-min, mul_two_pow_pos}
use vela_dns.Circuit.{Permit, Circuit, fail}
use vela_dns.Circuit.Events.{IsConfigured}

-- The circuit refuses from `now` for a time near the n-th delay.
pub record OpensFor (now n : ℕ) (c : Circuit) : Type 0 where
  pub step_is : c.backoff_step ≡ suc n
  pub not_probing : c.probing ≡ false
  pub near : IsNear (min c.max_backoff (c.initial_backoff * 2 ^ n)) c.max_backoff (c.retry_at - now)
  pub later : now < c.retry_at

module _ {rand : ℕ → ℕ} (random : IsRandom rand) (c : Circuit) (k : IsConfigured c) where
  jittered :
      (n : ℕ)
      → let nominal = min c.max_backoff (c.initial_backoff * 2 ^ n) in
        IsNear nominal c.max_backoff (jitter_delay rand nominal c.max_backoff) × (0 < nominal)
  jittered n =
      let pos : 0 < min c.max_backoff (c.initial_backoff * 2 ^ n) =
        omega (arith, k, mul_two_pow_pos c.initial_backoff n k.initial_pos) in
      (jitter_delay-IsNear random _ c.max_backoff pos (omega arith) k.max_small, pos)

  delay_is :
      (n : ℕ)
      → exponential_delay c.initial_backoff c.max_backoff (suc n)
        ≡ min c.max_backoff (c.initial_backoff * 2 ^ n)
  delay_is n =
      exponential_delay-min c.initial_backoff c.max_backoff n k.initial_pos k.initial_le k.max_small

  -- With settings that are in range and random numbers below their bound, a failed trial query
  -- opens the circuit again, for a time within a fifth of the first delay doubled as often as it
  -- has opened in a row, at most the maximum, if it has opened fewer than 2^64 - 1 times in a row.
  pub fail-OpensFor :
      (now : ℕ) (p : Permit)
      → p.probe ≡ true
      → c.probing ≡ true
      → c.backoff_step ≢ 0
      → suc c.backoff_step < two64
      → OpensFor now c.backoff_step (fail (jitter_delay rand) now p c)
  unfolding fail
  fail-OpensFor now p t h s b = ground (arith, delay_is c.backoff_step, jittered c.backoff_step)

  -- The failure that reaches the threshold opens a closed circuit for about the first delay.
  pub fail-OpensFor_first :
      (now : ℕ) (p : Permit)
      → p.probe ≡ false
      → c.backoff_step ≡ 0
      → suc c.consecutive_failures ≡ c.failure_threshold
      → OpensFor now 0 (fail (jitter_delay rand) now p c)
  unfolding fail
  fail-OpensFor_first now p t s b =
      ground
        (arith, delay_is 0, jittered 0, slt-nonneg (c.consecutive_failures + 1) c.failure_threshold)
