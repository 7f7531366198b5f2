-- ===== src/Backoff/Bounds.antt =====
-- The jittered delays stay within a fifth of the nominal delay, and under their maximum.
use Prim.Native.Nat.{min}
use vela_dns.Base.{ℕ, suc, ◌+◌, ◌-◌, ◌*◌, ◌/◌, ◌^◌, ◌≤◌, ◌<◌, ◌≡◌, arith}
use vela_dns.Base.Int64.{wrap, slt-nonneg, sle-nonneg}
use vela_dns.Backoff.{
  second, IsRandom, spread_around, jitter_delay, restart_initial, restart_maximum, restart_delay,
  doh_maximum, jitter_doh_backoff,
}
use vela_dns.Backoff.Laws.{half63, double_until-min}

-- `delay` lies within a fifth of `nominal`, and is not above `maximum`.
pub record IsNear (nominal maximum delay : ℕ) : Type 0 where
  pub not_early : nominal - nominal / 5 ≤ delay
  pub not_late : delay ≤ nominal + nominal / 5
  pub capped : delay ≤ maximum

suc_sub_one : (n : ℕ) → suc n - 1 ≡ n
suc_sub_one n = omega arith

module _ {rand : ℕ → ℕ} (random : IsRandom rand) where
  spread_around-IsNear :
      (nominal maximum : ℕ)
      → nominal ≤ maximum
      → maximum < half63
      → IsNear nominal maximum (spread_around rand nominal maximum)
  unfolding spread_around
  spread_around-IsNear nominal maximum q r =
      let drawn = random (2 * (nominal / 5) + 1) (omega arith) in
      let e : wrap (2 * (nominal / 5) + 1) ≡ 2 * (nominal / 5) + 1 = omega arith in
      let delay : ℕ = nominal - nominal / 5 + rand (2 * (nominal / 5) + 1) in
      let e' : wrap delay ≡ delay = omega arith in
      rw (e, e', slt-nonneg maximum delay (omega arith) (omega arith)) (ground arith)

  -- The jittered delay of a circuit stays within a fifth of the nominal one, under the maximum,
  -- and is positive.
  pub jitter_delay-IsNear :
      (nominal maximum : ℕ)
      → 0 < nominal
      → nominal ≤ maximum
      → maximum < half63
      → IsNear nominal maximum (jitter_delay rand nominal maximum)
  unfolding jitter_delay
  jitter_delay-IsNear nominal maximum p q r =
      rw (sle-nonneg nominal 0 (omega arith) (omega arith))
        (ground (arith, spread_around-IsNear nominal maximum q r))

  -- Whatever the step, with random numbers below their bound, a restart waits for about twice as long
  -- as the one before: the delay is within a fifth of min (30 s) (1 s * 2 ^ n) after n + 1 failures
  -- in a row, and never above 30 s.
  pub restart_delay-IsNear :
      (n : ℕ)
      → IsNear
          (min restart_maximum (restart_initial * 2 ^ n))
          restart_maximum
          (restart_delay rand (suc n))
  unfolding restart_delay
  restart_delay-IsNear n =
      rw
        (
          suc_sub_one n,
          double_until-min n restart_maximum restart_initial (omega arith) (omega arith)
              (omega arith),
        )
        (spread_around-IsNear _ restart_maximum (omega arith) (omega arith))

  pub jitter_doh_backoff-IsNear :
      (n : ℕ)
      → IsNear (min doh_maximum (second * 2 ^ n)) doh_maximum (jitter_doh_backoff rand (suc n))
  unfolding jitter_doh_backoff
  jitter_doh_backoff-IsNear n =
      rw
        (
          suc_sub_one n,
          double_until-min n doh_maximum second (omega arith) (omega arith) (omega arith),
        )
        (spread_around-IsNear _ doh_maximum (omega arith) (omega arith))
