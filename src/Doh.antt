-- ===== src/Doh.antt =====
-- The DoH upstreams and the bridge of cmd/veladns/dohbridge.go: `Breaker` is the backoff state that
-- a dohUpstream keeps under its mutex, and the children have the exchange, the cache of dial
-- addresses and the bridge that goes through the upstreams. Times and durations are nanoseconds.
pub mod Laws
pub mod Exchange
pub mod Accounts
pub mod DialCache
pub mod Bridge
pub mod Fallback
pub mod Warnings
pub mod Startup
pub mod Dialling
pub mod Rotation
pub mod Service
pub mod Started
pub mod Life
pub mod Kept
mod Examples
pub mod Probing
pub mod Selected
mod Tests
use vela_dns.Base.{ℕ, ◌+◌, Bool, true, false, ◌||◌, ◌&&◌, ltb, ◌==◌, if◌then◌else◌}
use vela_dns.Base.Int64.{wrap}
use vela_dns.Backoff.{jitter_doh_backoff}

pub record Breaker : Type 0 where
  pub backoff_step : ℕ
  pub failures : ℕ
  pub retry_at : ℕ
  pub probing : Bool

abbrev pub fresh : Breaker
fresh = record { backoff_step = 0; failures = 0; retry_at = 0; probing = false }

abbrev pub failure_threshold : ℕ
failure_threshold = 2

-- The new state, whether the permit is a probe, and whether it is granted.
unfoldable pub acquire : ℕ → Breaker → Breaker × Bool × Bool
acquire now u =
    if u.backoff_step == 0
    then (u, false, true)
    else if ltb now u.retry_at || u.probing
    then (u, false, false)
    else (record u { probing = true }, true, true)

-- The end of `fail`: the upstream is parked, for the delay of its step.
unfoldable pub park : (ℕ → ℕ) → ℕ → Breaker → Breaker
park rand now u = record u {
  probing = false;
  retry_at = now + jitter_doh_backoff rand u.backoff_step;
}

unfoldable pub fail : (ℕ → ℕ) → ℕ → Bool → Breaker → Breaker
unfolding park
fail rand now probe u =
    let more = record u { failures = wrap (u.failures + 1) } in
    if u.backoff_step == 0
    then (if ltb more.failures failure_threshold
        then more
        else park rand now (record more { backoff_step = 1 }))
    else if probe && u.probing
    then park rand now (record u { backoff_step = wrap (u.backoff_step + 1) })
    else u

unfoldable pub succeed : Breaker → Breaker
succeed u = record u { backoff_step = 0; failures = 0; retry_at = 0; probing = false }
