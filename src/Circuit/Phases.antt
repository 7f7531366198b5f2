-- ===== src/Circuit/Phases.antt =====
-- The circuit as a machine of three phases, and the code as a refinement of it.
use Prim.Native.Nat.{min}
use vela_dns.Base.{
  ℕ, suc, ◌+◌, ◌*◌, ◌^◌, ◌<◌, ◌≡◌, Bool, true, false, arith, ltb, ◌==◌, if◌then◌else◌,
}
use vela_dns.Base.Int64.{two64, slt-nonneg}
use vela_dns.Backoff.{exponential_delay}
use vela_dns.Backoff.Laws.{exponential_delay-min}
use vela_dns.Circuit.{Permit, Circuit, add_duration, acquire, succeed, fail}
use vela_dns.Circuit.Events.{IsConfigured}
use vela_dns.Circuit.Invariant.{IsSound}

-- `closed k` has seen k failures in a row; `open n t` has opened n times in a row and refuses
-- until t; `half_open n` waits for the verdict of one trial query.
pub data Phase : Type 0 where
  closed : ℕ → Phase
  opened : ℕ → ℕ → Phase
  half_open : ℕ → Phase

pub data Grant : Type 0 where
  ordinary trial refused : Grant

-- What the machine is set up with.
pub record Policy : Type 0 where
  pub threshold : ℕ
  pub first : ℕ
  pub maximum : ℕ

abbrev pub policy : Circuit → Policy
policy c = record {
  threshold = c.failure_threshold;
  first = c.initial_backoff;
  maximum = c.max_backoff;
}

abbrev pub phase : Circuit → Phase
phase c =
    if c.backoff_step == 0
    then closed c.consecutive_failures
    else if c.probing
    then half_open c.backoff_step
    else opened c.backoff_step c.retry_at

abbrev pub grant : Permit → Bool → Grant
grant p false = refused
grant p true = if p.probe then trial else ordinary

abbrev pub enter : ℕ → Phase → Phase × Grant
enter now (closed k) = (closed k, ordinary)
enter now (opened n t) = if ltb now t then (opened n t, refused) else (half_open n, trial)
enter now (half_open n) = (half_open n, refused)

-- The n-th time in a row, the machine opens for the jittered value of the n-th delay.
abbrev pub reopen : Policy → (ℕ → ℕ → ℕ) → ℕ → ℕ → Phase
reopen s jitter now n =
    opened (suc n) (add_duration now (jitter (min s.maximum (s.first * 2 ^ n)) s.maximum))

abbrev pub lose : Policy → (ℕ → ℕ → ℕ) → ℕ → Bool → Phase → Phase
lose s jitter now true (closed k) = closed k
lose s jitter now false (closed k) =
    if ltb (suc k) s.threshold then closed (suc k) else reopen s jitter now 0
lose s jitter now true (half_open n) = reopen s jitter now n
lose s jitter now false (half_open n) = half_open n
lose s jitter now probe (opened n t) = opened n t

module _ (c : Circuit) where
  -- `acquire` moves the circuit as the machine moves, and grants what the machine grants.
  pub acquire-enter :
      (now : ℕ)
      → let (c', p, allowed) = acquire now c in (phase c', grant p allowed) ≡ enter now (phase c)
  unfolding acquire
  acquire-enter now = ground arith

  -- `succeed` closes the circuit and forgets the failures, in every phase.
  pub succeed-closed : phase (succeed c) ≡ closed 0
  unfolding succeed
  succeed-closed = ground arith

  next_delay :
      IsConfigured c
      → (n : ℕ)
      → exponential_delay c.initial_backoff c.max_backoff (suc n)
        ≡ min c.max_backoff (c.initial_backoff * 2 ^ n)
  next_delay k n =
      exponential_delay-min c.initial_backoff c.max_backoff n k.initial_pos k.initial_le k.max_small

  -- `fail` moves the circuit as the machine moves, delays included.
  pub fail-lose :
      (jitter : ℕ → ℕ → ℕ) (now : ℕ) (p : Permit)
      → IsConfigured c
      → IsSound c
      → suc c.backoff_step < two64
      → phase (fail jitter now p c) ≡ lose (policy c) jitter now p.probe (phase c)
  unfolding fail
  fail-lose jitter now p k h b = ground (
    arith,
    slt-nonneg (c.consecutive_failures + 1) c.failure_threshold,
    next_delay k 0,
    next_delay k c.backoff_step,
  )
