-- ===== src/Supervise/Delays.antt =====
-- How long a child that keeps ending has to wait.
use Prim.Native.Nat.{min}
use Prim.Native.String.{String}
use vela_dns.Base.{
  ℕ, suc, ◌+◌, ◌-◌, ◌*◌, ◌^◌, ◌≤◌, ◌<◌, ◌≡◌, refl, sym, ap, ◌∙◌, subst, true, false, ◌⊎◌, inl, inr,
  List, [], ◌∷◌, All, length, arith,
}
use vela_dns.Base.Int64.{two64}
use vela_dns.Backoff.{IsRandom, restart_delay, restart_initial, restart_maximum}
use vela_dns.Backoff.Bounds.{IsNear, restart_delay-IsNear}
use vela_dns.Wire.{Component}
use vela_dns.Runtime.{RuntimeState, update}
use vela_dns.Supervise.{
  stable_runtime, Launch, start_failed, exited, interrupted, Round, set_down, set_up, set_restart,
  next_step, schedule, launched, round, supervise,
}
use vela_dns.Runtime.Components.{component_of, update_self}

-- A launch that ends without the context having ended.
pub data Ends : Launch → Type 0 where
  unstarted : Ends start_failed
  ended : Ends (exited false)

-- A round that comes to its delay and waits it out.
pub record IsRestart (r : Round) : Type 0 where
  pub begun : r.canceled_before ≡ false
  pub ends : Ends r.launch
  pub waited : r.canceled_in_delay ≡ false

-- The child ran for less than five minutes.
pub record IsQuick (r : Round) : Type 0 where
  pub restart : IsRestart r
  pub short : r.ended_at - r.started_at < stable_runtime

abbrev pub IsLong : Round → Type 0
IsLong r = stable_runtime ≤ r.ended_at - r.started_at

quick_step : (r : Round) (step : ℕ) → IsQuick r → suc step < two64 → next_step r step ≡ suc step
quick_step r step q b = let s = q.short in ground arith

first_step : (r : Round) (step : ℕ) → IsLong r ⊎ (step ≡ 0) → next_step r step ≡ 1
first_step r step (inl l) = ground arith
first_step r step (inr z) = ground arith

module _ (rand : ℕ → ℕ) (name : String) where
  -- The state after the delay of a step has been published.
  abbrev waiting : ℕ → RuntimeState → RuntimeState
  waiting step s = update name (set_restart (restart_delay rand step)) s

  round-IsRestart :
      (r : Round) (step : ℕ) (s : RuntimeState)
      → IsRestart r
      → (t : RuntimeState) × (round rand name r step s
          ≡ (next_step r step, waiting (next_step r step) t, true))
  unfolding round launched schedule
  round-IsRestart r step s h = by_launch r.launch h.ends refl
    where
      by_launch :
          (l : Launch)
          → Ends l
          → r.launch ≡ l
          → (t : RuntimeState) × (round rand name r step s
              ≡ (next_step r step, waiting (next_step r step) t, true))
      by_launch start_failed unstarted e = (update name set_down s, rw (h.begun, e, h.waited) refl)
      by_launch (exited true) q e = elim q [ ]
      by_launch interrupted q e = elim q [ ]
      by_launch (exited false) ended e =
          (update name set_down (update name set_up s), rw (h.begun, e, h.waited) refl)

  supervise-IsRestart :
      (r : Round) (rs : List Round) (step : ℕ) (s : RuntimeState)
      → IsRestart r
      → (t : RuntimeState) × (supervise rand name (r ∷ rs) step s
          ≡ supervise rand name rs (next_step r step) (waiting (next_step r step) t))
  unfolding supervise
  supervise-IsRestart r rs step s q = let (t, e) = round-IsRestart r step s q in (t, rw e refl)

  published :
      (step : ℕ) (s : RuntimeState)
      → (component_of name (waiting step s)).backoff ≡ restart_delay rand step
  published step s =
      ap (λ (c : Component). c.backoff) (update_self name (set_restart (restart_delay rand step)) s)

  quick_rounds :
      (rs : List Round) (step : ℕ) (s : RuntimeState)
      → All IsQuick rs
      → step + length rs < two64
      → (component_of name s).backoff ≡ restart_delay rand step
      → (component_of name (supervise rand name rs step s)).backoff
        ≡ restart_delay rand (step + length rs)
  unfolding supervise
  quick_rounds [] step s q b h = h ∙ ap (restart_delay rand) (omega arith)
  quick_rounds (r ∷ rs) step s (q, qs) b h =
      let (t, e) = supervise-IsRestart r rs step s q.restart in
      let next : next_step r step ≡ suc step = quick_step r step q (omega (arith, b)) in
      rw (e, next)
        (quick_rounds rs (suc step) (waiting (suc step) t) qs (omega (arith, b))
            (published (suc step) t)
          ∙ ap (restart_delay rand) (omega arith))

  -- After a round whose child ran for five minutes or more, or in which the step was 0, and n rounds
  -- more whose child ran for less, with n + 1 below 2^64, where each round waits its delay out, the
  -- delay that the child's state shows is within a fifth of min (30 s) (1 s * 2 ^ n) and never above
  -- 30 s, for random numbers below their bound.
  pub supervise-IsNear :
      IsRandom rand
      → (r : Round) (rs : List Round) (step : ℕ) (s : RuntimeState) → IsRestart r
      → IsLong r ⊎ (step ≡ 0)
      → All IsQuick rs
      → suc (length rs) < two64
      → IsNear
          (min restart_maximum (restart_initial * 2 ^ length rs))
          restart_maximum
          (component_of name (supervise rand name (r ∷ rs) step s)).backoff
  supervise-IsNear random r rs step s q first qs b =
      let (t, e) = supervise-IsRestart r rs step s q in
      let one : next_step r step ≡ 1 = first_step r step first in
      let shown : (component_of name (supervise rand name (r ∷ rs) step s)).backoff
          ≡ restart_delay rand (suc (length rs)) =
        rw (e, one)
          (quick_rounds rs 1 (waiting 1 t) qs (omega (arith, b)) (published 1 t)
            ∙ ap (restart_delay rand) (omega arith)) in
      subst (IsNear (min restart_maximum (restart_initial * 2 ^ length rs)) restart_maximum)
        (sym shown) (restart_delay-IsNear random (length rs))
