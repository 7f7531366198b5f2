-- ===== src/Supervise.antt =====
-- superviseChild of cmd/veladns/process.go: the loop that starts a child, waits for its end, and
-- starts it again after a delay. A round is one pass of the loop; what the operating system and the
-- context do in it is an argument, and so are the times. The signals to
-- the child are in Supervise.Shutdown; time that passes while the loop waits and the log lines are
-- left out.
pub mod Laws
pub mod Delays
pub mod Traces
pub mod Shutdown
mod Tests
use Prim.Native.String.{String}
use vela_dns.Base.{ℕ, ◌+◌, ◌-◌, ◌*◌, Bool, true, false, ltb, leb, if◌then◌else◌, List, [], ◌∷◌}
use vela_dns.Base.Int64.{wrap}
use vela_dns.Backoff.{minute, restart_delay}
use vela_dns.Wire.{Component}
use vela_dns.Runtime.{RuntimeState, update}

abbrev pub stable_runtime : ℕ
stable_runtime = 5 * minute

-- How the child goes: it does not start; it ends by itself, and then the context has ended or has
-- not; or the context ends first, and the child is stopped.
pub data Launch : Type 0 where
  start_failed : Launch
  exited : Bool → Launch
  interrupted : Launch

-- What a round meets: whether the context has ended before it, when the child was started and when
-- the round has seen its end, and whether the context ends during the delay.
pub record Round : Type 0 where
  pub canceled_before : Bool
  pub started_at : ℕ
  pub launch : Launch
  pub ended_at : ℕ
  pub canceled_in_delay : Bool

-- The functions that the loop gives to `update`.
abbrev pub set_down : Component → Component
set_down c = record c { up = false }

abbrev pub set_up : Component → Component
set_up c = record c { up = true; backoff = 0 }

abbrev pub set_restart : ℕ → Component → Component
set_restart delay c = record c { up = false; restarts = wrap (c.restarts + 1); backoff = delay }

-- The step of the next delay.
abbrev pub next_step : Round → ℕ → ℕ
next_step r step = wrap ((if leb stable_runtime (r.ended_at - r.started_at) then 0 else step) + 1)

module _ (rand : ℕ → ℕ) (name : String) where
  -- The step, the state, and whether the loop goes on.
  abbrev pub After : Type 0
  After = ℕ × RuntimeState × Bool

  -- The part of the loop behind the child's end.
  unfoldable pub schedule : Round → ℕ → RuntimeState → ℕ × RuntimeState × Bool
  schedule r step s =
      let step' = next_step r step in
      let s' = update name (set_restart (restart_delay rand step')) s in
      if r.canceled_in_delay then (step', s', false) else (step', s', true)

  unfoldable pub launched : Launch → Round → ℕ → RuntimeState → ℕ × RuntimeState × Bool
  unfolding schedule
  launched start_failed r step s = schedule r step (update name set_down s)
  launched (exited true) r step s = (step, update name set_down (update name set_up s), false)
  launched (exited false) r step s = schedule r step (update name set_down (update name set_up s))
  launched interrupted r step s = (step, update name set_down (update name set_up s), false)

  unfoldable pub round : Round → ℕ → RuntimeState → ℕ × RuntimeState × Bool
  unfolding launched
  round r step s = if r.canceled_before then (step, s, false) else launched r.launch r step s

  -- The rounds up to the one in which the loop returns, or as many as are given.
  unfoldable pub supervise : List Round → ℕ → RuntimeState → RuntimeState
  unfolding round
  supervise [] step s = s
  supervise (r ∷ rs) step s =
      let (step', s', more) = round r step s in
      let rest = supervise rs step' s' in if more then rest else s'
