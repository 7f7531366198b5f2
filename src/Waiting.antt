-- ===== src/Waiting.antt =====
-- waitForTCP of cmd/veladns/process.go: the wait for a child to listen. What happens in the passes
-- of the loop is a `World`. Times are nanoseconds.
pub mod Laws
mod Tests
use vela_dns.Base.{
  ℕ, zero, suc, ◌+◌, ◌*◌, Bool, true, false, ltb, if◌then◌else◌, Option, none, some,
}

-- A pass of the loop: what time.Now() reads in its test, whether the dial succeeds, and whether the
-- context ends before the pause of 100 ms.
pub record Pass : Type 0 where
  pub now : ℕ
  pub connects : Bool
  pub canceled : Bool

abbrev pub World : Type 0
World = ℕ → Pass

pub data Outcome : Type 0 where
  connected canceled timed_out : Outcome

-- 100 ms
abbrev pub pause : ℕ
pause = 100_000_000

-- At most so many tests of the loop's condition, from the pass i on.
unfoldable pub wait_from : ℕ → World → ℕ → ℕ → Option Outcome
wait_from zero world deadline i = none
wait_from (suc fuel) world deadline i =
    let rest = wait_from fuel world deadline (suc i) in
    let pass = world i in
    if ltb pass.now deadline
    then (if pass.connects then some connected else if pass.canceled then some canceled else rest)
    else some timed_out

unfoldable pub wait_for_tcp : ℕ → World → ℕ → ℕ → Option Outcome
unfolding wait_from
wait_for_tcp fuel world started timeout = wait_from fuel world (started + timeout) 0
