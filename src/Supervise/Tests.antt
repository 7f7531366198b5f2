-- ===== src/Supervise/Tests.antt =====
-- The supervision of a child at fixed rounds.
use vela_dns.Base.{ℕ, ◌*◌, ◌<◌, ◌≡◌, refl, Bool, true, false, none, some, List, [], ◌∷◌, arith, inr}
use vela_dns.Base.Dict.{at_or}
use vela_dns.Base.Int64.{two64}
use vela_dns.Backoff.{second}
use vela_dns.Runtime.{new_runtime_state}
use vela_dns.Supervise.{
  Round, exited, start_failed, interrupted, supervise, set_up, set_down, set_restart,
}
use vela_dns.Backoff.Bounds.{IsNear}
use vela_dns.Supervise.Delays.{IsRestart, ended, IsQuick, supervise-IsNear}
use vela_dns.Runtime.Components.{component_of}
use vela_dns.Backoff.{restart_delay}
use vela_dns.Runtime.Counts.{registered}
use vela_dns.Runtime.Interleaved.{Call, updated, entered, calls, changes_of}
use vela_dns.Supervise.Traces.{calls-supervise}
use vela_dns.Supervise.Shutdown.{unix, Child, IsShutDown, stop_all-IsShutDown}
use vela_dns.Supervise.Laws.{IsAccounted, supervise-IsAccounted}

abbrev middle : ℕ → ℕ
middle n = 0

abbrev crash : Round
crash = record {
  canceled_before = false;
  started_at = 10 * second;
  launch = exited false;
  ended_at = 11 * second;
  canceled_in_delay = false;
}

abbrev rounds : List Round
rounds = crash ∷ record crash { launch = start_failed } ∷ record crash { launch = interrupted } ∷ []

mosdns_down : (component_of "mosdns" new_runtime_state).up ≡ false
unfolding new_runtime_state at_or
mosdns_down = refl

mosdns_fresh : (component_of "mosdns" new_runtime_state).restarts < two64
unfolding new_runtime_state at_or
mosdns_fresh = omega arith

supervise-IsAccounted_example :
    IsAccounted middle "mosdns" 2 new_runtime_state
      (supervise middle "mosdns" rounds 0 new_runtime_state)
supervise-IsAccounted_example =
    supervise-IsAccounted middle "mosdns" rounds 0 new_runtime_state mosdns_down mosdns_fresh

crash-IsRestart : IsRestart crash
crash-IsRestart = record { begun = refl; ends = ended; waited = refl }

crash-IsQuick : IsQuick crash
crash-IsQuick = record { restart = crash-IsRestart; short = omega arith }

-- A third end in a row.
supervise-IsNear_example :
    IsNear
      (4 * second)
      (30 * second)
      (component_of "mosdns"
        (supervise middle "mosdns" (crash ∷ crash ∷ crash ∷ []) 0 new_runtime_state)).backoff
supervise-IsNear_example =
    supervise-IsNear middle "mosdns" (λ n h. h) crash (crash ∷ crash ∷ []) 0 new_runtime_state
      crash-IsRestart (inr refl) (crash-IsQuick, (crash-IsQuick, tt)) (omega arith)

abbrev last_crash : Round
last_crash = record crash { canceled_in_delay = true }

-- Another child starts, and an upstream is registered, between the calls for mosdns.
abbrev mixed : List Call
mixed =
    updated "mosdns" set_up
    ∷ entered (registered "360")
    ∷ updated "mosdns" set_down
    ∷ updated "unbound" set_up
    ∷ updated "mosdns" (set_restart (restart_delay middle 1))
    ∷ []

calls-supervise_example :
    component_of "mosdns" (calls mixed new_runtime_state)
    ≡ component_of "mosdns" (supervise middle "mosdns" (last_crash ∷ []) 0 new_runtime_state)
unfolding changes_of
calls-supervise_example =
    calls-supervise middle "mosdns" (last_crash ∷ []) 0 mixed new_runtime_state refl

-- One that ends when it is asked to, and one that has to be killed.
abbrev children : List (Bool × Child)
children =
    (true, record { term_end = some second; kill_end = 1000 })
    ∷ (false, record { term_end = none; kill_end = 2000 })
    ∷ []

stop_all-IsShutDown_example : IsShutDown unix 7 2000 children
stop_all-IsShutDown_example =
    stop_all-IsShutDown unix 7 2000 children (omega arith, (omega arith, tt))
