-- ===== src/Health/Examples.antt =====
-- A health check after mosdns has crashed once and has been started again.
use vela_dns.Base.{ℕ, ◌+◌, ◌*◌, ◌≡◌, refl, true, false, Option, none, some, List, [], ◌∷◌, arith}
use vela_dns.Backoff.{second, restart_delay}
use vela_dns.Text.{Bytes}
use vela_dns.Wire.{Snapshot}
use vela_dns.Runtime.{RuntimeState, unix_epoch, snapshot, new_runtime_state, update}
use vela_dns.Runtime.Components.{component_of}
use vela_dns.Runtime.Counts.{registered}
use vela_dns.Runtime.Interleaved.{Call, updated, entered, call, calls, changes_of}
use vela_dns.Supervise.{exited, Round, set_up, set_down, set_restart}
use vela_dns.Health.{Plugin, ready, check_supervisor_health}
use vela_dns.Health.Sent.{Tick, send_state_loop, read_loop}
use vela_dns.Health.Fresh.{IsWritable}
use vela_dns.Health.Crashed.{IsIdle, read_loop-supervised}

abbrev middle : ℕ → ℕ
middle n = 0

abbrev crash : Round
crash = record {
  canceled_before = false;
  started_at = 10 * second;
  launch = exited false;
  ended_at = 11 * second;
  canceled_in_delay = false;
}

-- The bridge comes up in between.
abbrev history : List Call
history =
    updated "mosdns" set_up
    ∷ entered (registered "360")
    ∷ updated "mosdns" set_down
    ∷ updated "mosdns" (set_restart (restart_delay middle 1))
    ∷ updated "doh_bridge" set_up
    ∷ updated "mosdns" set_up
    ∷ []

abbrev state : RuntimeState
state = calls history new_runtime_state

abbrev tick : Tick
tick = record {
  at = unix_epoch + 20 * second;
  state = state;
  resolves = true;
  dials = true;
  writes = true;
  read_at = unix_epoch + 20 * second + 3;
  canceled = false;
}

abbrev lost : Tick
lost = record tick { dials = false }

abbrev sent : Snapshot
sent = snapshot (unix_epoch + 20 * second) state

abbrev encode : Snapshot → Option Bytes
encode s = some []

abbrev decode : Bytes → Option Snapshot
decode message = some sent

abbrev nothing_heard : Plugin
nothing_heard = record {
  snapshot = record { timestamp = 0; components = []; upstreams = [] };
  received_at = 0;
}

mosdns-IsIdle : IsIdle (component_of "mosdns" new_runtime_state)
unfolding new_runtime_state vela_dns.Base.Dict.at_or
mosdns-IsIdle = record { enabled = refl; down = refl }

tick-IsWritable : IsWritable encode decode tick
tick-IsWritable = record { dated = omega arith; payload = []; written = refl; read = refl }

lost-IsWritable : IsWritable encode decode lost
lost-IsWritable = record { dated = omega arith; payload = []; written = refl; read = refl }

read_loop-supervised_example :
    check_supervisor_health (
      some (
        ready
          (unix_epoch + 21 * second)
          (read_loop decode (send_state_loop encode (tick ∷ lost ∷ [])) nothing_heard)))
    ≡ none
unfolding new_runtime_state changes_of calls call update vela_dns.Runtime.register
    vela_dns.Runtime.Counts.apply vela_dns.Base.Dict.at_or vela_dns.Base.Dict.store
read_loop-supervised_example =
    read_loop-supervised middle (crash ∷ []) 0 true history new_runtime_state encode decode
      (unix_epoch + 20 * second) (tick ∷ lost ∷ []) nothing_heard tick (unix_epoch + 21 * second)
      mosdns-IsIdle refl refl
      (
        omega arith,
        omega arith,
        refl,
        tick-IsWritable,
        (omega arith, omega arith, refl, lost-IsWritable, tt),
      )
      refl (omega arith) (omega arith) (omega arith)
