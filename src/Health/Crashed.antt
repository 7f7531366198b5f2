-- ===== src/Health/Crashed.antt =====
-- From the loop of a child to the health check: what superviseChild of cmd/veladns/process.go writes
-- of mosdns, among the calls of the other goroutines, and what the check of
-- cmd/veladns/healthcheck.go says once such a state has been sent.
use Prim.Native.String.{String}
use vela_dns.Base.{
  ℕ, ◌+◌, ◌≤◌, ◌≡◌, refl, ap, ◌∙◌, Bool, true, false, not, ◌&&◌, ◌||◌, if◌then◌else◌, if-keeps,
  Option, none, some, List, [], ◌∷◌, ◌++◌, arith,
}
use vela_dns.Backoff.{second, restart_delay}
use vela_dns.Text.{Bytes}
use vela_dns.Wire.{Component, Snapshot}
use vela_dns.Runtime.{RuntimeState}
use vela_dns.Runtime.Components.{component_of}
use vela_dns.Runtime.Interleaved.{Call, calls, changes_of, changed_by, component_of-calls}
use vela_dns.Supervise.{
  Launch, start_failed, exited, interrupted, Round, set_up, set_restart, next_step,
}
use vela_dns.Supervise.Traces.{Change, of_launch, trace}
use vela_dns.Health.{Plugin, ready, not_ready, check_supervisor_health}
use vela_dns.Health.Reported.{is_missing}
use vela_dns.Health.Sent.{Tick, send_state_loop, read_loop}
use vela_dns.Health.Fresh.{IsWritable, IsSteady, last_sent, misses, last_time, read_loop-checked}

-- A child that is to run, and does not.
pub record IsIdle (c : Component) : Type 0 where
  pub enabled : c.enabled ≡ true
  pub down : c.up ≡ false

restart-IsIdle :
    (delay : ℕ) (canceled : Bool) (later : List Change) (c : Component)
    → c.enabled ≡ true
    → ((d : Component) → IsIdle d → IsIdle (changed_by later d))
    → IsIdle (changed_by (set_restart delay ∷ (if canceled then [] else later)) c)
restart-IsIdle delay canceled later c e h =
    let waiting : IsIdle (set_restart delay c) = record { enabled = e; down = refl } in
    if-keeps (λ fns. IsIdle (changed_by fns (set_restart delay c))) canceled (λ ended. waiting)
      (λ goes. h (set_restart delay c) waiting)

launch-IsIdle :
    (l : Launch) (after : List Change) (c : Component)
    → c.enabled ≡ true
    → ((d : Component) → d.enabled ≡ true → IsIdle (changed_by after d))
    → IsIdle (changed_by (of_launch l after) c)
launch-IsIdle start_failed after c e h = h _ e
launch-IsIdle (exited true) after c e h = record { enabled = e; down = refl }
launch-IsIdle (exited false) after c e h = h _ e
launch-IsIdle interrupted after c e h = record { enabled = e; down = refl }

trace-IsIdle :
    (rand : ℕ → ℕ) (rs : List Round) (step : ℕ) (c : Component)
    → IsIdle c
    → IsIdle (changed_by (trace rand rs step) c)
trace-IsIdle rand [] step c h = h
trace-IsIdle rand (r ∷ rs) step c h =
    if-keeps (λ fns. IsIdle (changed_by fns c)) r.canceled_before (λ ended. h)
      λ goes. launch-IsIdle r.launch _ c h.enabled λ d e.
        restart-IsIdle (restart_delay rand (next_step r step)) r.canceled_in_delay
          (trace rand rs (next_step r step)) d e
          (λ k i. trace-IsIdle rand rs (next_step r step) k i)

-- The write of a start, where the child runs.
abbrev pub starts : Bool → List Change
starts true = set_up ∷ []
starts false = []

changed_by-append :
    (fns more : List Change) (c : Component)
    → changed_by (fns ++ more) c ≡ changed_by more (changed_by fns c)
changed_by-append [] more c = refl
changed_by-append (fn ∷ fns) more c = changed_by-append fns more (fn c)

idle_missing :
    (runs : Bool) (c : Component)
    → IsIdle c
    → ((changed_by (starts runs) c).enabled && not (changed_by (starts runs) c).up) ≡ not runs
idle_missing true c h = let e = h.enabled in ground arith
idle_missing false c h = rw (h.enabled, h.down) refl

-- A child that its loop has started in the current round, or has not, is missing in the second case.
pub is_missing-calls :
    (rand : ℕ → ℕ) (name : String) (rs : List Round) (step : ℕ) (runs : Bool) (cs : List Call)
    (s : RuntimeState)
    → IsIdle (component_of name s)
    → changes_of name cs ≡ trace rand rs step ++ starts runs
    → is_missing name (calls cs s) ≡ not runs
is_missing-calls rand name rs step runs cs s idle own =
    let c = component_of name s in
    let now : component_of name (calls cs s)
        ≡ changed_by (starts runs) (changed_by (trace rand rs step) c) =
      component_of-calls name cs s
      ∙ ap (λ fns. changed_by fns c) own
      ∙ changed_by-append (trace rand rs step) (starts runs) c in
    ap (λ (k : Component). k.enabled && not k.up) now
    ∙ idle_missing runs _ (trace-IsIdle rand rs step c idle)

-- A state that the supervisor's goroutines have come to from one in which mosdns is enabled and down,
-- by any interleaving of their calls in which those that change mosdns are the writes of any number of
-- whole rounds of its loop and of the next start or not, is sent, and no more than the last four ticks
-- behind it, at most a second apart, are lost. Then the health check at most a second after the last
-- tick passes exactly if mosdns has been started and the bridge, if enabled, is up. The context lasts,
-- the states are taken a second after 1970 or later, json.Unmarshal reads what json.Marshal writes of
-- them, no message is read before it is sent, and the check is not before that last one is read.
pub read_loop-supervised :
    (rand : ℕ → ℕ) (rs : List Round) (step : ℕ) (runs : Bool) (cs : List Call) (s : RuntimeState)
    (encode : Snapshot → Option Bytes) (decode : Bytes → Option Snapshot) (first : ℕ)
    (ts : List Tick) (p : Plugin) (t : Tick) (now : ℕ)
    → IsIdle (component_of "mosdns" s)
    → changes_of "mosdns" cs ≡ trace rand rs step ++ starts runs
    → t.state ≡ calls cs s
    → IsSteady (IsWritable encode decode) first ts
    → last_sent none ts ≡ some t
    → misses 0 ts ≤ 4
    → t.read_at ≤ now
    → now ≤ last_time first ts + second
    → check_supervisor_health (some (ready now (read_loop decode (send_state_loop encode ts) p)))
      ≡ (if not runs || is_missing "doh_bridge" t.state then some not_ready else none)
read_loop-supervised rand rs step runs cs s encode decode first ts p t now idle own same steady last
      few after soon =
    let missing : is_missing "mosdns" t.state ≡ not runs =
      ap (is_missing "mosdns") same ∙ is_missing-calls rand "mosdns" rs step runs cs s idle own in
    read_loop-checked encode decode first ts p t now steady last few after soon
    ∙ ap (λ m. if m || is_missing "doh_bridge" t.state then some not_ready else none) missing
