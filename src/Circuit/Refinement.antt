-- ===== src/Circuit/Refinement.antt =====
-- The circuit follows the machine of three phases over whole runs.
use vela_dns.Base.{ℕ, suc, ◌+◌, ◌<◌, ◌≡◌, List, [], ◌∷◌, arith, length, refl, ap, ◌∙◌}
use vela_dns.Base.Int64.{two64}
use vela_dns.Circuit.{Circuit, acquire, succeed, fail}
use vela_dns.Circuit.Events.{Event, acquired, succeeded, failed, apply, run, IsConfigured, initial}
use vela_dns.Circuit.Invariant.{
  IsSound, apply-IsConfigured, apply-IsSound, backoff_step-apply, initial-IsSound,
}
use vela_dns.Circuit.Phases.{
  Phase, closed, Policy, policy, phase, enter, lose, acquire-enter, succeed-closed, fail-lose,
}

-- What one call does to the machine.
abbrev pub move : Policy → Event → Phase → Phase
move s (acquired now) f = (enter now f).0
move s succeeded f = closed 0
move s (failed jitter now p) f = lose s jitter now p.probe f

abbrev pub moves : Policy → List Event → Phase → Phase
moves s [] f = f
moves s (e ∷ es) f = moves s es (move s e f)

policy-apply : (e : Event) (c : Circuit) → policy (apply e c) ≡ policy c
unfolding apply acquire succeed fail
policy-apply (acquired now) c = ground arith
policy-apply succeeded c = ground arith
policy-apply (failed jitter now p) c = ground arith

apply-move :
    (e : Event) (c : Circuit)
    → IsConfigured c
    → IsSound c
    → suc c.backoff_step < two64
    → phase (apply e c) ≡ move (policy c) e (phase c)
unfolding apply
apply-move (acquired now) c k h b = ap (λ x. x.0) (acquire-enter c now)
apply-move succeeded c k h b = succeed-closed c
apply-move (failed jitter now p) c k h b = fail-lose c jitter now p k h b

run-moves :
    (es : List Event) (c : Circuit)
    → IsConfigured c
    → IsSound c
    → c.backoff_step + length es < two64
    → phase (run es c) ≡ moves (policy c) es (phase c)
unfolding run
run-moves [] c k h b = refl
run-moves (e ∷ es) c k h b =
    run-moves es (apply e c) (apply-IsConfigured e c k) (apply-IsSound e c k (omega arith) h)
      (omega (arith, backoff_step-apply e c))
    ∙ rw (policy-apply e c, apply-move e c k h (omega arith)) refl

-- Over any fewer than 2^64 calls of any queries in flight, a circuit that starts with settings that
-- are in range is in the phase that the machine of closed, open and half-open phases is in.
pub run-refines :
    (es : List Event) (threshold first maximum : ℕ)
    → IsConfigured (initial threshold first maximum)
    → length es < two64
    → phase (run es (initial threshold first maximum))
      ≡ moves (policy (initial threshold first maximum)) es (closed 0)
unfolding initial
run-refines es threshold first maximum k b =
    run-moves es (initial threshold first maximum) k (initial-IsSound threshold first maximum k)
      (omega arith)
