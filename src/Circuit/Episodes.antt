-- ===== src/Circuit/Episodes.antt =====
-- An open circuit: how long it refuses, whom it lets through, and when it never closes again.
use vela_dns.Base.{
  ℕ, ◌+◌, ◌≤◌, ◌≡◌, ◌≢◌, refl, Bool, true, false, ◌||◌, none, some, List, [], ◌∷◌, arith, leb,
  if◌then◌else◌, All,
}
use vela_dns.Circuit.{Circuit, acquire, fail}
use vela_dns.Circuit.Settings.{Plugin}
use vela_dns.Circuit.Query.{circuit_open, abandoned, Reply, Query, attempts_of, exec}

-- The circuit waits for the verdict of a trial query.
record IsHalfOpen (c : Circuit) : Type 0 where
  opened : c.backoff_step ≢ 0
  probing : c.probing ≡ true

-- How many of the queries that come at these times are let through, when none of them ends.
pub admitted : List ℕ → Circuit → ℕ
admitted [] c = 0
admitted (now ∷ later) c =
    let (c', p, allowed) = acquire now c in (if allowed then 1 else 0) + admitted later c'

abbrev pub any_due : ℕ → List ℕ → Bool
any_due at [] = false
any_due at (now ∷ later) = leb at now || any_due at later

IsHalfOpen-acquire :
    (now : ℕ) (c : Circuit)
    → IsHalfOpen c
    → IsHalfOpen (acquire now c).0 × ((acquire now c).2 ≡ false)
unfolding acquire
IsHalfOpen-acquire now c h = ground arith

admitted-IsHalfOpen : (times : List ℕ) (c : Circuit) → IsHalfOpen c → admitted times c ≡ 0
unfolding admitted
admitted-IsHalfOpen [] c h = refl
admitted-IsHalfOpen (now ∷ later) c h =
    ground (arith, IsHalfOpen-acquire now c h, admitted-IsHalfOpen later (acquire now c).0)

acquire_open :
    (now : ℕ) (c : Circuit)
    → c.backoff_step ≢ 0
    → c.probing ≡ false
    → if leb c.retry_at now
      then ((acquire now c).2 ≡ true) × IsHalfOpen (acquire now c).0
      else ((acquire now c).2 ≡ false)
        × ((acquire now c).0.backoff_step ≢ 0)
        × ((acquire now c).0.probing ≡ false)
        × ((acquire now c).0.retry_at ≡ c.retry_at)
unfolding acquire
acquire_open now c s p = ground arith

-- However many queries come to an open circuit while none of them ends, exactly one is let
-- through if some of them come at or after the retry time, and none otherwise.
pub admitted_once :
    (times : List ℕ) (c : Circuit)
    → c.backoff_step ≢ 0
    → c.probing ≡ false
    → admitted times c ≡ (if any_due c.retry_at times then 1 else 0)
unfolding admitted
admitted_once [] c s p = refl
admitted_once (now ∷ later) c s p = ground (
  arith,
  acquire_open now c s p,
  admitted-IsHalfOpen later (acquire now c).0,
  admitted_once later (acquire now c).0,
)

-- Queries that were let through by a closed circuit fail, each with its jitter and its time.
pub fail_all : List ((ℕ → ℕ → ℕ) × ℕ) → Circuit → Circuit
fail_all [] c = c
fail_all ((jitter, now) ∷ failures) c =
    fail_all failures (fail jitter now (record { probe = false }) c)

-- The replies to queries that come one after another; before each, earlier ones may fail.
pub replies : Plugin → List (List ((ℕ → ℕ → ℕ) × ℕ) × Query) → Circuit → List Reply
replies p [] c = []
replies p ((failures, q) ∷ qs) c =
    let r = exec p q (fail_all failures c) in r ∷ replies p qs r.circuit

abbrev pub IsRefused : Reply → Type 0
IsRefused r = (r.error ≡ some circuit_open) × (r.response ≡ none)

exec-IsHalfOpen :
    (p : Plugin) (q : Query) (c : Circuit)
    → IsHalfOpen c
    → IsRefused (exec p q c) × IsHalfOpen (exec p q c).circuit
unfolding exec
exec-IsHalfOpen p q c h = ground (arith, IsHalfOpen-acquire q.started c h)

fail-IsHalfOpen :
    (jitter : ℕ → ℕ → ℕ) (now : ℕ) (c : Circuit)
    → IsHalfOpen c
    → IsHalfOpen (fail jitter now (record { probe = false }) c)
unfolding fail
fail-IsHalfOpen jitter now c h = ground arith

fail_all-IsHalfOpen :
    (failures : List ((ℕ → ℕ → ℕ) × ℕ)) (c : Circuit)
    → IsHalfOpen c
    → IsHalfOpen (fail_all failures c)
unfolding fail_all
fail_all-IsHalfOpen [] c h = h
fail_all-IsHalfOpen ((jitter, now) ∷ failures) c h =
    fail_all-IsHalfOpen failures (fail jitter now (record { probe = false }) c)
      (fail-IsHalfOpen jitter now c h)

replies-IsHalfOpen :
    (p : Plugin) (qs : List (List ((ℕ → ℕ → ℕ) × ℕ) × Query)) (c : Circuit)
    → IsHalfOpen c
    → All IsRefused (replies p qs c)
unfolding replies
replies-IsHalfOpen p [] c h = tt
replies-IsHalfOpen p ((failures, q) ∷ qs) c h =
    let (refused, still) =
      exec-IsHalfOpen p q (fail_all failures c) (fail_all-IsHalfOpen failures c h) in
    (refused, replies-IsHalfOpen p qs (exec p q (fail_all failures c)).circuit still)

exec_abandoned-IsHalfOpen :
    (p : Plugin) (q : Query) (c : Circuit) (cause : ℕ)
    → c.backoff_step ≢ 0
    → c.probing ≡ false
    → c.retry_at ≤ q.started
    → attempts_of p q ≡ abandoned cause
    → IsHalfOpen (exec p q c).circuit
unfolding exec
exec_abandoned-IsHalfOpen p q c cause s f d e = ground arith

-- When the trial query of an open circuit is abandoned because its context ends, the permit is not
-- given back: of any queries that come after it one by one, at whatever times, every one is refused,
-- also where queries that were let through before the circuit opened fail between them, as long as
-- none of those succeeds.
pub abandoned_probe_blocks :
    (p : Plugin) (q : Query) (c : Circuit) (cause : ℕ) (qs : List (List ((ℕ → ℕ → ℕ) × ℕ) × Query))
    → c.backoff_step ≢ 0
    → c.probing ≡ false
    → c.retry_at ≤ q.started
    → attempts_of p q ≡ abandoned cause
    → All IsRefused (replies p qs (exec p q c).circuit)
abandoned_probe_blocks p q c cause qs s f d e =
    replies-IsHalfOpen p qs (exec p q c).circuit (exec_abandoned-IsHalfOpen p q c cause s f d e)
