-- ===== src/Circuit/Retry.antt =====
-- A lost attempt is repeated, and only a query that loses all its attempts counts as a failure.
use native.Mathlib.Nat.{add-zero, zero-add, suc-add}
use vela_dns.Base.{
  subst, sym, ◌-◌, ℕ, zero, suc, ◌+◌, ◌<◌, ◌≡◌, ◌≢◌, refl, true, false, ◌∙◌, ap, Option, none, some,
  List, arith, if◌then◌else◌, Bool-cases, inl, inr,
}
use vela_dns.Base.Int64.{wrap, slt, sle}
use vela_dns.Circuit.{Permit, Circuit, acquire, succeed, fail, open_until}
use vela_dns.Circuit.Settings.{Plugin}
use vela_dns.Circuit.Query.{
  Msg, Failure, result, Attempt, attempt_once, is_in, Outcome, answered, gave_up, bad_rcode,
  no_response, judge, try_attempts, Reply, Query, attempts_of, conclude, exec,
}

-- The attempt brings no response, or one with an error, and the query is not over yet.
pub record IsLost (a : Attempt) : Type 0 where
  pub goes_on : a.context_end ≡ none
  pub unanswered : (m : Msg) → attempt_once a.arrival ≢ (some m, none)

-- The error of a lost attempt.
abbrev pub loss : Option Failure → Failure
loss none = no_response
loss (some e) = e

judge-lost :
    (rcodes : List ℕ) (end : Option ℕ) (a : Option Msg × Option Failure) (rest : Failure → Outcome)
    → end ≡ none
    → ((m : Msg) → a ≢ (some m, none))
    → judge rcodes end a rest ≡ rest (loss a.1)
judge-lost rcodes end (some m, none) rest e h = absurd (h m refl)
judge-lost rcodes end (none, none) rest e h = rw e
judge-lost rcodes end (response, some x) rest e h = rw e

shift : (i j : ℕ) → i + suc j ≡ i + 1 + j
shift i j = omega arith

module _ (rcodes : List ℕ) (world : ℕ → Attempt) where
  try_attempts-suc :
      (n i : ℕ) (err : Failure)
      → try_attempts rcodes world (suc n) i err
        ≡ judge rcodes
            (world i).context_end
            (attempt_once (world i).arrival)
            (try_attempts rcodes world n (i + 1))
  unfolding try_attempts
  try_attempts-suc n i err = refl

  -- After k lost attempts the loop stands at attempt k with the rounds that are left.
  try_attempts_after :
      (k n i : ℕ) (err : Failure)
      → ((j : ℕ) → j < k → IsLost (world (i + j)))
      → (err' : Failure) × (try_attempts rcodes world (k + n) i err
          ≡ try_attempts rcodes world n (i + k) err')
  try_attempts_after zero n i err h = (err, rw (zero-add, add-zero))
  try_attempts_after (suc k) n i err h =
      let first : IsLost (world i) =
        subst (λ t. IsLost (world t)) (add-zero i) (h 0 (omega arith)) in
      let (err', e) =
        try_attempts_after k n (i + 1) (loss (attempt_once (world i).arrival).1)
          (λ j l. subst (λ t. IsLost (world t)) (shift i j) (h (suc j) (omega arith))) in
      (
        err',
        rw
            (
              suc-add k n,
              shift i k,
              try_attempts-suc (k + n) i err,
              judge-lost rcodes _ _ _ first.goes_on first.unanswered,
            )
            e,
      )

-- The rounds that the source runs: an attempts setting of zero or less means one.
abbrev pub rounds : Plugin → ℕ
rounds p = if sle p.attempts 0 then 1 else p.attempts

acquire_closed :
    (now : ℕ) (c : Circuit)
    → c.backoff_step ≡ 0
    → acquire now c ≡ (c, record { probe = false }, true)
unfolding acquire
acquire_closed now c z = ground arith

exec_closed :
    (p : Plugin) (q : Query) (c : Circuit)
    → c.backoff_step ≡ 0
    → exec p q c ≡ conclude q (record { probe = false }) c (attempts_of p q)
unfolding exec
exec_closed p q c z = rw (acquire_closed q.started c z) refl

module _ (p : Plugin) (q : Query) where
  -- The attempts of a query, from attempt k on, where those before are lost.
  attempts_of_after :
      (k n : ℕ)
      → k + n ≡ rounds p
      → ((j : ℕ) → j < k → IsLost (q.world j))
      → (err : Failure) × (attempts_of p q ≡ try_attempts p.failure_rcodes q.world n k err)
  unfolding attempts_of
  attempts_of_after k n e h =
      let (err, e') =
        try_attempts_after p.failure_rcodes q.world k n 0 no_response
          (λ j l. subst (λ t. IsLost (q.world t)) (sym (zero-add j)) (h j l)) in
      (err, rw (← e) (e' ∙ rw zero-add))

-- The reply is this message, and the circuit has no failure and no backoff any more.
pub record IsAnswered (c : Circuit) (m : Msg) (r : Reply) : Type 0 where
  pub response : r.response ≡ some m
  pub error : r.error ≡ none
  pub circuit : r.circuit ≡ record c {
    consecutive_failures = 0;
    backoff_step = 0;
    retry_at = 0;
    probing = false;
    state_gauge = 0;
    backoff_gauge = 0;
  }

-- The reply is this error, and the closed circuit has counted one failure, in all and in a row; it
-- opens if that is no longer below the threshold.
pub record IsFailure (c : Circuit) (e : Failure) (r : Reply) : Type 0 where
  pub response : r.response ≡ none
  pub error : r.error ≡ some e
  pub counted : r.circuit.failure_counter ≡ c.failure_counter + 1
  pub in_row : r.circuit.consecutive_failures ≡ wrap (c.consecutive_failures + 1)
  pub stays :
      r.circuit.backoff_step
      ≡ (if slt (wrap (c.consecutive_failures + 1)) c.failure_threshold then 0 else 1)

conclude-IsAnswered :
    (q : Query) (permit : Permit) (c : Circuit) (m : Msg)
    → IsAnswered c m (conclude q permit c (answered m))
unfolding conclude succeed
conclude-IsAnswered q permit c m = record { response = refl; error = refl; circuit = refl }

conclude-IsFailure :
    (q : Query) (c : Circuit) (e : Failure)
    → c.backoff_step ≡ 0
    → IsFailure c e (conclude q (record { probe = false }) c (gave_up e))
unfolding conclude fail open_until
conclude-IsFailure q c e z = record {
  response = refl;
  error = refl;
  counted = ground arith;
  in_row = ground arith;
  stays = ground arith;
}

-- How a message decides a query.
abbrev pub IsDecided : Plugin → Circuit → Msg → Reply → Type 0
IsDecided p c m r =
    if is_in m.rcode p.failure_rcodes then IsFailure c (bad_rcode m.rcode) r else IsAnswered c m r

conclude-IsDecided :
    (p : Plugin) (q : Query) (c : Circuit) (m : Msg)
    → c.backoff_step ≡ 0
    → IsDecided p c m (
        conclude q
          (record { probe = false })
          c
          (if is_in m.rcode p.failure_rcodes then gave_up (bad_rcode m.rcode) else answered m))
conclude-IsDecided p q c m z = elim (Bool-cases (is_in m.rcode p.failure_rcodes)) [
  | inl bad ↦ rw bad (conclude-IsFailure q c (bad_rcode m.rcode) z)
  | inr good ↦ rw good (conclude-IsAnswered q (record { probe = false }) c m)
]

-- A query on a closed circuit, with no other in flight, whose first k attempts are lost, k below the
-- number of attempts, and whose next attempt brings a message, is decided by that message. A response
-- code that is not among the failing ones is the reply, without an error, and leaves the
-- circuit closed with no failure in a row; a failing code is the error, without a response, and counts one
-- failure, in all and in a row, which opens the circuit unless it is below the threshold.
pub exec-retried :
    (p : Plugin) (q : Query) (c : Circuit) (k : ℕ) (m : Msg)
    → c.backoff_step ≡ 0
    → k < rounds p
    → ((j : ℕ) → j < k → IsLost (q.world j))
    → (q.world k).arrival ≡ result none (some m)
    → IsDecided p c m (exec p q c)
unfolding attempt_once
exec-retried p q c k m z l h a =
    let left : ℕ = rounds p - k - 1 in
    let (err, e) = attempts_of_after p q k (suc left) (omega arith) h in
    subst (IsDecided p c m)
      (sym (
        exec_closed p q c z
        ∙ ap (conclude q (record { probe = false }) c)
            (e ∙ rw (try_attempts-suc p.failure_rcodes q.world left k err, a))))
      (conclude-IsDecided p q c m z)

-- A query on a closed circuit with no other in flight that loses every attempt ends with an error,
-- and counts as one failure.
pub exec-lost :
    (p : Plugin) (q : Query) (c : Circuit)
    → c.backoff_step ≡ 0
    → ((j : ℕ) → j < rounds p → IsLost (q.world j))
    → (f : Failure) × IsFailure c f (exec p q c)
unfolding try_attempts
exec-lost p q c z h =
    let (err, e) = attempts_of_after p q (rounds p) 0 (omega arith) h in
    (
      err,
      subst (IsFailure c err)
          (sym (exec_closed p q c z ∙ ap (conclude q (record { probe = false }) c) e))
          (conclude-IsFailure q c err z),
    )
