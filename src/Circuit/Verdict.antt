-- ===== src/Circuit/Verdict.antt =====
-- What a query gets, and what its attempts do to the circuit.
use vela_dns.Base.{
  ℕ, zero, suc, ◌+◌, ◌≡◌, ◌⊎◌, inl, inr, refl, false, Option, none, some, List, Bool-cases, arith,
}
use vela_dns.Circuit.{Permit, Circuit, acquire}
use vela_dns.Circuit.Settings.{Plugin}
use vela_dns.Circuit.Query.{
  Msg, Failure, Attempt, attempt_once, is_in, Outcome, answered, abandoned, gave_up, judge,
  try_attempts, Reply, Query, attempts_of, exec_with, conclude, canceled, no_response, circuit_open,
}

judge-answered :
    (rcodes : List ℕ) (end : Option ℕ) (a : Option Msg × Option Failure) (rest : Failure → Outcome)
    (m : Msg)
    → judge rcodes end a rest ≡ answered m
    → (is_in m.rcode rcodes ≡ false) ⊎ ((e : Failure) × (rest e ≡ answered m))
judge-answered rcodes end (some x, none) rest m h = inl (ground arith)
judge-answered rcodes none (none, none) rest m h = inr (no_response, h)
judge-answered rcodes (some cause) (none, none) rest m h = cc
judge-answered rcodes none (response, some e) rest m h = inr (e, h)
judge-answered rcodes (some cause) (response, some e) rest m h = cc

try_attempts-answered :
    (rcodes : List ℕ) (world : ℕ → Attempt) (n i : ℕ) (err : Failure) (m : Msg)
    → try_attempts rcodes world n i err ≡ answered m
    → is_in m.rcode rcodes ≡ false
unfolding try_attempts
try_attempts-answered rcodes world zero i err m h = cc
try_attempts-answered rcodes world (suc n) i err m h =
    elim (judge-answered rcodes (world i).context_end (attempt_once (world i).arrival) _ m h) [
      | inl ok ↦ ok
      | inr (e, h') ↦ try_attempts-answered rcodes world n (i + 1) e m h'
    ]

-- What a reply may be: a response with no error and with a response code that is no failure, or
-- an error with no response.
abbrev pub IsConsistent : List ℕ → Reply → Type 0
IsConsistent rcodes r =
    ((m : Msg) × (r.response ≡ some m) × (r.error ≡ none) × (is_in m.rcode rcodes ≡ false))
    ⊎ ((f : Failure) × (r.response ≡ none) × (r.error ≡ some f))

conclude-IsConsistent :
    (rcodes : List ℕ) (q : Query) (permit : Permit) (c : Circuit) (o : Outcome)
    → ((m : Msg) → o ≡ answered m → is_in m.rcode rcodes ≡ false)
    → IsConsistent rcodes (conclude q permit c o)
unfolding conclude
conclude-IsConsistent rcodes q permit c (answered m) h = inl (m, refl, refl, h m refl)
conclude-IsConsistent rcodes q permit c (abandoned cause) h = inr (canceled cause, refl, refl)
conclude-IsConsistent rcodes q permit c (gave_up e) h = inr (e, refl, refl)

-- Every query, whatever others do meanwhile, ends with a usable response or with an error and no
-- response, never with both or neither.
pub exec_with-IsConsistent :
    (p : Plugin) (q : Query) (later : Circuit → Circuit) (c : Circuit)
    → IsConsistent p.failure_rcodes (exec_with p q later c)
unfolding exec_with
exec_with-IsConsistent p q later c = elim (Bool-cases (acquire q.started c).2) [
  | inl granted ↦ rw granted (
      conclude-IsConsistent p.failure_rcodes q _ _ (attempts_of p q)
        (λ m h. try_attempts-answered p.failure_rcodes q.world _ 0 no_response m h))
  | inr refused ↦ rw refused (inr (circuit_open, refl, refl))
]
