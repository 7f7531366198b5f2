-- ===== src/Circuit/Query.antt =====
-- Exec and attemptOnce of internal/circuitplugin/circuit.go. The primary plugin, the timer and the
-- context of the query are not the program's: `Arrival` says which case of the select in attemptOnce
-- is taken and with what, and `Attempt` adds what ctx.Err() says after it. The messages are those of
-- the DNS library, known here by their response code alone, and `Cause` is any error.
use vela_dns.Base.{
  ℕ, zero, suc, ◌+◌, Bool, false, ◌||◌, ◌==◌, if◌then◌else◌, Option, none, some, List, [], ◌∷◌,
}
use vela_dns.Base.Int64.{sle}
use vela_dns.Circuit.{Permit, Circuit, acquire, succeed, fail}
use vela_dns.Circuit.Settings.{Plugin}

pub record Msg : Type 0 where
  pub rcode : ℕ

-- The errors that Exec returns; a number stands for an error of the primary plugin, or for the
-- cause of the context's end.
pub data Failure : Type 0 where
  circuit_open no_response attempt_timeout : Failure
  upstream : ℕ → Failure
  bad_rcode : ℕ → Failure
  canceled : ℕ → Failure

pub data Arrival : Type 0 where
  result : Option ℕ → Option Msg → Arrival
  timer : Arrival
  done : ℕ → Arrival

pub record Attempt : Type 0 where
  pub arrival : Arrival
  pub context_end : Option ℕ

unfoldable pub attempt_once : Arrival → Option Msg × Option Failure
attempt_once (result none response) = (response, none)
attempt_once (result (some e) response) = (response, some (upstream e))
attempt_once timer = (none, some attempt_timeout)
attempt_once (done cause) = (none, some (canceled cause))

abbrev pub is_in : ℕ → List ℕ → Bool
is_in x [] = false
is_in x (y ∷ ys) = x == y || is_in x ys

-- How the loop over the attempts ends: with a response, with the query's end, or with an error
-- that counts against the circuit.
pub data Outcome : Type 0 where
  answered : Msg → Outcome
  abandoned : ℕ → Outcome
  gave_up : Failure → Outcome

-- One round without a usable response; `rest` goes on with the error so far.
abbrev pub lost : Option ℕ → Option Failure → (Failure → Outcome) → Outcome
lost (some cause) e rest = abandoned cause
lost none (some e) rest = rest e
lost none none rest = rest no_response

abbrev pub judge : List ℕ → Option ℕ → Option Msg × Option Failure → (Failure → Outcome) → Outcome
judge rcodes end (some m, none) rest =
    if is_in m.rcode rcodes then gave_up (bad_rcode m.rcode) else answered m
judge rcodes end (none, none) rest = lost end none rest
judge rcodes end (response, some e) rest = lost end (some e) rest

-- The rounds that are left, the number of the next one, and the error of the last.
unfoldable pub try_attempts : List ℕ → (ℕ → Attempt) → ℕ → ℕ → Failure → Outcome
unfolding attempt_once
try_attempts rcodes world zero i err = gave_up err
try_attempts rcodes world (suc n) i err =
    judge rcodes (world i).context_end (attempt_once (world i).arrival)
      (try_attempts rcodes world n (i + 1))

pub record Reply : Type 0 where
  pub circuit : Circuit
  pub response : Option Msg
  pub error : Option Failure

-- One query: when it comes and when it ends, the jitter of that call, and its attempts.
pub record Query : Type 0 where
  pub started : ℕ
  pub finished : ℕ
  pub jitter : ℕ → ℕ → ℕ
  pub world : ℕ → Attempt

-- The number of rounds is at least one, so that the error before the first is never returned.
unfoldable pub attempts_of : Plugin → Query → Outcome
unfolding try_attempts
attempts_of p q =
    try_attempts p.failure_rcodes q.world (if sle p.attempts 0 then 1 else p.attempts) 0 no_response

-- What Exec does once its attempts are over, on the circuit as it is then.
unfoldable pub conclude : Query → Permit → Circuit → Outcome → Reply
unfolding succeed fail
conclude q permit c (answered m) = record { circuit = succeed c; response = some m; error = none }
conclude q permit c (abandoned cause) = record {
  circuit = c;
  response = none;
  error = some (canceled cause);
}
conclude q permit c (gave_up e) = record {
  circuit = fail q.jitter q.finished permit c;
  response = none;
  error = some e;
}

-- Exec. Between its start and its end other queries may change the circuit: `later` is what they
-- make of it.
unfoldable pub exec_with : Plugin → Query → (Circuit → Circuit) → Circuit → Reply
unfolding attempts_of acquire conclude
exec_with p q later c =
    let (c', permit, allowed) = acquire q.started c in
    if allowed
    then conclude q permit (later c') (attempts_of p q)
    else record { circuit = c'; response = none; error = some circuit_open }

-- A query with no other in flight.
unfoldable pub exec : Plugin → Query → Circuit → Reply
unfolding exec_with
exec p q c = exec_with p q (λ c'. c') c
