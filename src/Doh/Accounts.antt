-- ===== src/Doh/Accounts.antt =====
-- What one exchange returns, and what it leaves behind.
use text.Mathlib.TextPositions.{eq_refl}
use vela_dns.Base.{
  ℕ, ◌-◌, ◌≡◌, ◌≢◌, refl, Bool, true, false, inl, inr, Bool-cases, arith, length, if◌then◌else◌, ap,
  ◌∙◌,
}
use vela_dns.Backoff.{IsRandom}
use vela_dns.Runtime.{Observation, success, failure, backoff_skip, observed}
use vela_dns.Runtime.Counts.{upstream_of, upstream_of-observe}
use vela_dns.Doh.{Breaker, fresh, acquire, fail, succeed}
use vela_dns.Doh.Laws.{ParksFor, fail-ParksFor_first}
use vela_dns.Doh.Exchange.{
  Msg, Error, in_backoff, Result, ok, err, Transport, exchange_once, Upstream, record_result,
  settle, exchange,
}

-- An answer that is accepted is a response, has as many questions as the query, and carries the
-- id of the query, whatever the server sent.
pub exchange_once-ok :
    (t : Transport) (query : Msg) {answer : Msg}
    → exchange_once t query ≡ ok answer
    → (answer.id ≡ query.id)
      × (answer.is_response ≡ true)
      × (length answer.questions ≡ length query.questions)
unfolding exchange_once
exchange_once-ok t query h = ground arith

exchange_once-ne-in_backoff : (t : Transport) (query : Msg) → exchange_once t query ≢ err in_backoff
unfolding exchange_once
exchange_once-ne-in_backoff t query h = ground arith

-- How the source counts a result.
abbrev pub outcome : Result Msg → Observation
outcome (ok answer) = success
outcome (err in_backoff) = backoff_skip
outcome (err _) = failure

record_result-observed :
    (r : Observation) (duration now : ℕ) (u : Upstream)
    → u.observing ≡ true
    → upstream_of u.tag (record_result r duration now u).state
      ≡ observed r duration u.breaker.retry_at now (upstream_of u.tag u.state)
unfolding record_result
record_result-observed r duration now u o =
    rw (o, upstream_of-observe u.tag u.tag r duration u.breaker.retry_at now u.state, eq_refl u.tag)

record_result-breaker :
    (r : Observation) (duration now : ℕ) (u : Upstream)
    → (record_result r duration now u).breaker ≡ u.breaker
unfolding record_result
record_result-breaker r duration now u = ground arith

settle-observed :
    (rand : ℕ → ℕ) (started now : ℕ) (probe : Bool) (r : Result Msg) (u : Upstream)
    → u.observing ≡ true
    → r ≢ err in_backoff
    → let (u', r') = settle rand started now probe r u in
      upstream_of u.tag u'.state
      ≡ observed (outcome r') (now - started) u'.breaker.retry_at now (upstream_of u.tag u.state)
unfolding settle
settle-observed rand started now probe (ok answer) u o h =
    rw (record_result-breaker success (now - started) now _)
      (record_result-observed success (now - started) now _ o)
settle-observed rand started now probe (err in_backoff) u o h = absurd (h refl)
settle-observed rand started now probe (err e) u o h =
    rw (record_result-breaker failure (now - started) now _)
      (record_result-observed failure (now - started) now _ o)

settle-breaker :
    (rand : ℕ → ℕ) (started now : ℕ) (probe : Bool) (r : Result Msg) (u : Upstream)
    → (settle rand started now probe r u).0.breaker
      ≡ elim r [ ok a ↦ succeed u.breaker | err e ↦ fail rand now probe u.breaker ]
unfolding settle
settle-breaker rand started now probe (ok answer) u = record_result-breaker _ _ _ _
settle-breaker rand started now probe (err e) u = record_result-breaker _ _ _ _

module _ (rand : ℕ → ℕ) (t : Transport) (started now : ℕ) (query : Msg) (u : Upstream) where
  abbrev entered : Upstream
  entered = record u { breaker = (acquire started u.breaker).0 }

  exchange_granted :
      (acquire started u.breaker).2 ≡ true
      → exchange rand t started now query u
        ≡ settle rand started now (acquire started u.breaker).1 (exchange_once t query) entered
  unfolding exchange
  exchange_granted h = rw h refl

  exchange_refused :
      (acquire started u.breaker).2 ≡ false
      → exchange rand t started now query u
        ≡ (record_result backoff_skip (now - started) now entered, err in_backoff)
  unfolding exchange
  exchange_refused h = rw h refl

  -- If the upstream is observed, an exchange with no other in flight is counted once in the numbers of its upstream, as what its result is: a success
  -- for an answer, a skip for a refusal in backoff, and a failure for any other error. The retry
  -- time that is published is the one that the backoff then holds.
  pub exchange-observed :
      u.observing ≡ true
      → let (u', r) = exchange rand t started now query u in
        upstream_of u.tag u'.state
        ≡ observed (outcome r) (now - started) u'.breaker.retry_at now (upstream_of u.tag u.state)
  exchange-observed o = elim (Bool-cases (acquire started u.breaker).2) [
    | inl granted ↦ rw (exchange_granted granted) (
        settle-observed rand started now (acquire started u.breaker).1 (exchange_once t query)
          entered o (exchange_once-ne-in_backoff t query))
    | inr refused ↦
        rw
          (exchange_refused refused, record_result-breaker backoff_skip (now - started) now entered)
          (record_result-observed backoff_skip (now - started) now entered o)
  ]

  exchange-breaker : (exchange rand t started now query u).0.breaker ≡ (
      if (acquire started u.breaker).2
      then elim (exchange_once t query) [
        | ok a ↦ succeed (acquire started u.breaker).0
        | err e ↦ fail rand now (acquire started u.breaker).1 (acquire started u.breaker).0
      ]
      else (acquire started u.breaker).0)
  exchange-breaker = elim (Bool-cases (acquire started u.breaker).2) [
    | inl granted ↦
        rw (exchange_granted granted, granted)
          (settle-breaker rand started now (acquire started u.breaker).1 (exchange_once t query)
            entered)
    | inr refused ↦
        rw (exchange_refused refused, refused)
          (record_result-breaker backoff_skip (now - started) now entered)
  ]

  -- An exchange that begins while no probe is out, and with no other in flight, ends with no probe
  -- out, whatever comes of it.
  pub exchange-not_probing :
      u.breaker.probing ≡ false → (exchange rand t started now query u).0.breaker.probing ≡ false
  unfolding acquire fail succeed
  exchange-not_probing p = rw exchange-breaker (ground arith)

pub acquire_in_use : (now : ℕ) (u : Breaker) → u.backoff_step ≡ 0 → acquire now u ≡ (u, false, true)
unfolding acquire
acquire_in_use now u s = ground arith

-- A failed exchange of an upstream that is in use.
exchange-fail :
    (rand : ℕ → ℕ) (t : Transport) (started now : ℕ) (query : Msg) (u : Upstream) {e : Error}
    → u.breaker.backoff_step ≡ 0
    → exchange_once t query ≡ err e
    → (exchange rand t started now query u).0.breaker ≡ fail rand now false u.breaker
exchange-fail rand t started now query u s f =
    rw (exchange-breaker rand t started now query u, f, acquire_in_use started u.breaker s) refl

fail_once :
    (rand : ℕ → ℕ) (now : ℕ)
    → ((fail rand now false fresh).backoff_step ≡ 0) × ((fail rand now false fresh).failures ≡ 1)
unfolding fail
fail_once rand now = (refl, refl)

-- Two exchanges in a row that fail, with no other in flight, park a new upstream for about a second
-- from the end of the second, if random numbers are below their bound.
pub failures_park :
    {rand : ℕ → ℕ} (random : IsRandom rand) (t₁ t₂ : Transport) (q₁ q₂ : Msg)
    (started₁ now₁ started₂ now₂ : ℕ) {e₁ e₂ : Error} (u : Upstream)
    → u.breaker ≡ fresh
    → exchange_once t₁ q₁ ≡ err e₁
    → exchange_once t₂ q₂ ≡ err e₂
    → let u₁ = (exchange rand t₁ started₁ now₁ q₁ u).0 in
      let u₂ = (exchange rand t₂ started₂ now₂ q₂ u₁).0 in ParksFor now₂ 0 u₂.breaker
failures_park {rand} random t₁ t₂ q₁ q₂ started₁ now₁ started₂ now₂ u f a b =
    let u₁ : Upstream = (exchange rand t₁ started₁ now₁ q₁ u).0 in
    let once : u₁.breaker ≡ fail rand now₁ false fresh =
      exchange-fail rand t₁ started₁ now₁ q₁ u (ap (λ b. b.backoff_step) f) a
      ∙ ap (fail rand now₁ false) f in
    let (in_use, one) = fail_once rand now₁ in
    rw (exchange-fail rand t₂ started₂ now₂ q₂ u₁ (ap (λ b. b.backoff_step) once ∙ in_use) b) (
      fail-ParksFor_first random now₂ false u₁.breaker (ap (λ b. b.backoff_step) once ∙ in_use)
        (ap (λ b. b.failures) once ∙ one))
