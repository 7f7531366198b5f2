-- ===== src/Cancel/Queries.antt =====
-- The counters of queries: newCollector and Exec of internal/requestmetricsplugin/collector.go. A
-- query's Exec is two steps, around the rest of the chain, since queries run side by side.
use vela_dns.Base.{
  ℕ, suc, ◌+◌, ◌-◌, ◌≡◌, refl, ap, subst, Bool, if◌then◌else◌, Option, none, some, List, [], ◌∷◌,
  arith,
}
use vela_dns.Text.{Bytes, is_empty}
use vela_dns.Cancel.{Error, expected}

-- The last observation of response_latency is first.
pub record Collector : Type 0 where
  pub query_total : ℕ
  pub err_total : ℕ
  pub canceled_total : ℕ
  pub thread : ℕ
  pub response_latency : List ℕ

abbrev pub fresh : Collector
fresh = record {
  query_total = 0;
  err_total = 0;
  canceled_total = 0;
  thread = 0;
  response_latency = [];
}

-- newCollector; `registers` is whether the registry takes the five metrics.
unfoldable pub new_collector : Bool → Bytes → Option Collector
new_collector registers name =
    if is_empty name then none else if registers then some fresh else none

-- Exec up to ExecNext.
unfoldable pub begin : Collector → Collector
begin c = record c { thread = c.thread + 1; query_total = c.query_total + 1 }

-- The end of an Exec, its deferred call included. A query has a latency, in milliseconds, where it
-- has a response.
pub record Outcome : Type 0 where
  pub error : Option Error
  pub latency : Option ℕ

module _ (lower : Bytes → Bytes) where
  abbrev pub count_error : Option Error → Collector → Collector
  count_error none c = c
  count_error (some e) c =
      if expected lower (some e)
      then record c { canceled_total = c.canceled_total + 1 }
      else record c { err_total = c.err_total + 1 }

  abbrev pub observe_latency : Option ℕ → Collector → Collector
  observe_latency none c = c
  observe_latency (some ms) c = record c { response_latency = ms ∷ c.response_latency }

  unfoldable pub finish : Outcome → Collector → Collector
  finish o c =
      let counted = observe_latency o.latency (count_error o.error c) in
      record counted { thread = counted.thread - 1 }

-- A history of queries that run side by side, by the number that is running after it.
pub data History : ℕ → Type 0 where
  none_yet : History 0
  started : {n : ℕ} → History n → History (suc n)
  ended : {n : ℕ} → Outcome → History (suc n) → History n

-- The outcomes of a history, the last first.
unfoldable pub outcomes : {n : ℕ} → History n → List Outcome
outcomes none_yet = []
outcomes (started h) = outcomes h
outcomes (ended o h) = o ∷ outcomes h

abbrev collect : Option ℕ → List ℕ → List ℕ
collect none more = more
collect (some ms) more = ms ∷ more

pub latencies : List Outcome → List ℕ
latencies [] = []
latencies (o ∷ more) = collect o.latency (latencies more)

module _ (lower : Bytes → Bytes) where
  unfoldable pub after : {n : ℕ} → Collector → History n → Collector
  unfolding begin finish
  after c none_yet = c
  after c (started h) = begin (after c h)
  after c (ended o h) = finish lower o (after c h)

  abbrev is_success : Option Error → ℕ
  is_success none = 1
  is_success (some e) = 0

  abbrev is_canceled : Option Error → ℕ
  is_canceled none = 0
  is_canceled (some e) = if expected lower (some e) then 1 else 0

  pub successes : List Outcome → ℕ
  successes [] = 0
  successes (o ∷ more) = is_success o.error + successes more

  pub cancellations : List Outcome → ℕ
  cancellations [] = 0
  cancellations (o ∷ more) = is_canceled o.error + cancellations more

  -- What the metrics say of the outcomes and of the number of queries that are running.
  pub record IsCounted (n : ℕ) (os : List Outcome) (c : Collector) : Type 0 where
    pub running : c.thread ≡ n
    pub canceled : c.canceled_total ≡ cancellations os
    pub total : c.query_total ≡ n + (successes os + c.canceled_total + c.err_total)
    pub observed : c.response_latency ≡ latencies os

  start_running :
      (n : ℕ) (os : List Outcome) (c : Collector)
      → IsCounted n os c
      → IsCounted (suc n) os (begin c)
  unfolding begin
  start_running n os c h =
      let r = h.running in
      let t = h.total in
      record {
        running = omega arith;
        canceled = h.canceled;
        total = omega arith;
        observed = h.observed;
      }

  observed_more :
      (ms : Option ℕ) (n : ℕ) (e : Option Error) (os : List Outcome) (c : Collector)
      → IsCounted n (record { error = e; latency = none } ∷ os) c
      → IsCounted n (record { error = e; latency = ms } ∷ os) (observe_latency lower ms c)
  unfolding successes cancellations latencies
  observed_more none n e os c h = h
  observed_more (some ms) n e os c h = record {
    running = h.running;
    canceled = h.canceled;
    total = h.total;
    observed = ap (λ more. ms ∷ more) h.observed;
  }

  count_error-IsCounted :
      (e : Option Error) (n : ℕ) (os : List Outcome) (c : Collector)
      → IsCounted (suc n) os c
      → IsCounted n
          (record { error = e; latency = none } ∷ os)
          (record (count_error lower e c) { thread = (count_error lower e c).thread - 1 })
  unfolding successes cancellations latencies
  count_error-IsCounted none n os c h =
      let r = h.running in
      let t = h.total in
      let k = h.canceled in
      record {
        running = omega arith;
        canceled = omega arith;
        total = omega arith;
        observed = h.observed;
      }
  count_error-IsCounted (some e) n os c h =
      let r = h.running in
      let t = h.total in
      let k = h.canceled in
      record {
        running = grind arith;
        canceled = grind arith;
        total = grind arith;
        observed = grind arith;
      }

  finish-IsCounted :
      (ms : Option ℕ) (e : Option Error) (n : ℕ) (os : List Outcome) (c : Collector)
      → IsCounted (suc n) os c
      → IsCounted n
          (record { error = e; latency = ms } ∷ os)
          (finish lower (record { error = e; latency = ms }) c)
  unfolding finish
  finish-IsCounted none e n os c h = count_error-IsCounted e n os c h
  finish-IsCounted (some ms) e n os c h =
      observed_more (some ms) n e os _ (count_error-IsCounted e n os c h)

  created :
      (registers : Bool) (name : Bytes) (c : Collector)
      → new_collector registers name ≡ some c
      → fresh ≡ c
  unfolding new_collector
  created registers name c made = ground arith

  -- For queries that a collector counts from its creation on, in any interleaving of their starts
  -- and ends: the gauge `thread` is the number that is running, `canceled_total` the number that
  -- ended with an expected cancellation, `query_total` the sum of those that are running, of those
  -- that ended without an error and of the two counters of errors, and the latencies are those of
  -- the queries that ended with a response.
  pub after-IsCounted :
      (registers : Bool) (name : Bytes) (c : Collector)
      → new_collector registers name ≡ some c
      → {n : ℕ} (h : History n) → IsCounted n (outcomes h) (after c h)
  unfolding after outcomes successes cancellations latencies
  after-IsCounted registers name c made none_yet =
      subst (IsCounted 0 []) (created registers name c made)
        (record { running = refl; canceled = refl; total = omega arith; observed = refl })
  after-IsCounted registers name c made (started h) =
      start_running _ _ _ (after-IsCounted registers name c made h)
  after-IsCounted registers name c made (ended o h) =
      finish-IsCounted o.latency o.error _ _ _ (after-IsCounted registers name c made h)
