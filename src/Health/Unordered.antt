-- ===== src/Health/Unordered.antt =====
-- Go ranges over a map in any order: what Collect sends, as a multiset, is a function of the maps as
-- multisets of their entries.
use Prim.Native.Nat.{min}
use Prim.Native.String.{String}
use mathlib.Core.List.{flat_map, Perm, Perm-prop, perm_append_comm}
use mathlib.Core.List.Perm
use mathlib.Core.List.Permᴰ.{Permᴰ, nil, cons, swap, trans}
use mathlib.Core.Logic.{∥∥₁_elim}
use mathlib.Mathlib.Data.Quot.{map}
use mathlib.Mathlib.Data.Multiset.Defs.{Multiset, of_list}
use mathlib.Mathlib.Data.Multiset.AddSub.{add}
use vela_dns.Base.{
  ℕ, ◌+◌, ◌-◌, ◌*◌, ◌≡◌, refl, ap, ◌∙◌, subst, Bool, true, false, ◌==◌, if◌then◌else◌, some, none,
  List, [], ◌∷◌, ◌++◌, append_assoc,
}
use vela_dns.Base.Int64.{two63}
use vela_dns.Base.Dict.{Dict}
use vela_dns.Wire.{Component, Upstream}
use vela_dns.Runtime.{unix_epoch}
use vela_dns.Health.{Plugin}
use vela_dns.Health.Metrics.{
  Kind, counter, gauge, Metric, bool_float, described, remaining_backoff, collect_component,
  collect_components, collect_upstreams, collect,
}

-- Two blocks change places.
swapped : {A : Type 0} (xs ys zs : List A) → Perm (xs ++ (ys ++ zs)) (ys ++ (xs ++ zs))
swapped xs ys zs =
    subst (λ l. Perm (xs ++ (ys ++ zs)) l) (append_assoc ys xs zs)
      (subst (λ l. Perm l ((ys ++ xs) ++ zs)) (append_assoc xs ys zs)
        (Perm.append_right zs (perm_append_comm xs ys)))

flat_map-Permᴰ :
    {A B : Type 0} (f : A → List B) {xs ys : List A}
    → Permᴰ xs ys
    → Perm (flat_map f xs) (flat_map f ys)
unfolding flat_map
flat_map-Permᴰ f nil = Perm.refl []
flat_map-Permᴰ f (cons {a} {b} {l₁} {l₂} same rest) =
    subst (λ c. Perm (f a ++ flat_map f l₁) (f c ++ flat_map f l₂)) same
      (Perm.append_left (f a) (flat_map-Permᴰ f rest))
flat_map-Permᴰ f (swap {a} {b} {a'} {b'} {l} first second) =
    subst (λ c. Perm (f a ++ (f b ++ flat_map f l)) (f c ++ (f b' ++ flat_map f l))) second
      (subst (λ c. Perm (f a ++ (f b ++ flat_map f l)) (f b ++ (f c ++ flat_map f l))) first
        (swapped (f a) (f b) (flat_map f l)))
flat_map-Permᴰ f (trans one two) = Perm.trans (flat_map-Permᴰ f one) (flat_map-Permᴰ f two)

pub flat_map-Perm :
    {A B : Type 0} (f : A → List B) (xs ys : List A)
    → Perm xs ys
    → Perm (flat_map f xs) (flat_map f ys)
flat_map-Perm f xs ys p = ∥∥₁_elim p Perm-prop (flat_map-Permᴰ f)

-- All that the entries of a multiset give.
abbrev pub bind : {A B : Type 0} → (A → List B) → Multiset A → Multiset B
bind f = map (flat_map f) (flat_map-Perm f)

-- A metric by its name, the name and the value of its label, its kind, its number, and what that is
-- divided by.
abbrev pub shown : String → String → String → Kind → ℕ → ℕ → Metric
shown name label of kind number per = record {
  desc = record { name = name; label = some label };
  value = record { kind = kind; number = number; per = per };
  of = some of;
}

abbrev pub component_metrics : String × Component → List Metric
component_metrics (name, c) =
    shown "veladns_component_up" "component" name gauge (if c.up then 1 else 0) 1
    ∷ shown "veladns_component_enabled" "component" name gauge (if c.enabled then 1 else 0) 1
    ∷ shown "veladns_component_restarts_total" "component" name counter c.restarts 1
    ∷ shown "veladns_component_backoff_seconds" "component" name gauge c.backoff 1_000_000_000
    ∷ []

-- What is left of the backoff: of a retry time in Unix milliseconds, in nanoseconds, none if there
-- is no such time, and no more than a time.Duration holds.
abbrev pub backoff_left : Upstream → ℕ → ℕ
backoff_left u now =
    if u.retry_at_unix_milli == 0
    then 0
    else min (unix_epoch + u.retry_at_unix_milli * 1_000_000 - now) (two63 - 1)

abbrev pub upstream_metrics : ℕ → String × Upstream → List Metric
upstream_metrics now (name, u) =
    let of_upstream = λ (metric : String). shown metric "upstream" name in
    of_upstream "veladns_doh_upstream_requests_total" counter u.requests 1
    ∷ of_upstream "veladns_doh_upstream_successes_total" counter u.successes 1
    ∷ of_upstream "veladns_doh_upstream_failures_total" counter u.failures 1
    ∷ of_upstream "veladns_doh_upstream_backoff_skips_total" counter u.backoff_skips 1
    ∷ of_upstream "veladns_doh_upstream_request_duration_seconds_total" counter
        u.duration_microseconds 1_000_000
    ∷ of_upstream "veladns_doh_upstream_backoff_seconds" gauge (backoff_left u now) 1_000_000_000
    ∷ of_upstream "veladns_doh_upstream_last_success_timestamp_seconds" gauge u.last_success_unix 1
    ∷ of_upstream "veladns_doh_upstream_last_failure_timestamp_seconds" gauge u.last_failure_unix 1
    ∷ []

-- The age of the state, none if no state has been received.
abbrev pub age_of : ℕ → ℕ → Metric
age_of now received_at = record {
  desc = record { name = "veladns_supervisor_state_age_seconds"; label = none };
  value = record {
    kind = gauge;
    number = if received_at == 0 then 0 else min (now - received_at) (two63 - 1);
    per = 1_000_000_000;
  };
  of = none;
}

-- The metrics of the maps: four for each component, the age, and eight for each upstream.
abbrev pub metrics_of :
    ℕ → ℕ → Multiset (String × Component) → Multiset (String × Upstream) → Multiset Metric
metrics_of now received_at components upstreams =
    add (add (bind component_metrics components) (of_list (age_of now received_at ∷ [])))
      (bind (upstream_metrics now) upstreams)

bool_float_if : (b : Bool) → bool_float b ≡ (if b then 1 else 0)
bool_float_if true = refl
bool_float_if false = refl

component_all : (c : String × Component) → collect_component c ≡ component_metrics c
component_all (name, c) = rw (bool_float_if c.up, bool_float_if c.enabled) refl

components_all : (cs : Dict Component) → collect_components cs ≡ flat_map component_metrics cs
unfolding collect_components flat_map
components_all [] = refl
components_all (c ∷ cs) =
    ap (λ ms. collect_component c ++ ms) (components_all cs)
    ∙ ap (λ ms. ms ++ flat_map component_metrics cs) (component_all c)

upstreams_all :
    (us : Dict Upstream) (now : ℕ)
    → collect_upstreams us now ≡ some (flat_map (upstream_metrics now) us)
unfolding collect_upstreams flat_map described remaining_backoff
upstreams_all [] now = refl
upstreams_all ((name, u) ∷ us) now = rw (upstreams_all us now) refl

-- Collecting gives a list of metrics: for each component whether it is up and enabled, its restarts
-- and its backoff; the age of the state; and for each upstream its counts of requests, successes,
-- failures and skips, its duration, what is left of its backoff, and its last success and failure,
-- each under its own name. As a multiset the list is a function of the two maps, taken as multisets
-- of their entries, so that it does not depend on the order in which they are gone through.
pub collect-unordered :
    (now : ℕ) (p : Plugin)
    → (ms : List Metric) × (collect now p ≡ some ms)
      × (of_list ms
          ≡ metrics_of now p.received_at
              (of_list p.snapshot.components)
              (of_list p.snapshot.upstreams))
unfolding collect flat_map map
collect-unordered now p =
    let us = p.snapshot.upstreams in
    (
      (flat_map component_metrics p.snapshot.components ++ (age_of now p.received_at ∷ []))
          ++ flat_map (upstream_metrics now) us,
      rw (components_all p.snapshot.components, upstreams_all us now) refl,
      refl,
    )
