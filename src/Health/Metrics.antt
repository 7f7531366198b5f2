-- ===== src/Health/Metrics.antt =====
-- The metrics of internal/supervisorplugin/plugin.go: Describe, Collect, dohMetricDescriptions and
-- remainingBackoffSeconds. A value is the number that is converted to a float, over the number that
-- it is divided by after that; the help texts are left out. The order of a Go map is that of the
-- association list.
use Prim.Native.Nat.{min}
use Prim.Native.String.{String}
use vela_dns.Base.{
  ℕ, ◌+◌, ◌-◌, ◌*◌, Bool, true, false, ◌==◌, if◌then◌else◌, Option, none, some, List, [], ◌∷◌, ◌++◌,
}
use vela_dns.Base.Dict.{Dict}
use vela_dns.Base.Int64.{two63}
use vela_dns.Backoff.{second}
use vela_dns.Wire.{Component, Upstream}
use vela_dns.Runtime.{unix_epoch}
use vela_dns.Health.{Plugin}

pub record Desc : Type 0 where
  pub name : String
  pub label : Option String

pub data Kind : Type 0 where
  counter gauge : Kind

pub record Value : Type 0 where
  pub kind : Kind
  pub number : ℕ
  pub per : ℕ

pub record Metric : Type 0 where
  pub desc : Desc
  pub value : Value
  pub of : Option String

abbrev pub count : ℕ → Value
count n = record { kind = counter; number = n; per = 1 }

abbrev pub level : ℕ → Value
level n = record { kind = gauge; number = n; per = 1 }

abbrev pub bool_float : Bool → ℕ
bool_float true = 1
bool_float false = 0

abbrev pub component_desc : String → Desc
component_desc name = record { name = name; label = some "component" }

abbrev pub upstream_desc : String → Desc
upstream_desc name = record { name = name; label = some "upstream" }

abbrev pub age_desc : Desc
age_desc = record { name = "veladns_supervisor_state_age_seconds"; label = none }

abbrev pub doh_metric_descriptions : List Desc
doh_metric_descriptions =
    upstream_desc "veladns_doh_upstream_requests_total"
    ∷ upstream_desc "veladns_doh_upstream_successes_total"
    ∷ upstream_desc "veladns_doh_upstream_failures_total"
    ∷ upstream_desc "veladns_doh_upstream_backoff_skips_total"
    ∷ upstream_desc "veladns_doh_upstream_request_duration_seconds_total"
    ∷ upstream_desc "veladns_doh_upstream_backoff_seconds"
    ∷ upstream_desc "veladns_doh_upstream_last_success_timestamp_seconds"
    ∷ upstream_desc "veladns_doh_upstream_last_failure_timestamp_seconds"
    ∷ []

unfoldable pub describe : List Desc
describe =
    component_desc "veladns_component_up"
    ∷ component_desc "veladns_component_enabled"
    ∷ component_desc "veladns_component_restarts_total"
    ∷ component_desc "veladns_component_backoff_seconds"
    ∷ age_desc
    ∷ doh_metric_descriptions

-- time.Duration stops at its largest value.
abbrev pub span : ℕ → ℕ → ℕ
span a b = min (a - b) (two63 - 1)

-- In nanoseconds.
unfoldable pub remaining_backoff : Upstream → ℕ → ℕ
remaining_backoff u now =
    if u.retry_at_unix_milli == 0
    then 0
    else span (unix_epoch + u.retry_at_unix_milli * 1_000_000) now

abbrev pub collect_component : String × Component → List Metric
collect_component (name, c) =
    record {
      desc = component_desc "veladns_component_up";
      value = level (bool_float c.up);
      of = some name;
    }
    ∷ record {
      desc = component_desc "veladns_component_enabled";
      value = level (bool_float c.enabled);
      of = some name;
    }
    ∷ record {
      desc = component_desc "veladns_component_restarts_total";
      value = count c.restarts;
      of = some name;
    }
    ∷ record {
      desc = component_desc "veladns_component_backoff_seconds";
      value = record { kind = gauge; number = c.backoff; per = second };
      of = some name;
    }
    ∷ []

abbrev pub upstream_values : Upstream → ℕ → List Value
upstream_values u now =
    count u.requests
    ∷ count u.successes
    ∷ count u.failures
    ∷ count u.backoff_skips
    ∷ record { kind = counter; number = u.duration_microseconds; per = 1_000_000 }
    ∷ record { kind = gauge; number = remaining_backoff u now; per = second }
    ∷ level u.last_success_unix
    ∷ level u.last_failure_unix
    ∷ []

-- The loop over the values, each with the description at its index; none where there is none.
unfoldable pub described : String → List Value → List Desc → Option (List Metric)
described name [] descriptions = some []
described name (v ∷ values) [] = none
described name (v ∷ values) (d ∷ descriptions) = elim (described name values descriptions) [
  | some metrics ↦ some (record { desc = d; value = v; of = some name } ∷ metrics)
  | none ↦ none
]

abbrev pub followed_by : Option (List Metric) → Option (List Metric) → Option (List Metric)
followed_by (some ms) (some more) = some (ms ++ more)
followed_by (some ms) none = none
followed_by none more = none

unfoldable pub collect_upstreams : Dict Upstream → ℕ → Option (List Metric)
unfolding described remaining_backoff
collect_upstreams [] now = some []
collect_upstreams ((name, u) ∷ upstreams) now =
    followed_by (described name (upstream_values u now) doh_metric_descriptions)
      (collect_upstreams upstreams now)

unfoldable pub collect_components : Dict Component → List Metric
collect_components [] = []
collect_components (c ∷ components) = collect_component c ++ collect_components components

abbrev pub age_metric : ℕ → Plugin → Metric
age_metric now p = record {
  desc = age_desc;
  value = record {
    kind = gauge;
    number = if p.received_at == 0 then 0 else span now p.received_at;
    per = second;
  };
  of = none;
}

-- The metrics, or none where the index of a description is out of range.
unfoldable pub collect : ℕ → Plugin → Option (List Metric)
unfolding collect_components collect_upstreams
collect now p =
    followed_by (some (collect_components p.snapshot.components ++ (age_metric now p ∷ [])))
      (collect_upstreams p.snapshot.upstreams now)
