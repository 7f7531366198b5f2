-- ===== src/Runtime.antt =====
-- The state that the supervisor process keeps of its parts: runtimeState of cmd/veladns/state.go.
-- Each method holds the mutex, so that it is one step. A time is a count of nanoseconds after the
-- zero time.Time, and a clock that is read is at or after 1970. Health.Sent sends the snapshot.
pub mod Counts
pub mod Components
pub mod Interleaved
use Prim.Native.String.{String}
use vela_dns.Base.{ℕ, ◌+◌, ◌-◌, ◌/◌, List, [], ◌∷◌, true, ltb, ◌==◌, if◌then◌else◌}
use vela_dns.Base.Dict.{Dict, find, store, at_or, has_key}
use vela_dns.Base.Int64.{two63, wrap, slt}
use vela_dns.Wire.{Component, Upstream, zero_component, zero_upstream, Snapshot}

pub record RuntimeState : Type 0 where
  pub components : Dict Component
  pub upstreams : Dict Upstream

-- 1970-01-01 after the zero time, in nanoseconds
abbrev pub unix_epoch : ℕ
unix_epoch = 62_135_596_800_000_000_000

abbrev pub unix : ℕ → ℕ
unix t = (t - unix_epoch) / 1_000_000_000

abbrev pub unix_milli : ℕ → ℕ
unix_milli t = (t - unix_epoch) / 1_000_000

abbrev enabled_component : Component
enabled_component = record zero_component { enabled = true }

unfoldable pub new_runtime_state : RuntimeState
new_runtime_state = record {
  components =
      ("doh_bridge", enabled_component)
      ∷ ("mosdns", enabled_component)
      ∷ ("unbound", enabled_component)
      ∷ ("unbound_recursive", enabled_component)
      ∷ [];
  upstreams = [];
}

unfoldable pub update : String → (Component → Component) → RuntimeState → RuntimeState
update name fn s = record s {
  components = store name (fn (at_or zero_component name s.components)) s.components;
}

pub data Observation : Type 0 where
  success failure backoff_skip : Observation

unfoldable pub register : String → RuntimeState → RuntimeState
register name s = record s {
  upstreams =
      if has_key name s.upstreams then s.upstreams else store name zero_upstream s.upstreams;
}

-- The counter and the time of last sight that the kind of result changes.
abbrev pub tally : Observation → ℕ → Upstream → Upstream
tally success now u = record u { successes = wrap (u.successes + 1); last_success_unix = now }
tally failure now u = record u { failures = wrap (u.failures + 1); last_failure_unix = now }
tally backoff_skip now u = record u { backoff_skips = wrap (u.backoff_skips + 1) }

-- The part of observeDoHUpstream that works on one upstream's numbers.
unfoldable pub observed : Observation → ℕ → ℕ → ℕ → Upstream → Upstream
observed result duration retry_at now u =
    let spent =
      if slt 0 duration
      then wrap (u.duration_microseconds + duration / 1000)
      else u.duration_microseconds in
    let counted = record u { requests = wrap (u.requests + 1); duration_microseconds = spent } in
    record (tally result (unix now) counted) {
      retry_at_unix_milli = if retry_at == 0 then 0 else unix_milli retry_at;
    }

unfoldable pub observe : String → Observation → ℕ → ℕ → ℕ → RuntimeState → RuntimeState
unfolding observed
observe name result duration retry_at now s = record s {
  upstreams =
      store name (observed result duration retry_at now (at_or zero_upstream name s.upstreams))
        s.upstreams;
}

unfoldable pub snapshot : ℕ → RuntimeState → Snapshot
snapshot now s = record { timestamp = unix now; components = s.components; upstreams = s.upstreams }
