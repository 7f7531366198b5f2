-- ===== src/Wire.antt =====
-- What the supervisor process tells the DNS process each second: internal/statewire/state.go. The
-- unsigned counters are below 2^64. A backoff is kept as its duration in nanoseconds where the
-- source has a float of seconds. The JSON encoding between the two processes is left out.
use vela_dns.Base.{ℕ, Bool, false}
use vela_dns.Base.Dict.{Dict}

pub record Component : Type 0 where
  pub enabled : Bool
  pub up : Bool
  pub restarts : ℕ
  pub backoff : ℕ

-- DoHUpstream of the source
pub record Upstream : Type 0 where
  pub requests : ℕ
  pub successes : ℕ
  pub failures : ℕ
  pub backoff_skips : ℕ
  pub duration_microseconds : ℕ
  pub retry_at_unix_milli : ℕ
  pub last_success_unix : ℕ
  pub last_failure_unix : ℕ

abbrev pub zero_component : Component
zero_component = record { enabled = false; up = false; restarts = 0; backoff = 0 }

abbrev pub zero_upstream : Upstream
zero_upstream = record {
  requests = 0;
  successes = 0;
  failures = 0;
  backoff_skips = 0;
  duration_microseconds = 0;
  retry_at_unix_milli = 0;
  last_success_unix = 0;
  last_failure_unix = 0;
}

pub record Snapshot : Type 0 where
  pub timestamp : ℕ
  pub components : Dict Component
  pub upstreams : Dict Upstream
