-- ===== src/Health.antt =====
-- The health of the service: the state that internal/supervisorplugin/plugin.go keeps of the
-- supervisor and what its status pages say, and cmd/veladns/healthcheck.go, which reads them. Texts
-- are lists of bytes. The JSON decoder is the argument `decode`; what the HTTP client and the DNS
-- client return is an argument. The socket and the registration are in Health.Listening.
pub mod Laws
pub mod Metrics
pub mod Described
pub mod Reported
pub mod Unordered
pub mod Listening
pub mod Sent
pub mod Fresh
pub mod Crashed
mod Tests
mod Examples
use Prim.Native.Nat.{min}
use Prim.Native.String.{String}
use vela_dns.Base.{
  ℕ, zero, suc, ◌-◌, ◌*◌, Bool, true, false, not, ◌&&◌, ◌||◌, ltb, ◌==◌, if◌then◌else◌, Option,
  none, some, List, [], ◌∷◌, ◌++◌, take,
}
use vela_dns.Base.Int64.{two63}
use vela_dns.Base.Dict.{find}
use vela_dns.Backoff.{second}
use vela_dns.Text.{Bytes, codes, has_prefix, trim_space}
use vela_dns.Wire.{Component, Snapshot}

-- Plugin, with the state that its lock guards. A time is in nanoseconds since the zero time.
pub record Plugin : Type 0 where
  pub snapshot : Snapshot
  pub received_at : ℕ

-- The body of the loop of readLoop: a message that does not decode changes nothing.
unfoldable pub read_message : (Bytes → Option Snapshot) → ℕ → Bytes → Plugin → Plugin
read_message decode now message p = elim (decode message) [
  | some s ↦ record { snapshot = s; received_at = now }
  | none ↦ p
]

-- time.Since stops at the largest duration.
unfoldable pub current_snapshot : ℕ → Plugin → Snapshot × ℕ
current_snapshot now p = (p.snapshot, min (now - p.received_at) (two63 - 1))

abbrev pub status_ok : ℕ
status_ok = 200

abbrev pub status_service_unavailable : ℕ
status_service_unavailable = 503

-- The test on a component that the status functions share.
abbrev pub is_down : String → Snapshot → Bool
is_down name s = elim (find name s.components) [ some c ↦ c.enabled && not c.up | none ↦ false ]

unfoldable pub live_status : Snapshot → ℕ → ℕ × Bytes
live_status s age =
    if s.timestamp == 0 || ltb (5 * second) age
    then (status_service_unavailable, codes "unhealthy: supervisor state is stale")
    else if is_down "mosdns" s
    then (status_service_unavailable, codes "unhealthy: mosdns is restarting")
    else (status_ok, codes "ok")

unfoldable pub ready_status : Snapshot → ℕ → ℕ × Bytes
unfolding live_status
ready_status s age =
    let (status, message) = live_status s age in
    if not (status == status_ok)
    then (status, message)
    else if is_down "doh_bridge" s
    then (status_service_unavailable, codes "unhealthy: encrypted DNS bridge is unavailable")
    else if is_down "unbound" s
    then (status_ok, codes "degraded: unbound is restarting")
    else if is_down "unbound_recursive" s
    then (status_ok, codes "degraded: CN classification resolver is restarting")
    else (status_ok, codes "ok")

-- What a page answers: its status, and its body or none where the body cannot be read.
pub record Response : Type 0 where
  pub status_code : ℕ
  pub body : Option Bytes

abbrev pub write_status : ℕ × Bytes → Response
write_status (status, message) = record {
  status_code = status;
  body = some (message ++ (b'\n' ∷ []));
}

unfoldable pub live : ℕ → Plugin → Response
unfolding live_status current_snapshot
live now p = let (s, age) = current_snapshot now p in write_status (live_status s age)

unfoldable pub ready : ℕ → Plugin → Response
unfolding ready_status current_snapshot
ready now p = let (s, age) = current_snapshot now p in write_status (ready_status s age)

-- The field Status of the report.
unfoldable pub dependencies_status : ℕ → Plugin → Bytes
unfolding ready_status current_snapshot has_prefix
dependencies_status now p =
    let (s, age) = current_snapshot now p in
    let message = (ready_status s age).1 in
    if has_prefix (codes "unhealthy") message
    then codes "unhealthy"
    else if has_prefix (codes "degraded") message
    then codes "degraded"
    else codes "ready"

pub data HealthError : Type 0 where
  endpoint response_unread not_ready query_failed no_response bad_rcode no_address : HealthError

-- The error of checkSupervisorHealth on what the client gets, none for a failed request.
unfoldable pub check_supervisor_health : Option Response → Option HealthError
unfolding trim_space has_prefix
check_supervisor_health none = some endpoint
check_supervisor_health (some r) = elim r.body [
  | none ↦ some response_unread
  | some body ↦
      let status = trim_space (take 256 body) in
      if not (r.status_code == status_ok)
        || (not (has_prefix (codes "ok") status) && not (has_prefix (codes "degraded") status))
      then some not_ready
      else none
]

-- A reply of the DNS server: its rcode and the types of its answers.
pub record DnsReply : Type 0 where
  pub rcode : ℕ
  pub answers : List ℕ

-- What the exchange returns: an error, no response, or a response.
pub data Exchanged : Type 0 where
  failed nothing : Exchanged
  replied : DnsReply → Exchanged

abbrev pub type_a : ℕ
type_a = 1

unfoldable pub find_address : List ℕ → Option HealthError
find_address [] = some no_address
find_address (t ∷ ts) = if t == type_a then none else find_address ts

unfoldable pub check_secure_dns : Exchanged → Option HealthError
unfolding find_address
check_secure_dns failed = some query_failed
check_secure_dns nothing = some no_response
check_secure_dns (replied r) = if not (r.rcode == 0) then some bad_rcode else find_address r.answers

-- The DNS query is made only if the supervisor is healthy; `exchange` is what it would return.
unfoldable pub run_healthcheck : Option Response → Exchanged → Option HealthError
run_healthcheck page exchange = elim (check_supervisor_health page) [
  | some e ↦ some e
  | none ↦ check_secure_dns exchange
]
