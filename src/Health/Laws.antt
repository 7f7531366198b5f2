-- ===== src/Health/Laws.antt =====
-- What the status pages say, and that the health check reads them as they are meant.
use vela_dns.Base.{
  ℕ, ◌+◌, ◌*◌, ◌<◌, ◌≡◌, ◌⊎◌, inl, inr, refl, ap, ◌∙◌, Option-cases, Bool, true, false, not, ◌&&◌,
  ◌||◌, ltb, ◌==◌, if◌then◌else◌, Option, none, some, List, [], ◌∷◌, arith,
}
use vela_dns.Base.Int64.{two63}
use vela_dns.Backoff.{second}
use vela_dns.Text.{Bytes, codes}
use vela_dns.Wire.{Snapshot}
use vela_dns.Health.{
  Plugin, read_message, current_snapshot, is_down, ready, dependencies_status, not_ready,
  check_supervisor_health, replied, check_secure_dns, find_address, no_address, DnsReply,
  run_healthcheck, type_a,
}

-- The state is recent, and what is needed to answer at all is not down.
abbrev pub is_serving : Snapshot → ℕ → Bool
is_serving s age =
    not (s.timestamp == 0 || ltb (5 * second) age)
    && not (is_down "mosdns" s)
    && not (is_down "doh_bridge" s)

-- checkSupervisorHealth accepts the page of ready exactly when the state kept has a time stamp and
-- came at most five seconds ago, and neither mosdns nor the bridge is enabled and down in it; the
-- resolvers behind them do not matter, and a page that it refuses it refuses as not ready.
pub ready-checked :
    (now : ℕ) (p : Plugin)
    → let (s, age) = current_snapshot now p in
      check_supervisor_health (some (ready now p))
      ≡ (if is_serving s age then none else some not_ready)
unfolding check_supervisor_health ready
ready-checked now p = ground arith

-- The status in the report of dependencies: unhealthy exactly when the health check would refuse,
-- degraded exactly when it accepts while one of the two resolvers is enabled and down.
pub dependencies_status-checked :
    (now : ℕ) (p : Plugin)
    → let (s, age) = current_snapshot now p in
      dependencies_status now p ≡ (
        if not (is_serving s age)
        then codes "unhealthy"
        else if is_down "unbound" s || is_down "unbound_recursive" s
        then codes "degraded"
        else codes "ready")
unfolding dependencies_status
dependencies_status-checked now p = ground arith

abbrev pub is_none : {A : Type 0} → Option A → Bool
is_none none = true
is_none (some x) = false

pub later-checked :
    (s : Snapshot) (sent passed : ℕ)
    → passed < two63
    → check_supervisor_health
        (some (ready (sent + passed) (record { snapshot = s; received_at = sent })))
      ≡ (if is_serving s passed then none else some not_ready)
unfolding current_snapshot
later-checked s sent passed h =
    ready-checked (sent + passed) (record { snapshot = s; received_at = sent })
    ∙ ap (λ age. if is_serving s age then none else some not_ready) (ground arith)

-- After a message that decodes, the health check goes by that message and the time since, below 2^63
-- nanoseconds, whatever state was kept before; one that does not decode leaves the state as it was.
pub read_message-checked :
    (decode : Bytes → Option Snapshot) (message : Bytes) (sent passed : ℕ) (p : Plugin)
    → passed < two63
    → ((decode message ≡ none) × (read_message decode sent message p ≡ p))
      ⊎ ((s : Snapshot) × (decode message ≡ some s)
          × (check_supervisor_health
                (some (ready (sent + passed) (read_message decode sent message p)))
              ≡ (if is_serving s passed then none else some not_ready)))
unfolding read_message
read_message-checked decode message sent passed p h = elim (Option-cases (decode message)) [
  | inl e ↦ inl (e, rw (read_message, e) refl)
  | inr (s, e) ↦ inr (s, e, rw (read_message, e) (later-checked s sent passed h))
]

abbrev pub has_address : List ℕ → Bool
has_address [] = false
has_address (t ∷ ts) = t == type_a || has_address ts

address_found : (ts : List ℕ) → find_address ts ≡ (if has_address ts then none else some no_address)
unfolding find_address
address_found [] = refl
address_found (t ∷ ts) = ground (arith, address_found ts)

-- The whole check passes on a page of ready and a reply of the DNS server exactly when the service
-- is serving, the reply has no error, and one of its answers is an IPv4 address.
pub run_healthcheck-passes :
    (now : ℕ) (p : Plugin) (r : DnsReply)
    → let (s, age) = current_snapshot now p in
      is_none (run_healthcheck (some (ready now p)) (replied r))
      ≡ (is_serving s age && r.rcode == 0 && has_address r.answers)
unfolding run_healthcheck check_secure_dns
run_healthcheck-passes now p r = ground (arith, ready-checked now p, address_found r.answers)
