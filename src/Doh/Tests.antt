-- ===== src/Doh/Tests.antt =====
-- Runs of a DoH upstream and of the bridge at fixed inputs, and the theorems at inputs that meet
-- their conditions.
use vela_dns.Base.{ℕ, ◌+◌, ◌<◌, ◌≡◌, refl, true, false, none, some, List, [], ◌∷◌, arith}
use vela_dns.Base.Int64.{wrap}
use vela_dns.Backoff.{second}
use vela_dns.Runtime.{success, failure, backoff_skip, new_runtime_state}
use vela_dns.Runtime.Counts.{
  Entry, registered, recorded, run, upstream_of, total, request, result, run-counts,
}
use vela_dns.Doh.{fresh}
use vela_dns.Doh.DialCache.{
  empty, get_cached, resolved, after, Resolved, get_cached_recent, dial_address_ttl,
}
use vela_dns.Doh.DialCache
use vela_dns.Doh.Exchange.{Msg, ok, value, Transport, exchange_once}
use vela_dns.Doh.Laws.{
  Event, acquired, succeeded, failed, IsSound, breaker-IsSound, ParksFor, fail-ParksFor,
}
use vela_dns.Doh.Laws

abbrev lowest : ℕ → ℕ
lowest n = 0

abbrev events : List Event
events =
    failed lowest 5 false ∷ failed lowest 6 false ∷ acquired second ∷ failed lowest second true ∷ []

breaker-IsSound_example : IsSound (Laws.run events fresh)
breaker-IsSound_example = breaker-IsSound events (omega arith)

abbrev query : Msg
query = record { id = 77; is_response = false; questions = 1 ∷ []; rcode = 0; answers = [] }

abbrev reply : Msg
reply = record { id = 0; is_response = true; questions = 1 ∷ []; rcode = 0; answers = 1 ∷ [] }

abbrev served : Transport
served = record {
  pack = λ m. value (1 ∷ 2 ∷ []);
  new_request = λ p. value p;
  send = λ p. value (record { status = 200; read_all = λ n. value (3 ∷ []) });
  unpack = λ b. value reply;
}

exchange_once_answers : exchange_once served query ≡ ok (record reply { id = 77 })
unfolding exchange_once
exchange_once_answers = refl

-- A lookup whose resolver fails beside one that is answered.
abbrev lookups : List DialCache.Event
lookups = resolved 9 none ∷ resolved 7 (some ("1.2.3.4" ∷ [])) ∷ DialCache.failed ∷ []

get_cached_recent_example :
    (at : ℕ) × Resolved ("1.2.3.4" ∷ []) at lookups × (30 < at + dial_address_ttl)
unfolding get_cached after
get_cached_recent_example = get_cached_recent lookups 30 ("1.2.3.4" ∷ []) refl

abbrev history : List Entry
history =
    registered "360"
    ∷ recorded "360" success 2000 0 9
    ∷ recorded "cloudflare" failure 2000 0 9
    ∷ recorded "360" backoff_skip 0 50 9
    ∷ []

run-counts_example :
    let u = upstream_of "360" (run history new_runtime_state) in
    (u.requests ≡ wrap (total (request "360") history))
    × (u.successes ≡ wrap (total (result success "360") history))
    × (u.failures ≡ wrap (total (result failure "360") history))
    × (u.backoff_skips ≡ wrap (total (result backoff_skip "360") history))
    × (u.requests ≡ wrap (u.successes + u.failures + u.backoff_skips))
run-counts_example = run-counts history "360"
