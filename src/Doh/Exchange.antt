-- ===== src/Doh/Exchange.antt =====
-- exchange, exchangeOnce and record of cmd/veladns/dohbridge.go. What the DNS and HTTP libraries
-- do is a `Transport`, and an error of theirs is a number.
use Prim.Native.String.{String}
use vela_dns.Base.{ℕ, ◌-◌, Bool, true, false, not, ◌||◌, ◌==◌, if◌then◌else◌, List, length}
use vela_dns.Runtime.{RuntimeState, Observation, success, failure, backoff_skip, observe}
use vela_dns.Doh.DialCache.{DialCache, invalidate}
use vela_dns.Doh.{Breaker, acquire, fail, succeed}

-- A DNS message: its id, whether it is a response, its questions, its code and the types of its
-- answer records.
pub record Msg : Type 0 where
  pub id : ℕ
  pub is_response : Bool
  pub questions : List ℕ
  pub rcode : ℕ
  pub answers : List ℕ

pub data Error : Type 0 where
  in_backoff invalid_response canceled : Error
  pack_query create_request send_request read_response decode_response http_status : ℕ → Error

pub data Result (A : Type 0) : Type 0 where
  err : Error → Result A
  ok : A → Result A

-- `guard` stops with its error where its test fails.
abbrev pub guard : Bool → Error → Result (Unit {0})
guard false reason = err reason
guard true reason = ok tt

-- An error ends the sequence.
infixl 5 ◌>>=◌ ◌>>◌
abbrev pub ◌>>=◌ : {A B : Type 0} → Result A → (A → Result B) → Result B
err reason >>= go = err reason
ok found >>= go = go found

abbrev pub ◌>>◌ : {B : Type 0} → Result (Unit {0}) → Result B → Result B
check >> then_do = check >>= λ passed. then_do

-- A call of a library that gives a value or fails.
pub data Call (A : Type 0) : Type 0 where
  value : A → Call A
  fault : ℕ → Call A

abbrev pub called : {A : Type 0} → (ℕ → Error) → Call A → Result A
called kind (value a) = ok a
called kind (fault e) = err (kind e)

pub record HttpReply : Type 0 where
  pub status : ℕ
  pub read_all : ℕ → Call (List ℕ)

pub record Transport : Type 0 where
  pub pack : Msg → Call (List ℕ)
  pub new_request : List ℕ → Call (List ℕ)
  pub send : List ℕ → Call HttpReply
  pub unpack : List ℕ → Call Msg

-- dns.MaxMsgSize
abbrev pub max_msg_size : ℕ
max_msg_size = 65535

unfoldable pub exchange_once : Transport → Msg → Result Msg
exchange_once t query = do
  payload ← called pack_query (t.pack query)
  request ← called create_request (t.new_request payload)
  response ← called send_request (t.send request)
  guard (response.status == 200) (http_status response.status)
  body ← called read_response (response.read_all max_msg_size)
  answer ← called decode_response (t.unpack body)
  guard (not (not answer.is_response || not (length answer.questions == length query.questions)))
      invalid_response
  ok (record answer { id = query.id })

-- A dohUpstream and what its exchanges change: its backoff, the cache of its dial addresses if it
-- has one, and the numbers kept of it.
pub record Upstream : Type 0 where
  pub tag : String
  pub bootstrapped : Bool
  pub observing : Bool
  pub breaker : Breaker
  pub cache : DialCache
  pub state : RuntimeState

-- record; `now` is the clock that observeDoHUpstream reads.
unfoldable pub record_result : Observation → ℕ → ℕ → Upstream → Upstream
record_result result duration now u =
    if u.observing
    then record u { state = observe u.tag result duration u.breaker.retry_at now u.state }
    else u

abbrev pub invalidate_dial_ips : Upstream → Upstream
invalidate_dial_ips u = record u { cache = if u.bootstrapped then invalidate u.cache else u.cache }

-- What follows the request, at the time `now`, for an exchange that began at `started`.
unfoldable pub settle : (ℕ → ℕ) → ℕ → ℕ → Bool → Result Msg → Upstream → Upstream × Result Msg
settle rand started now probe (err e) u =
    let parked = record (invalidate_dial_ips u) { breaker = fail rand now probe u.breaker } in
    (record_result failure (now - started) now parked, err e)
settle rand started now probe (ok answer) u =
    let cleared = record u { breaker = succeed u.breaker } in
    (record_result success (now - started) now cleared, ok answer)

-- Between its start and its end, other exchanges of the same upstream may change it: `later` is
-- what they make of it.
unfoldable pub exchange_with :
    (Upstream → Upstream) → (ℕ → ℕ) → Transport → ℕ → ℕ → Msg → Upstream → Upstream × Result Msg
exchange_with later rand t started now query u =
    let (b, probe, allowed) = acquire started u.breaker in
    let entered = record u { breaker = b } in
    if allowed
    then settle rand started now probe (exchange_once t query) (later entered)
    else (record_result backoff_skip (now - started) now entered, err in_backoff)

-- An exchange with no other in flight.
unfoldable pub exchange : (ℕ → ℕ) → Transport → ℕ → ℕ → Msg → Upstream → Upstream × Result Msg
unfolding exchange_with
exchange = exchange_with (λ u. u)
