-- ===== src/Runtime/Counts.antt =====
-- The numbers of each DoH upstream against the history of what was observed of it.
use Prim.Native.String.{String}
use text.Mathlib.Text.{◌==◌ as str_eq}
use text.Mathlib.TextEquality.{eq_iff}
use vela_dns.Base.{
  ℕ, ◌+◌, ◌<◌, ◌≡◌, Bool, true, false, inl, inr, Bool-cases, List, [], ◌∷◌, arith, if◌then◌else◌,
  ◌&&◌,
}
use vela_dns.Base.Dict.{at_or, has_key, at_or-store, at_or_missing}
use vela_dns.Base.Int64.{two64, wrap}
use vela_dns.Wire.{Upstream, zero_upstream}
use vela_dns.Runtime.{
  RuntimeState, Observation, success, failure, backoff_skip, register, observed, observe,
  new_runtime_state,
}

-- A call of registerDoHUpstream or observeDoHUpstream.
pub data Entry : Type 0 where
  registered : String → Entry
  recorded : String → Observation → ℕ → ℕ → ℕ → Entry

unfoldable pub apply : Entry → RuntimeState → RuntimeState
apply (registered name) s = register name s
apply (recorded name r duration retry_at now) s = observe name r duration retry_at now s

unfoldable pub run : List Entry → RuntimeState → RuntimeState
unfolding apply
run [] s = s
run (e ∷ es) s = run es (apply e s)

abbrev pub upstream_of : String → RuntimeState → Upstream
upstream_of name s = at_or zero_upstream name s.upstreams

abbrev same : Observation → Observation → Bool
same success success = true
same failure failure = true
same backoff_skip backoff_skip = true
same _ _ = false

-- 1 for an observation of this upstream, else 0
abbrev pub request : String → Entry → ℕ
request name (registered n) = 0
request name (recorded n r d t now) = if str_eq n name then 1 else 0

abbrev pub result : Observation → String → Entry → ℕ
result r name (registered n) = 0
result r name (recorded n r' d t now) = if str_eq n name && same r' r then 1 else 0

abbrev pub total : (Entry → ℕ) → List Entry → ℕ
total f [] = 0
total f (e ∷ es) = f e + total f es

abbrev pub field : Observation → Upstream → ℕ
field success u = u.successes
field failure u = u.failures
field backoff_skip u = u.backoff_skips

upstream_of-register :
    (n name : String) (s : RuntimeState) → upstream_of name (register n s) ≡ upstream_of name s
unfolding register
upstream_of-register n name s = elim (Bool-cases (has_key n s.upstreams)) [
  | inl old ↦ rw old
  | inr new ↦
      rw (new, at_or-store zero_upstream n name zero_upstream s.upstreams)
        (ground (arith, eq_iff n name, at_or_missing zero_upstream n s.upstreams new))
]

pub upstream_of-observe :
    (n name : String) (r : Observation) (d t now : ℕ) (s : RuntimeState)
    → upstream_of name (observe n r d t now s)
      ≡ (if str_eq n name then observed r d t now (upstream_of n s) else upstream_of name s)
unfolding observe
upstream_of-observe n name r d t now s = at_or-store zero_upstream n name _ s.upstreams

requests-apply :
    (e : Entry) (name : String) (s : RuntimeState)
    → (upstream_of name s).requests < two64
    → (upstream_of name (apply e s)).requests
      ≡ wrap ((upstream_of name s).requests + request name e)
unfolding apply observed
requests-apply (registered n) name s h = rw (upstream_of-register n name s) (omega arith)
requests-apply (recorded n r d t now) name s h =
    rw (upstream_of-observe n name r d t now s) (ground (arith, eq_iff n name))

field-apply :
    (k : Observation) (e : Entry) (name : String) (s : RuntimeState)
    → field k (upstream_of name s) < two64
    → field k (upstream_of name (apply e s)) ≡ wrap (field k (upstream_of name s) + result k name e)
unfolding apply observed
field-apply k (registered n) name s h = rw (upstream_of-register n name s) (ground arith)
field-apply k (recorded n r d t now) name s h =
    rw (upstream_of-observe n name r d t now s) (ground (arith, eq_iff n name))

requests-run :
    (es : List Entry) (name : String) (s : RuntimeState)
    → (upstream_of name s).requests < two64
    → (upstream_of name (run es s)).requests
      ≡ wrap ((upstream_of name s).requests + total (request name) es)
unfolding run
requests-run [] name s h = omega arith
requests-run (e ∷ es) name s h =
    let step = requests-apply e name s h in
    omega (arith, step, requests-run es name (apply e s) (omega (arith, step)))

field-run :
    (k : Observation) (es : List Entry) (name : String) (s : RuntimeState)
    → field k (upstream_of name s) < two64
    → field k (upstream_of name (run es s))
      ≡ wrap (field k (upstream_of name s) + total (result k name) es)
unfolding run
field-run k [] name s h = omega arith
field-run k (e ∷ es) name s h =
    let step = field-apply k e name s h in
    omega (arith, step, field-run k es name (apply e s) (omega (arith, step)))

request-result :
    (name : String) (e : Entry)
    → request name e ≡ result success name e + result failure name e + result backoff_skip name e
request-result name (registered n) = omega arith
request-result name (recorded n r d t now) = ground arith

total-result :
    (name : String) (es : List Entry)
    → total (request name) es
      ≡ total (result success name) es
        + total (result failure name) es
        + total (result backoff_skip name) es
total-result name [] = omega arith
total-result name (e ∷ es) = omega (arith, request-result name e, total-result name es)

-- After any history of registrations and observations, of any upstreams, the numbers of each
-- upstream are the counts of what was observed of it, modulo 2^64, and its requests are the sum
-- of its successes, failures and skips, modulo 2^64.
pub run-counts :
    (es : List Entry) (name : String)
    → let u = upstream_of name (run es new_runtime_state) in
      (u.requests ≡ wrap (total (request name) es))
      × (u.successes ≡ wrap (total (result success name) es))
      × (u.failures ≡ wrap (total (result failure name) es))
      × (u.backoff_skips ≡ wrap (total (result backoff_skip name) es))
      × (u.requests ≡ wrap (u.successes + u.failures + u.backoff_skips))
unfolding new_runtime_state at_or
run-counts es name =
    let r = requests-run es name new_runtime_state (omega arith) in
    let a = field-run success es name new_runtime_state (omega arith) in
    let b = field-run failure es name new_runtime_state (omega arith) in
    let c = field-run backoff_skip es name new_runtime_state (omega arith) in
    let t = total-result name es in
    (
      omega (arith, r),
      omega (arith, a),
      omega (arith, b),
      omega (arith, c),
      omega (arith, r, a, b, c, t),
    )
