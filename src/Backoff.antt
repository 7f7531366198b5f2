-- ===== src/Backoff.antt =====
-- The exponential delay and its jitter, written three times in the source: exponentialDelay and
-- jitterDelay of internal/circuitplugin/circuit.go, restartDelay of cmd/veladns/process.go and
-- jitterDoHBackoff of cmd/veladns/dohbridge.go. A duration is the bit pattern of its int64 count
-- of nanoseconds. `rand n` is the value of that call of rand.Int63n(n).
pub mod Laws
pub mod Bounds
use vela_dns.Base.{ℕ, zero, suc, ◌+◌, ◌-◌, ◌*◌, ◌/◌, ◌<◌, if◌then◌else◌, ◌==◌}
use vela_dns.Base.Int64.{wrap, slt, sle}

abbrev pub second : ℕ
second = 1_000_000_000

abbrev pub minute : ℕ
minute = 60_000_000_000

-- The loop `for i := 1; i < step && delay < maximum; i++`, by the rounds that `step` leaves.
unfoldable pub double_until : ℕ → ℕ → ℕ → ℕ
double_until zero maximum delay = delay
double_until (suc rounds) maximum delay =
    let doubled = wrap (delay * 2) in
    let rest = double_until rounds maximum doubled in
    if slt delay maximum then if sle maximum doubled then maximum else rest else delay

unfoldable pub exponential_delay : ℕ → ℕ → ℕ → ℕ
unfolding double_until
exponential_delay initial maximum step = double_until (step - 1) maximum initial

-- What rand.Int63n promises for a positive argument.
abbrev pub IsRandom : (ℕ → ℕ) → Type 0
IsRandom rand = (n : ℕ) → 0 < n → rand n < n

-- nominal - spread + rand.Int63n(2*spread+1), capped at the maximum
unfoldable pub spread_around : (ℕ → ℕ) → ℕ → ℕ → ℕ
spread_around rand nominal maximum =
    let spread = nominal / 5 in
    let delay = wrap (nominal - spread + rand (wrap (2 * spread + 1))) in
    if slt maximum delay then maximum else delay

unfoldable pub jitter_delay : (ℕ → ℕ) → ℕ → ℕ → ℕ
unfolding spread_around
jitter_delay rand nominal maximum =
    if sle nominal 0
    then 0
    else if nominal / 5 == 0
    then nominal
    else spread_around rand nominal maximum

abbrev pub restart_initial : ℕ
restart_initial = second

abbrev pub restart_maximum : ℕ
restart_maximum = 30 * second

unfoldable pub restart_delay : (ℕ → ℕ) → ℕ → ℕ
unfolding spread_around double_until
restart_delay rand step =
    spread_around rand (double_until (step - 1) restart_maximum restart_initial) restart_maximum

abbrev pub doh_maximum : ℕ
doh_maximum = 5 * minute

unfoldable pub jitter_doh_backoff : (ℕ → ℕ) → ℕ → ℕ
unfolding spread_around double_until
jitter_doh_backoff rand step =
    spread_around rand (double_until (step - 1) doh_maximum second) doh_maximum
