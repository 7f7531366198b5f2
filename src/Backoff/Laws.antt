-- ===== src/Backoff/Laws.antt =====
-- The delays in closed form, and their bounds.
use Prim.Native.Nat.{min}
use native.Mathlib.Nat.{pow-suc}
use vela_dns.Base.{
  ℕ, zero, suc, ◌-◌, ◌*◌, ◌^◌, ◌≤◌, ◌<◌, ◌≡◌, arith, ltb, leb, inl, inr, Bool-cases, ap, ◌∙◌,
  if◌then◌else◌,
}
use vela_dns.Base.Int64.{wrap, slt-nonneg, sle-nonneg}
use vela_dns.Backoff.{double_until, exponential_delay}

abbrev pub half63 : ℕ
half63 = 4611686018427387904

pub two_pow_pos : (n : ℕ) → 0 < 2 ^ n
two_pow_pos zero = omega arith
two_pow_pos (suc n) = rw pow-suc (omega (arith, two_pow_pos n))

-- One round: the loop stops at the maximum, or goes on with twice the delay.
double_until-suc :
    (n m d : ℕ)
    → m < half63
    → d ≤ m
    → double_until (suc n) m d
      ≡ (if ltb d m then if leb m (d * 2) then m else double_until n m (d * 2) else d)
unfolding double_until
double_until-suc n m d r q =
    let e : wrap (d * 2) ≡ d * 2 = omega arith in
    rw (
      e,
      slt-nonneg d m (omega arith) (omega arith),
      sle-nonneg m (d * 2) (omega arith) (omega arith),
    )

le-mul_pow : (n x : ℕ) → x ≤ x * 2 ^ n
le-mul_pow n x = grind (arith, two_pow_pos n)

pub mul_two_pow_pos : (x n : ℕ) → 0 < x → 0 < x * 2 ^ n
mul_two_pow_pos x n h = omega (arith, le-mul_pow n x)

regroup : (n d : ℕ) → d * 2 * 2 ^ n ≡ d * 2 ^ suc n
regroup n d = rw pow-suc (omega arith)

pub double_until-min :
    (n m d : ℕ) → 0 < d → d ≤ m → m < half63 → double_until n m d ≡ min m (d * 2 ^ n)
double_until-min zero m d p q r = unfold double_until in omega arith
double_until-min (suc n) m d p q r = elim (Bool-cases (ltb d m)) [
  | inr at ↦ rw (double_until-suc n m d r q, at) (ground (arith, le-mul_pow (suc n) d))
  | inl below ↦ elim (Bool-cases (leb m (d * 2))) [
    | inl stop ↦
        rw (double_until-suc n m d r q, below, stop)
          (ground (arith, le-mul_pow n (d * 2), regroup n d))
    | inr go ↦
        rw (double_until-suc n m d r q, below, go)
          (double_until-min n m (d * 2) (omega arith) (ground arith) r ∙ ap (min m) (regroup n d))
  ]
]

-- For a first delay above 0 and at most the maximum, and a maximum below 2^62, the delay doubles with
-- every step up to the maximum, and then it stays there.
pub exponential_delay-min :
    (initial maximum n : ℕ)
    → 0 < initial
    → initial ≤ maximum
    → maximum < half63
    → exponential_delay initial maximum (suc n) ≡ min maximum (initial * 2 ^ n)
unfolding exponential_delay
exponential_delay-min initial maximum n p q r =
    let e : suc n - 1 ≡ n = omega arith in rw e (double_until-min n maximum initial p q r)
