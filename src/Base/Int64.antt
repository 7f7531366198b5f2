-- ===== src/Base/Int64.antt =====
-- Go's int64 (time.Duration, int on the 64-bit targets) as a bit pattern below 2^64, and uint64.
-- `slt` and `sle` are the signed comparisons, by the pattern with its sign bit flipped.
use Prim.Native.Nat.{ℕ, ◌+◌, ◌%◌, ◌<◌}
use mathlib.Core.Path.{◌≡◌}
use mathlib.Core.Bool.{Bool}
use native.Mathlib.Omega.{arith}
use vela_dns.Base.Tests.{ltb, leb}

abbrev pub two63 : ℕ
two63 = 9223372036854775808

abbrev pub two64 : ℕ
two64 = 18446744073709551616

-- Wrap-around of an unsigned or two's complement result.
abbrev pub wrap : ℕ → ℕ
wrap n = n % two64

abbrev pub biased : ℕ → ℕ
biased a = (a + two63) % two64

unfoldable pub slt : ℕ → ℕ → Bool
slt a b = ltb (biased a) (biased b)

unfoldable pub sle : ℕ → ℕ → Bool
sle a b = leb (biased a) (biased b)

pub slt-nonneg : (a b : ℕ) → a < two63 → b < two63 → slt a b ≡ ltb a b
unfolding slt
slt-nonneg a b ha hb = ground arith

pub sle-nonneg : (a b : ℕ) → a < two63 → b < two63 → sle a b ≡ leb a b
unfolding sle
sle-nonneg a b ha hb = ground arith
