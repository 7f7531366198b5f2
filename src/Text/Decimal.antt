-- ===== src/Text/Decimal.antt =====
-- strconv.Itoa and strconv.Atoi. An int is its 64-bit pattern. Atoi fails in the same way for a
-- text that is no number and for a number that no int holds.
pub mod Laws
use vela_dns.Base.{
  ℕ, zero, suc, ◌+◌, ◌-◌, ◌*◌, ◌/◌, ◌%◌, Bool, true, false, ◌&&◌, ltb, leb, ◌==◌, if◌then◌else◌,
  Option, none, some, List, [], ◌∷◌,
}
use vela_dns.Base.Int64.{two63, two64}
use vela_dns.Text.{Bytes, codes, is_empty}

abbrev pub is_digit : ℕ → Bool
is_digit c = leb b'0' c && leb c b'9'

-- The digits of n in front of a text; a number has no more digits than it counts.
unfoldable pub digits : ℕ → ℕ → Bytes → Bytes
digits zero n out = out
digits (suc fuel) n out =
    let more = digits fuel (n / 10) ((b'0' + n % 10) ∷ out) in if n == 0 then out else more

-- strconv.Itoa of an int that is not negative
unfoldable pub itoa : ℕ → Bytes
unfolding digits
itoa n = if n == 0 then b'0' ∷ [] else digits n n []

-- The number that a text of digits spells behind `n`, with no bound.
unfoldable pub spelled : ℕ → Bytes → Option ℕ
spelled n [] = some n
spelled n (c ∷ cs) =
    let rest = spelled (n * 10 + (c - b'0')) cs in if is_digit c then rest else none

abbrev pub within_int : Bool → Option ℕ → Option ℕ
within_int negative none = none
within_int true (some n) = if leb n two63 then some ((two64 - n) % two64) else none
within_int false (some n) = if ltb n two63 then some n else none

abbrev pub spelled_int : Bool → Bytes → Option ℕ
spelled_int negative s = if is_empty s then none else within_int negative (spelled 0 s)

unfoldable pub atoi : Bytes → Option ℕ
unfolding spelled
atoi [] = none
atoi (c ∷ cs) =
    if c == b'-'
    then spelled_int true cs
    else if c == b'+'
    then spelled_int false cs
    else spelled_int false (c ∷ cs)
