-- ===== src/Text/Decimal/Laws.antt =====
-- Atoi reads back what Itoa prints.
use vela_dns.Base.{
  ℕ, zero, suc, ◌+◌, ◌-◌, ◌*◌, ◌/◌, ◌%◌, ◌≤◌, ◌<◌, ◌≡◌, refl, ap, ◌∙◌, true, false, ◌==◌, some, [],
  ◌∷◌, arith, Bool-cases, inl, inr,
}
use vela_dns.Base.Int64.{two63}
use vela_dns.Text.{Bytes, is_empty, all_bytes}
use vela_dns.Text.Decimal.{is_digit, digits, itoa, spelled, spelled_int, atoi}

last_digit : (n : ℕ) (out : Bytes) → spelled (n / 10) ((b'0' + n % 10) ∷ out) ≡ spelled n out
unfolding spelled
last_digit n out =
    let e : n / 10 * 10 + (b'0' + n % 10 - b'0') ≡ n = omega arith in rw e (ground arith)

spelled-digits :
    (fuel n : ℕ) (out : Bytes) → n ≤ fuel → spelled 0 (digits fuel n out) ≡ spelled n out
unfolding digits
spelled-digits zero n out h = let e : n ≡ 0 = omega arith in rw e refl
spelled-digits (suc fuel) n out h = elim (Bool-cases (n == 0)) [
  | inl e ↦ rw e (let z : n ≡ 0 = ground arith in rw z refl)
  | inr e ↦
      rw e (spelled-digits fuel (n / 10) ((b'0' + n % 10) ∷ out) (ground arith) ∙ last_digit n out)
]

digits-all :
    (fuel n : ℕ) (out : Bytes)
    → all_bytes is_digit out ≡ true
    → all_bytes is_digit (digits fuel n out) ≡ true
unfolding digits
digits-all zero n out h = h
digits-all (suc fuel) n out h = ground (arith, digits-all fuel (n / 10) ((b'0' + n % 10) ∷ out))

digits-filled :
    (fuel n : ℕ) (out : Bytes) → is_empty out ≡ false → is_empty (digits fuel n out) ≡ false
unfolding digits
digits-filled zero n out h = h
digits-filled (suc fuel) n out h =
    ground (arith, digits-filled fuel (n / 10) ((b'0' + n % 10) ∷ out))

pub itoa-digits : (n : ℕ) → all_bytes is_digit (itoa n) ≡ true
unfolding itoa
itoa-digits n = ground (arith, digits-all n n [])

pub itoa-filled : (n : ℕ) → is_empty (itoa n) ≡ false
unfolding itoa
itoa-filled zero = refl
itoa-filled (suc n) = ground (arith, digits-filled n (suc n / 10) ((b'0' + suc n % 10) ∷ []))

itoa-suc : (n : ℕ) → itoa (suc n) ≡ digits (suc n) (suc n) []
unfolding itoa
itoa-suc n = ground arith

spelled-itoa : (n : ℕ) → spelled 0 (itoa n) ≡ some n
unfolding spelled
spelled-itoa zero = unfold itoa in refl
spelled-itoa (suc n) = ap (spelled 0) (itoa-suc n) ∙ spelled-digits (suc n) (suc n) [] (omega arith)

-- A text of digits has no sign.
atoi_unsigned :
    (s : Bytes) → is_empty s ≡ false → all_bytes is_digit s ≡ true → atoi s ≡ spelled_int false s
unfolding atoi
atoi_unsigned [] e h = cc
atoi_unsigned (c ∷ cs) e h = ground arith

pub atoi-itoa : (n : ℕ) → n < two63 → atoi (itoa n) ≡ some n
atoi-itoa n h =
    atoi_unsigned (itoa n) (itoa-filled n) (itoa-digits n)
    ∙ rw (itoa-filled n, spelled-itoa n) (ground arith)
