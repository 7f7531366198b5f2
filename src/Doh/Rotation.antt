-- ===== src/Doh/Rotation.antt =====
-- The dials of an upstream go through its addresses in turn.
use Prim.Native.String.{String}
use native.Mathlib.Nat.{mod-lt, mod-eq_of_lt, mod-add-mod, add-mod_right}
use mathlib.Core.List.{Memᴰ}
use vela_dns.Base.{
  ℕ, zero, suc, ◌+◌, ◌-◌, ◌%◌, ◌≤◌, ◌<◌, ◌≡◌, sym, ap, ◌∙◌, leb, lt→ltb, Bool-cases, inl, inr, List,
  [], ◌∷◌, length, get_or, arith, subst,
}
use vela_dns.Base.Int64.{two63, wrap}
use vela_dns.Doh.Dialling.{Dialled, to, resolved, dial_context, dial_at}

-- Dials one after the other, with the same addresses.
unfoldable pub dials : ℕ → ℕ → List String → List Dialled
unfolding dial_context
dials zero next ips = []
dials (suc k) next ips =
    let (next', dialled) = dial_context (resolved ips) next in dialled ∷ dials k next' ips

-- The dial at which a position comes up.
turn : (n next i : ℕ) → i < n → (k : ℕ) × (k < n) × ((next + k) % n ≡ i)
turn n next i h =
    let low : next % n < n = mod-lt next (omega arith) in
    elim (Bool-cases (leb (next % n) i)) [
      | inl before ↦ (
        i - next % n,
        ground arith,
        sym (mod-add-mod next n (i - next % n)) ∙ ap (λ x. x % n) (ground arith) ∙ mod-eq_of_lt h,
      )
      | inr after ↦ (
        i + n - next % n,
        ground arith,
        sym (mod-add-mod next n (i + n - next % n))
            ∙ ap (λ x. x % n) (ground arith)
            ∙ add-mod_right i n
            ∙ mod-eq_of_lt h,
      )
    ]

dials-mem :
    (m next k : ℕ) (ip : String) (ips : List String)
    → k < m
    → next + m ≤ two63
    → Memᴰ (dial_at (next + k) (ip ∷ ips)) (dials m next (ip ∷ ips))
unfolding dials
dials-mem zero next k ip ips h b = absurd (omega arith)
dials-mem (suc m) next zero ip ips h b = Memᴰ.head (ap (λ x. dial_at x (ip ∷ ips)) (omega arith))
dials-mem (suc m) next (suc k) ip ips h b =
    let same : wrap (next + 1) + k ≡ next + suc k = omega arith in
    let below : wrap (next + 1) + m ≤ two63 = omega arith in
    Memᴰ.tail (
      subst (λ x. Memᴰ (dial_at x (ip ∷ ips)) (dials m (wrap (next + 1)) (ip ∷ ips))) same
        (dials-mem m (wrap (next + 1)) k ip ips (omega arith) below))

-- While the counter of the dials is below 2^63, as many dials in a row as there are addresses try
-- every address.
pub dials-IsFull :
    (next : ℕ) (ip : String) (ips : List String) (i : ℕ)
    → i < length (ip ∷ ips)
    → next + length (ip ∷ ips) ≤ two63
    → Memᴰ (to (get_or (ip ∷ ips) i "")) (dials (length (ip ∷ ips)) next (ip ∷ ips))
dials-IsFull next ip ips i h b =
    let (k, before, position) = turn (length (ip ∷ ips)) next i h in
    let small : next + k < two63 = omega (arith, before, b) in
    subst (λ d. Memᴰ d (dials (length (ip ∷ ips)) next (ip ∷ ips)))
      (rw (lt→ltb (next + k) two63 small) (ap (λ j. to (get_or (ip ∷ ips) j "")) position))
      (dials-mem (length (ip ∷ ips)) next k ip ips before b)
