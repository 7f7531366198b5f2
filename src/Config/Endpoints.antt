-- ===== src/Config/Endpoints.antt =====
-- The endpoints that parseForwardEndpoint accepts, and that it reads back what JoinHostPort prints.
use vela_dns.Base.{
  ℕ, ◌+◌, ◌≤◌, ◌<◌, ◌≡◌, refl, Bool, true, false, ◌||◌, ◌==◌, Option, none, some, [], ◌∷◌, ◌++◌,
  arith, Bool-cases, Option-cases, inl, inr,
}
use vela_dns.Base.Int64.{two64, slt}
use vela_dns.Text.{Bytes, is_empty, all_bytes, cut}
use vela_dns.Text.Decimal.{is_digit, itoa, spelled, atoi}
use vela_dns.Text.Decimal.Laws.{itoa-digits, atoi-itoa}
use vela_dns.Config.{
  ok, count_byte, is_host_char, is_safe_host, host_and_port, check_port, check_endpoint,
  parse_forward_endpoint, join_host_port,
}

-- A host and a port as the program goes on with them.
pub record IsEndpoint (host port : Bytes) : Type 0 where
  pub safe : is_safe_host host ≡ true
  pub number : ℕ
  pub positive : 1 ≤ number
  pub in_range : number ≤ 65535
  pub canonical : port ≡ itoa number

signed_range : (n : ℕ) → n < two64 → (slt n 1 || slt 65535 n) ≡ false → (1 ≤ n) × (n ≤ 65535)
unfolding slt
signed_range n b h = ground arith

in_range_signed : (n : ℕ) → 1 ≤ n → n ≤ 65535 → (slt n 1 || slt 65535 n) ≡ false
unfolding slt
in_range_signed n low high = ground arith

atoi-lt : (s : Bytes) (n : ℕ) → atoi s ≡ some n → n < two64
unfolding atoi
atoi-lt [] n h = cc
atoi-lt (c ∷ cs) n h = elim (Option-cases (spelled 0 cs)) [
  | inl e ↦ ground arith
  | inr (m, e) ↦ ground arith
]

check_port-IsEndpoint :
    (host h p : Bytes) (o : Option ℕ)
    → is_safe_host host ≡ true
    → ((n : ℕ) → o ≡ some n → n < two64)
    → check_port host o ≡ ok (h, p)
    → IsEndpoint h p
check_port-IsEndpoint host h p none s b e = cc
check_port-IsEndpoint host h p (some n) s b e = elim (Bool-cases (slt n 1 || slt 65535 n)) [
  | inl bad ↦ absurd (ground arith)
  | inr good ↦
      let (low, high) = signed_range n (b n refl) good in
      let same : h ≡ host = ground arith in
      record {
        safe = rw same s;
        number = n;
        positive = low;
        in_range = high;
        canonical = ground arith;
      }
]

check_endpoint-IsEndpoint :
    (o : Option (Bytes × Bytes)) (host port : Bytes)
    → check_endpoint o ≡ ok (host, port)
    → IsEndpoint host port
check_endpoint-IsEndpoint none host port e = cc
check_endpoint-IsEndpoint (some (h, p)) host port e = elim (Bool-cases (is_empty h)) [
  | inl empty ↦ absurd (ground arith)
  | inr filled ↦ elim (Bool-cases (is_safe_host h)) [
    | inl safe ↦
        let q : check_port h (atoi p) ≡ ok (host, port) = ground arith in
        check_port-IsEndpoint h host port (atoi p) safe (atoi-lt p) q
    | inr unsafe ↦ absurd (ground arith)
  ]
]

-- What parseForwardEndpoint returns is a safe host with the canonical decimal of a port in range.
pub parse_forward_endpoint-IsEndpoint :
    (value host port : Bytes)
    → parse_forward_endpoint value ≡ ok (host, port)
    → IsEndpoint host port
unfolding parse_forward_endpoint
parse_forward_endpoint-IsEndpoint value host port e =
    check_endpoint-IsEndpoint (host_and_port value) host port e

count_byte-append : (b : ℕ) (s t : Bytes) → count_byte b (s ++ t) ≡ count_byte b s + count_byte b t
unfolding count_byte
count_byte-append b [] t = omega arith
count_byte-append b (c ∷ cs) t = omega (arith, count_byte-append b cs t)

count_byte_none :
    (p : ℕ → Bool) (b : ℕ) (s : Bytes) → p b ≡ false → all_bytes p s ≡ true → count_byte b s ≡ 0
unfolding count_byte
count_byte_none p b [] n h = refl
count_byte_none p b (c ∷ cs) n h = elim (Bool-cases (c == b)) [
  | inl e ↦ let same : c ≡ b = ground arith in absurd (cc)
  | inr e ↦
      let rest : count_byte b cs ≡ 0 = count_byte_none p b cs n (ground arith) in
      rw (e, rest) (omega arith)
]

cut_first : (b : ℕ) (s t : Bytes) → count_byte b s ≡ 0 → cut b (s ++ (b ∷ t)) ≡ some (s, t)
unfolding count_byte cut
cut_first b [] t h = ground arith
cut_first b (c ∷ cs) t h = elim (Bool-cases (c == b)) [
  | inl e ↦ absurd (ground arith)
  | inr e ↦ let rest : count_byte b cs ≡ 0 = ground arith in rw (e, cut_first b cs t rest) refl
]

no_colons : (host : Bytes) → is_safe_host host ≡ true → count_byte b':' host ≡ 0
no_colons host s = count_byte_none is_host_char b':' host refl (ground arith)

joined :
    (host port : Bytes)
    → is_safe_host host ≡ true
    → join_host_port host port ≡ host ++ (b':' ∷ port)
unfolding join_host_port
joined host port s = rw (no_colons host s) refl

one_colon :
    (host port : Bytes)
    → count_byte b':' host ≡ 0
    → count_byte b':' port ≡ 0
    → count_byte b':' (host ++ (b':' ∷ port)) ≡ 1
one_colon host port h p =
    let total = count_byte-append b':' host (b':' ∷ port) in
    let tail : count_byte b':' (b':' ∷ port) ≡ 1 = unfold count_byte in omega arith in omega arith

endpoint_checked :
    (host port : Bytes) (n : ℕ)
    → is_safe_host host ≡ true
    → atoi port ≡ some n
    → (slt n 1 || slt 65535 n) ≡ false
    → port ≡ itoa n
    → check_endpoint (some (host, port)) ≡ ok (host, port)
endpoint_checked host port n s a r c = ground arith

-- A safe host and a port in range, printed as JoinHostPort does, are read back as they are.
pub parse_forward_endpoint-join_host_port :
    (host port : Bytes)
    → IsEndpoint host port
    → parse_forward_endpoint (join_host_port host port) ≡ ok (host, port)
unfolding parse_forward_endpoint host_and_port
parse_forward_endpoint-join_host_port host port e =
    let n = e.number in
    let quiet : count_byte b':' port ≡ 0 =
      count_byte_none is_digit b':' port refl (rw e.canonical (itoa-digits n)) in
    let read : atoi port ≡ some n = rw e.canonical (atoi-itoa n (omega (arith, e.in_range))) in
    rw
      (
        joined host port e.safe,
        one_colon host port (no_colons host e.safe) quiet,
        cut_first b':' host port (no_colons host e.safe),
      )
      (endpoint_checked host port n e.safe read (in_range_signed n e.positive e.in_range)
        e.canonical)
