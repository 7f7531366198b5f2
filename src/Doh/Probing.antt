-- ===== src/Doh/Probing.antt =====
-- When the probe of the start accepts an upstream.
use mathlib.Core.List.{Memᴰ}
use vela_dns.Base.{
  ℕ, ◌≡◌, ◌↔◌, refl, sym, ap, subst, ◌∙◌, Bool, true, false, not, ◌||◌, ◌==◌, ==_iff, Bool-cases,
  inl, inr, if◌then◌else◌, none, some, List, [], ◌∷◌, arith,
}
use vela_dns.Doh.Accounts.{acquire_in_use}
use vela_dns.Doh.Exchange.{
  Msg, Result, ok, err, Transport, Upstream, exchange, exchange_once, settle,
}
use vela_dns.Doh.Startup.{
  type_a, type_rrsig, rcode_success, returned, scan, judge, judge_flags, probe_query, Probing,
  probe_doh_upstream,
}

abbrev has : ℕ → List ℕ → Bool
has kind [] = false
has kind (rrtype ∷ answers) = rrtype == kind || has kind answers

has→mem : (kind : ℕ) (answers : List ℕ) → has kind answers ≡ true → Memᴰ kind answers
has→mem kind [] h = absurd (cc)
has→mem kind (rrtype ∷ answers) h = elim (Bool-cases (rrtype == kind)) [
  | inl found ↦ Memᴰ.head (sym ((==_iff rrtype kind).0 found))
  | inr other ↦ Memᴰ.tail (has→mem kind answers (ground arith))
]

mem→has : (kind : ℕ) (answers : List ℕ) → Memᴰ kind answers → has kind answers ≡ true
mem→has kind [] m = elim m [ ]
mem→has kind (rrtype ∷ answers) (Memᴰ.head e) = rw ((==_iff rrtype kind).1 (sym e)) refl
mem→has kind (rrtype ∷ answers) (Memᴰ.tail m) = let h = mem→has kind answers m in ground arith

scan-has :
    (a s : Bool) (answers : List ℕ)
    → scan a s answers ≡ (a || has type_a answers, s || has type_rrsig answers)
unfolding scan
scan-has a s [] = ground arith
scan-has a s (rrtype ∷ answers) =
    scan-has (a || rrtype == type_a) (s || rrtype == type_rrsig) answers ∙ ground arith

-- A response that the probe is content with.
pub record IsSigned (m : Msg) : Type 0 where
  pub succeeded : m.rcode ≡ rcode_success
  pub address : Memᴰ type_a m.answers
  pub signature : Memᴰ type_rrsig m.answers

judge_split :
    (success : Bool) (code : ℕ) (flags : Bool × Bool)
    → (if not success then some (returned code) else judge_flags flags) ≡ none
    → (success ≡ true) × (flags.0 ≡ true) × (flags.1 ≡ true)
judge_split success code flags h = ground arith

judge-none : (m : Msg) → (judge (ok m) ≡ none) ↔ IsSigned m
unfolding judge
judge-none m = (
  λ h.
      let (success, address, signature) =
        judge_split (m.rcode == rcode_success) m.rcode (scan false false m.answers) h in
      record {
        succeeded = (==_iff m.rcode rcode_success).0 success;
        address =
            has→mem type_a m.answers
              (ap (λ f. f.0) (sym (scan-has false false m.answers)) ∙ address);
        signature =
            has→mem type_rrsig m.answers
              (ap (λ f. f.1) (sym (scan-has false false m.answers)) ∙ signature);
      },
  λ g.
      rw
        (
          (==_iff m.rcode rcode_success).1 g.succeeded,
          scan-has false false m.answers,
          mem→has type_a m.answers g.address,
          mem→has type_rrsig m.answers g.signature,
        )
        refl,
)

pub settle-result :
    (rand : ℕ → ℕ) (started now : ℕ) (probe : Bool) (r : Result Msg) (u : Upstream)
    → (settle rand started now probe r u).1 ≡ r
unfolding settle
settle-result rand started now probe (ok m) u = refl
settle-result rand started now probe (err e) u = refl

-- An upstream that is not parked sends the query.
pub exchange-first :
    (rand : ℕ → ℕ) (t : Transport) (started now : ℕ) (query : Msg) (u : Upstream)
    → u.breaker.backoff_step ≡ 0
    → exchange rand t started now query u ≡ settle rand started now false (exchange_once t query) u
unfolding exchange
exchange-first rand t started now query u h = rw (acquire_in_use started u.breaker h) refl

judge-accepts : (r : Result Msg) → (judge r ≡ none) ↔ ((m : Msg) × (r ≡ ok m) × IsSigned m)
unfolding judge
judge-accepts (ok m) = (
  λ a. (m, refl, (judge-none m).0 a),
  λ (n, e, g). (judge-none m).1 (subst IsSigned (sym (ok_same e)) g),
)
  where
    ok_same : {n : Msg} → ok m ≡ ok n → m ≡ n
    ok_same e = cc
judge-accepts (err e) = (λ a. absurd (cc), λ (n, e', g). absurd (cc))

-- The probe of an upstream that is not parked accepts it just where its request comes back with the
-- code of success, an address, and a signature among the answers.
pub probe_doh_upstream-accepts :
    (p : Probing) (u : Upstream)
    → u.breaker.backoff_step ≡ 0
    → ((probe_doh_upstream p u).1 ≡ none)
      ↔ ((m : Msg) × (exchange_once p.transport (probe_query p.id) ≡ ok m) × IsSigned m)
unfolding probe_doh_upstream
probe_doh_upstream-accepts p u h =
    rw
      (
        exchange-first p.rand p.transport p.started p.now (probe_query p.id) u h,
        settle-result p.rand p.started p.now false (exchange_once p.transport (probe_query p.id)) u,
      )
      (judge-accepts (exchange_once p.transport (probe_query p.id)))
