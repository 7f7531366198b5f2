-- ===== src/Doh/Service.antt =====
-- ServeDNS of cmd/veladns/dohbridge.go over the exchanges of its upstreams: startDoHBridge makes
-- each upstream's exchange a resolver. The state is the one that all upstreams share.
use mathlib.Core.List.{Memᴰ}
use vela_dns.Base.{
  ℕ, ◌≡◌, ◌≢◌, refl, sym, ap, ◌∙◌, Bool, true, false, Bool-cases, inl, inr, Option, none, some,
  List, [], ◌∷◌, map, All, subst, if◌then◌else◌,
}
use vela_dns.Runtime.{RuntimeState}
use vela_dns.Doh.{acquire}
use vela_dns.Doh.Exchange.{
  Msg, Error, in_backoff, Result, ok, err, Transport, Upstream, exchange_once, exchange, settle,
}
use vela_dns.Doh.Bridge.{Answer, Served, give_up, serve_from, serve_dns}
use vela_dns.Doh.Probing.{exchange-first, settle-result}

-- What an upstream meets while the query waits for it: its transport, the times at which its
-- exchange starts and ends, and what ctx.Err() says after it.
pub record Round : Type 0 where
  pub upstream : Upstream
  pub transport : Transport
  pub started : ℕ
  pub now : ℕ
  pub context_end : Option Error

abbrev pub hold : RuntimeState → Upstream → Upstream
hold state u = record u { state = state }

module _ (rand : ℕ → ℕ) (set_rcode : Msg → ℕ → Msg) (query : Msg) where
  -- The upstreams afterwards, the shared state, and what is served.
  abbrev pub stop : Upstream → List Round → Served → List Upstream × RuntimeState × Served
  stop u rest served = (u ∷ map (λ r. r.upstream) rest, u.state, served)

  abbrev pub go_on :
      Upstream
      → List Round
      → Result Msg
      → Option Error
      → List Upstream × RuntimeState × Served
      → List Upstream × RuntimeState × Served
  go_on u rest (ok m) over further = stop u rest (record { written = m; warned = none })
  go_on u rest (err e) (some over) further = stop u rest (give_up set_rcode query (some over))
  go_on u rest (err e) none (us, state, served) = (u ∷ us, state, served)

  abbrev pub error_of : Result Msg → Option Error
  error_of (ok m) = none
  error_of (err e) = some e

  unfoldable pub serve_rounds :
      Option Error → RuntimeState → List Round → List Upstream × RuntimeState × Served
  unfolding give_up
  serve_rounds last state [] = ([], state, give_up set_rcode query last)
  serve_rounds last state (r ∷ rest) =
      let (u, result) = exchange rand r.transport r.started r.now query (hold state r.upstream) in
      go_on u rest result r.context_end (serve_rounds (error_of result) u.state rest)

  -- The answer that a resolver gives, whatever the state is.
  abbrev pub answer_of : Result Msg → Option Error → Answer
  answer_of (ok m) over = record { response = some m; error = none; context_end = over }
  answer_of (err e) over = record { response = none; error = some e; context_end = over }

  unfoldable pub answer : Round → Answer
  answer r = answer_of (exchange rand r.transport r.started r.now query r.upstream).1 r.context_end

  settle-held :
      (started now : ℕ) (probe : Bool) (r : Result Msg) (u v : Upstream)
      → (settle rand started now probe r u).1 ≡ (settle rand started now probe r v).1
  unfolding settle
  settle-held started now probe (ok m) u v = refl
  settle-held started now probe (err e) u v = refl

  exchange-held :
      (r : Round) (state : RuntimeState)
      → (exchange rand r.transport r.started r.now query (hold state r.upstream)).1
        ≡ (exchange rand r.transport r.started r.now query r.upstream).1
  unfolding exchange
  exchange-held r state = elim (Bool-cases (acquire r.started r.upstream.breaker).2) [
    | inl granted ↦ rw granted (settle-held _ _ _ _ _ _)
    | inr refused ↦ rw refused refl
  ]

  served_as :
      (last : Option Error) (result : Result Msg) (over : Option Error) (u : Upstream)
      (rest : List Round) (further : List Upstream × RuntimeState × Served) (answers : List Answer)
      → further.2 ≡ serve_from set_rcode query (error_of result) answers
      → (go_on u rest result over further).2
        ≡ serve_from set_rcode query last (answer_of result over ∷ answers)
  unfolding serve_from
  served_as last (ok m) over u rest further answers h = refl
  served_as last (err e) (some over) u rest further answers h = refl
  served_as last (err e) none u rest further answers h = h

  served_none :
      (last : Option Error) → give_up set_rcode query last ≡ serve_from set_rcode query last []
  unfolding serve_from
  served_none last = refl

  serve_rounds_from :
      (rounds : List Round) (last : Option Error) (state : RuntimeState)
      → (serve_rounds last state rounds).2 ≡ serve_from set_rcode query last (map answer rounds)
  unfolding serve_rounds answer
  serve_rounds_from [] last state = served_none last
  serve_rounds_from (r ∷ rest) last state =
      let (u, result) = exchange rand r.transport r.started r.now query (hold state r.upstream) in
      subst
        (λ x.
          (serve_rounds last state (r ∷ rest)).2
          ≡ serve_from set_rcode query last (answer_of x r.context_end ∷ map answer rest))
        (exchange-held r state)
        (served_as last result r.context_end u rest _ (map answer rest)
          (serve_rounds_from rest (error_of result) u.state))

  -- What is served over the exchanges of the upstreams, each of which finds the numbers that the
  -- ones before it left, is what the loop over resolvers makes of their answers one by one.
  pub serve_rounds-serve_dns :
      (state : RuntimeState) (rounds : List Round)
      → (serve_rounds none state rounds).2 ≡ serve_dns set_rcode query (map answer rounds)
  unfolding serve_dns
  serve_rounds-serve_dns state rounds = serve_rounds_from rounds none state

  -- An upstream that takes queries, and whose transport brings an answer that is accepted.
  pub record IsAnswering (r : Round) : Type 0 where
    pub in_use : r.upstream.breaker.backoff_step ≡ 0
    pub accepted : (m : Msg) × (exchange_once r.transport query ≡ ok m)

  pub record IsServed (rounds : List Round) (served : Served) : Type 0 where
    pub unwarned : served.warned ≡ none
    pub from : (r : Round) × Memᴰ r rounds × (exchange_once r.transport query ≡ ok served.written)

  exchange-result :
      (r : Round)
      → (exchange rand r.transport r.started r.now query r.upstream).1 ≡ (
          if (acquire r.started r.upstream.breaker).2
          then exchange_once r.transport query
          else err in_backoff)
  unfolding exchange
  exchange-result r = elim (Bool-cases (acquire r.started r.upstream.breaker).2) [
    | inl granted ↦ rw granted (settle-result _ _ _ _ _ _)
    | inr refused ↦ rw refused refl
  ]

  ok-ne-err : {m : Msg} {e : Error} → ok m ≢ err e
  ok-ne-err h = cc

  granted_ok :
      (granted : Bool) (r : Result Msg) {m : Msg}
      → (if granted then r else err in_backoff) ≡ ok m
      → r ≡ ok m
  granted_ok true r h = h
  granted_ok false r h = absurd (cc)

  exchange-ok :
      (r : Round) {m : Msg}
      → (exchange rand r.transport r.started r.now query r.upstream).1 ≡ ok m
      → exchange_once r.transport query ≡ ok m
  exchange-ok r h =
      granted_ok (acquire r.started r.upstream.breaker).2 (exchange_once r.transport query)
        (sym (exchange-result r) ∙ h)

  first_round :
      (r : Round) (rest : List Round) (last : Option Error) (result : Result Msg)
      → (exchange rand r.transport r.started r.now query r.upstream).1 ≡ result
      → r.context_end ≡ none
      → ((e : Error)
          → result ≡ err e
          → IsServed rest (serve_from set_rcode query (some e) (map answer rest)))
      → IsServed (r ∷ rest) (serve_from set_rcode query last (answer r ∷ map answer rest))
  unfolding serve_from answer
  first_round r rest last (ok m) q c go =
      rw q (record { unwarned = refl; from = (r, Memᴰ.head refl, exchange-ok r q) })
  first_round r rest last (err e) q c go =
      let h = go e refl in
      rw (q, c) (record { unwarned = h.unwarned; from = (h.from.0, Memᴰ.tail h.from.1, h.from.2) })

  exchange-answering :
      (r : Round)
      → IsAnswering r
      → (e : Error) → (exchange rand r.transport r.started r.now query r.upstream).1 ≢ err e
  exchange-answering r a e q =
      let (m, accepted) = a.accepted in
      let answered : (exchange rand r.transport r.started r.now query r.upstream).1
          ≡ exchange_once r.transport query =
        ap (λ x. x.1) (exchange-first rand r.transport r.started r.now query r.upstream a.in_use)
        ∙ settle-result rand r.started r.now false (exchange_once r.transport query) r.upstream in
      absurd (ok-ne-err (sym accepted ∙ sym answered ∙ q))

  IsServed-from :
      (rounds : List Round) (last : Option Error) (r : Round)
      → All (λ r. r.context_end ≡ none) rounds
      → Memᴰ r rounds
      → IsAnswering r
      → IsServed rounds (serve_from set_rcode query last (map answer rounds))
  IsServed-from [] last r on m a = elim m [ ]
  IsServed-from (r' ∷ rest) last r (here, on) (Memᴰ.head e) a =
      first_round r' rest last _ refl here
        (λ x q. absurd (exchange-answering r' (subst IsAnswering e a) x q))
  IsServed-from (r' ∷ rest) last r (here, on) (Memᴰ.tail m) a =
      first_round r' rest last _ refl here (λ x q. IsServed-from rest (some x) r on m a)

  -- If some upstream takes queries and its transport brings an answer that is accepted, and the
  -- deadline does not pass, then a client gets an accepted answer of one of the upstreams, and no
  -- failure is warned of, whatever the other upstreams do.
  pub serve_rounds-IsServed :
      (state : RuntimeState) (rounds : List Round) (r : Round)
      → All (λ r. r.context_end ≡ none) rounds
      → Memᴰ r rounds
      → IsAnswering r
      → IsServed rounds (serve_rounds none state rounds).2
  serve_rounds-IsServed state rounds r on m a =
      rw (serve_rounds_from rounds none state) (IsServed-from rounds none r on m a)
