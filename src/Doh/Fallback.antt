-- ===== src/Doh/Fallback.antt =====
-- The bridge takes the first usable answer of its resolvers in order, within its deadline.
use vela_dns.Base.{
  ℕ, ◌≡◌, ◌≢◌, refl, Option, none, some, List, [], ◌∷◌, ◌++◌, arith, All, Option-cases, inl, inr,
  ◌∙◌, sym,
}
use vela_dns.Doh.Exchange.{Msg, Error}
use vela_dns.Doh.Bridge.{Answer, give_up, serve_from, serve_dns, next, rcode_server_failure}

-- The resolver fails, and there is time left for the next one.
pub record IsPassed (a : Answer) : Type 0 where
  pub failed : (e : Error) × (a.error ≡ some e)
  pub goes_on : a.context_end ≡ none

-- The resolver gives no message that can be written.
abbrev pub IsUnusable : Answer → Type 0
IsUnusable a = a.error ≡ none → a.response ≡ none

some-ne-none : {A : Type 0} {a : A} → some a ≢ none
some-ne-none e = cc

module _ (set_rcode : Msg → ℕ → Msg) (query : Msg) where
  serve_from_passed :
      (m : Msg) (last : Option Error) (before : List Answer) (a : Answer) (after : List Answer)
      → All IsPassed before
      → a.error ≡ none
      → a.response ≡ some m
      → serve_from set_rcode query last (before ++ a ∷ after)
        ≡ record { written = m; warned = none }
  unfolding serve_from
  serve_from_passed m last [] a after h e r = ground arith
  serve_from_passed m last (b ∷ before) a after (p, h) e r =
      rw (p.failed.1, p.goes_on) (serve_from_passed m _ before a after h e r)

  -- After resolvers that fail in time, the first one that gives a message decides: it is written,
  -- and the resolvers behind it do not matter.
  pub serve_dns_first :
      (m : Msg) (before : List Answer) (a : Answer) (after : List Answer)
      → All IsPassed before
      → a.error ≡ none
      → a.response ≡ some m
      → serve_dns set_rcode query (before ++ a ∷ after) ≡ record { written = m; warned = none }
  unfolding serve_dns
  serve_dns_first m before a after h e r = serve_from_passed m none before a after h e r

  serve_from_skip :
      (last : Option Error) (a : Answer) (rest : List Answer)
      → IsUnusable a
      → serve_from set_rcode query last (a ∷ rest)
        ≡ next set_rcode a.context_end query a.error (serve_from set_rcode query a.error rest)
  unfolding serve_from
  serve_from_skip last a rest u = elim (Option-cases a.error) [
    | inl e ↦ rw (e, u e) refl
    | inr (x, e) ↦ rw e refl
  ]

  serve_from_unusable :
      (last : Option Error) (answers : List Answer)
      → All IsUnusable answers
      → (last' : Option Error) × (serve_from set_rcode query last answers
          ≡ give_up set_rcode query last')
  unfolding serve_from
  serve_from_unusable last [] h = (last, refl)
  serve_from_unusable last (a ∷ answers) (u, h) = elim (Option-cases a.context_end) [
    | inl goes_on ↦
        let (last', e) = serve_from_unusable a.error answers h in
        (last', serve_from_skip last a answers u ∙ rw goes_on e)
    | inr (x, over) ↦ (some x, serve_from_skip last a answers u ∙ rw over refl)
  ]

  serve_from_deadline :
      (last : Option Error) (before : List Answer) (a : Answer) (after : List Answer) (e : Error)
      → All IsPassed before
      → IsUnusable a
      → a.context_end ≡ some e
      → serve_from set_rcode query last (before ++ a ∷ after) ≡ give_up set_rcode query (some e)
  serve_from_deadline last [] a after e h u c = serve_from_skip last a after u ∙ rw c refl
  serve_from_deadline last (b ∷ before) a after e (p, h) u c =
      serve_from_skip last b (before ++ a ∷ after) (λ n. absurd (some-ne-none (sym p.failed.1 ∙ n)))
      ∙ rw p.goes_on (serve_from_deadline b.error before a after e h u c)

  -- With no resolver that gives a message, SERVFAIL is written, and the failure is warned of.
  pub serve_dns_unusable :
      (answers : List Answer)
      → All IsUnusable answers
      → ((serve_dns set_rcode query answers).written ≡ set_rcode query rcode_server_failure)
        × ((serve_dns set_rcode query answers).warned ≢ none)
  unfolding serve_dns give_up
  serve_dns_unusable answers h =
      let (last', e) = serve_from_unusable none answers h in rw e (refl, λ n. some-ne-none n)

  -- Once the deadline has passed no further resolver is asked: SERVFAIL is written, with the end
  -- of the context as the error that is warned of.
  pub serve_dns_deadline :
      (before : List Answer) (a : Answer) (after : List Answer) (e : Error)
      → All IsPassed before
      → IsUnusable a
      → a.context_end ≡ some e
      → serve_dns set_rcode query (before ++ a ∷ after)
        ≡ record { written = set_rcode query rcode_server_failure; warned = some (some e) }
  unfolding serve_dns give_up
  serve_dns_deadline before a after e h u c = serve_from_deadline none before a after e h u c
