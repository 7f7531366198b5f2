-- ===== src/Doh/Bridge.antt =====
-- ServeDNS and warnUnavailable of cmd/veladns/dohbridge.go.
use vela_dns.Base.{
  ℕ, ◌-◌, ◌*◌, Bool, true, false, ltb, if◌then◌else◌, Option, none, some, List, [], ◌∷◌,
}
use vela_dns.Backoff.{second}
use vela_dns.Doh.Exchange.{Msg, Error}

-- What one resolver gives for the query, and what ctx.Err() says after it. A resolver of the
-- bridge gives a message or an error; the type of the source allows neither and both.
pub record Answer : Type 0 where
  pub response : Option Msg
  pub error : Option Error
  pub context_end : Option Error

-- What ServeDNS does: the message that it writes, and the error that it warns of, if it does.
pub record Served : Type 0 where
  pub written : Msg
  pub warned : Option (Option Error)

abbrev pub rcode_server_failure : ℕ
rcode_server_failure = 2

-- `set_rcode` is SetRcode of the DNS library: the reply to a query with a code and no answer.
module _ (set_rcode : Msg → ℕ → Msg) where
  unfoldable pub give_up : Msg → Option Error → Served
  give_up query last = record { written = set_rcode query rcode_server_failure; warned = some last }

  abbrev pub next : Option Error → Msg → Option Error → Served → Served
  next (some e) query last rest = give_up query (some e)
  next none query last rest = rest

  -- The loop over the resolvers, with the last error.
  unfoldable pub serve_from : Msg → Option Error → List Answer → Served
  unfolding give_up
  serve_from query last [] = give_up query last
  serve_from query last (a ∷ rest) = elim a.error [
    | none ↦ elim a.response [
      | some m ↦ record { written = m; warned = none }
      | none ↦ next a.context_end query none (serve_from query none rest)
    ]
    | some e ↦ next a.context_end query (some e) (serve_from query (some e) rest)
  ]

  unfoldable pub serve_dns : Msg → List Answer → Served
  unfolding serve_from
  serve_dns query answers = serve_from query none answers

-- warnUnavailable: the time of the last warning, and whether this one is written.
unfoldable pub warn_unavailable : ℕ → ℕ → ℕ × Bool
warn_unavailable now last_warn =
    if ltb (now - last_warn) (30 * second) then (last_warn, false) else (now, true)
