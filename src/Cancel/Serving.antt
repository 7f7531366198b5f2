-- ===== src/Cancel/Serving.antt =====
-- A TCP listener that is served: the goroutine of initPlugin and Close of
-- internal/tcpserverplugin/server.go. The goroutine ends when ServeTCP does, with an error or none,
-- tells MosDNS, which then shuts down, and closes the listener; Close may come before or after it.
use vela_dns.Base.{ap, ◌≡◌, refl, Bool, true, false, Option, List, [], ◌∷◌}

-- Whether ServeTCP runs, whether the listener is closed, and what MosDNS has been told.
pub record Served (E : Type 0) : Type 0 where
  pub running : Bool
  pub is_closed : Bool
  pub told : List (Option E)

module _ {E : Type 0} where
  abbrev pub started : Served E
  started = record { running = true; is_closed = false; told = [] }

  unfoldable pub serve_ended : Option E → Served E → Served E
  serve_ended e s = record { running = false; is_closed = true; told = e ∷ s.told }

  -- Whether it gives an error, that of a listener that is closed already.
  unfoldable pub close : Served E → Served E × Bool
  close s = (record s { is_closed = true }, s.is_closed)

  -- What a listener may come to.
  pub data Reached : Served E → Type 0 where
    at_start : Reached started
    at_end :
        (e : Option E) {s : Served E} → s.running ≡ true → Reached s → Reached (serve_ended e s)
    at_close : {s : Served E} → Reached s → Reached (close s).0

  -- MosDNS is told once, when the server has ended, and the listener is closed then.
  pub record IsTold (s : Served E) : Type 0 where
    pub before : s.running ≡ true → s.told ≡ []
    pub behind : s.running ≡ false → (e : Option E) × (s.told ≡ e ∷ []) × (s.is_closed ≡ true)

  pub Reached-IsTold : {s : Served E} → Reached s → IsTold s
  unfolding serve_ended close
  Reached-IsTold at_start = record { before = λ r. refl; behind = λ r. absurd (cc) }
  Reached-IsTold (at_end e running r) = record {
    before = λ k. absurd (cc);
    behind = λ k. (e, ap (λ told. e ∷ told) ((Reached-IsTold r).before running), refl);
  }
  Reached-IsTold (at_close r) = record {
    before = λ k. (Reached-IsTold r).before k;
    behind = λ k. let (e, told, shut) = (Reached-IsTold r).behind k in (e, told, refl);
  }
