-- ===== src/Doh/Life.antt =====
-- The life of a started bridge: serve, the goroutine that waits for the end of the context, and
-- close, of cmd/veladns/dohbridge.go. A step is what one goroutine does between two waits; the
-- goroutines take theirs in any order.
use vela_dns.Base.{ℕ, ◌+◌, ◌≡◌, Bool, true, false, not, ◌&&◌, if◌then◌else◌, List, ◌∷◌}
use vela_dns.Wire.{Component}
use vela_dns.Runtime.{RuntimeState, update}

pub data Network : Type 0 where
  udp tcp : Network

-- The state; whether the servers still serve; whether the context has ended, and whether the
-- goroutine still waits for that; whether close has run; a server for each call of its Shutdown; and
-- how many lines of an error have been logged.
pub record Life : Type 0 where
  pub state : RuntimeState
  pub serving_udp : Bool
  pub serving_tcp : Bool
  pub done : Bool
  pub watching : Bool
  pub closed : Bool
  pub shut : List Network
  pub errors : ℕ

abbrev pub is_serving : Network → Life → Bool
is_serving udp l = l.serving_udp
is_serving tcp l = l.serving_tcp

abbrev pub set_down : Component → Component
set_down c = record c { up = false }

abbrev pub down : RuntimeState → RuntimeState
down s = update "doh_bridge" set_down s

-- Both servers of a bridge that was started are there.
unfoldable pub close : Life → Life
close l = if l.closed then l else record l { closed = true; shut = udp ∷ tcp ∷ l.shut }

abbrev pub returned : Network → Life → Life
returned udp l = record l { serving_udp = false }
returned tcp l = record l { serving_tcp = false }

-- The end of a server, with an error or without.
unfoldable pub serve_ended : Network → Bool → Life → Life
serve_ended network failed l =
    let l' = returned network l in
    if failed && not l.done then record l' { state = down l.state; errors = l.errors + 1 } else l'

-- The goroutine behind its wait.
unfoldable pub context_seen : Life → Life
unfolding close
context_seen l = let l' = close l in record l' { state = down l'.state; watching = false }

pub data Step : Life → Life → Type 0 where
  a_server_ends :
      (network : Network) (failed : Bool) (l : Life)
      → is_serving network l ≡ true
      → Step l (serve_ended network failed l)
  the_context_ends : (l : Life) → Step l (record l { done = true })
  the_end_is_seen : (l : Life) → l.done ≡ true → l.watching ≡ true → Step l (context_seen l)
  main_returns : (l : Life) → Step l (close l)

pub data Steps (l : Life) : Life → Type 0 where
  start : Steps l l
  further : {l' l'' : Life} → Steps l l' → Step l' l'' → Steps l l''
