-- ===== src/Waiting/Tests.antt =====
-- A wait in which the third dial succeeds.
use vela_dns.Base.{◌+◌, ◌*◌, ◌≡◌, refl, false, ◌==◌, some, arith}
use vela_dns.Waiting.{World, connected, wait_for_tcp, pause}
use vela_dns.Waiting.Laws.{IsPaced, IsEnded, wait_for_tcp-IsEnded}

abbrev world : World
world i = record { now = 7 + pause * i; connects = i == 2; canceled = false }

third_dial : wait_for_tcp 32 world 5 3_000_000_000 ≡ some connected
unfolding wait_for_tcp
third_dial = refl

world-IsPaced : IsPaced 5 world
world-IsPaced = record { begins = omega arith; pauses = λ i. omega arith }

wait_for_tcp-IsEnded_example :
    (e : IsEnded 32 world 3_000_000_005 0) × (wait_for_tcp 32 world 5 3_000_000_000
      ≡ some e.outcome)
wait_for_tcp-IsEnded_example = wait_for_tcp-IsEnded world 5 3_000_000_000 world-IsPaced
