-- ===== src/Doh/Warnings.antt =====
-- The warning that all upstreams have failed is written at most once in thirty seconds.
use vela_dns.Base.{ℕ, ◌+◌, ◌*◌, ◌≤◌, List, [], ◌∷◌, arith, if◌then◌else◌}
use vela_dns.Backoff.{second}
use vela_dns.Doh.Bridge.{warn_unavailable}

-- The times of the warnings that are written, of those at which one is due.
unfoldable pub warnings : ℕ → List ℕ → List ℕ
unfolding warn_unavailable
warnings last [] = []
warnings last (now ∷ later) =
    let (last', written) = warn_unavailable now last in
    let rest = warnings last' later in if written then now ∷ rest else rest

-- Each time is at least thirty seconds after the one before.
abbrev pub IsSpaced : ℕ → List ℕ → Type 0
IsSpaced last [] = Unit
IsSpaced last (now ∷ later) = (last + 30 * second ≤ now) × IsSpaced now later

-- Whatever the times at which all upstreams fail, the warnings written are spaced.
pub warnings-IsSpaced : (times : List ℕ) (last : ℕ) → IsSpaced last (warnings last times)
unfolding warnings
warnings-IsSpaced [] last = tt
warnings-IsSpaced (now ∷ later) last =
    ground (arith, warnings-IsSpaced later now, warnings-IsSpaced later last)
