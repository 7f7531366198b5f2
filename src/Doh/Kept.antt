-- ===== src/Doh/Kept.antt =====
-- What a started bridge shows of itself, whatever its goroutines do.
use vela_dns.Base.{ℕ, ◌+◌, ◌≤◌, ◌≡◌, Bool, true, false, ◌&&◌, ◌==◌, if◌then◌else◌, [], ◌∷◌}
use vela_dns.Runtime.Components.{component_of}
use vela_dns.Doh.Life.{udp, tcp, Life}

abbrev running : Bool → ℕ
running true = 1
running false = 0

-- What holds at any time of the life.
pub record IsKept (l : Life) : Type 0 where
  pub enabled : (component_of "doh_bridge" l.state).enabled ≡ true
  pub shown : (component_of "doh_bridge" l.state).up ≡ (l.errors == 0 && l.watching)
  pub told : l.errors + running l.serving_udp + running l.serving_tcp ≤ 2
  pub once : l.shut ≡ (if l.closed then udp ∷ tcp ∷ [] else [])
  pub shut_down : l.watching ≡ false → (l.closed ≡ true) × (l.done ≡ true)

pub record IsStart (l : Life) : Type 0 where
  pub enabled : (component_of "doh_bridge" l.state).enabled ≡ true
  pub up : (component_of "doh_bridge" l.state).up ≡ true
  pub fresh : (l.errors ≡ 0) × (l.watching ≡ true) × (l.closed ≡ false) × (l.shut ≡ [])
