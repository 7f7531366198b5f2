-- ===== src/Registry.antt =====
-- The metrics registry of Prometheus as the plugins use it, and the loops over their collectors:
-- initPlugin and Close of internal/circuitplugin/circuit.go. A collector stands for its first
-- description: the name of the metric and the value of its label. The registry is an argument; its
-- laws are the documented ones: Register refuses a collector that is there, and adds just the one
-- that it is given, and Unregister removes just that one.
pub mod Laws
mod Tests
use Prim.Native.String.{String}
use text.Mathlib.Text.{◌==◌}
use vela_dns.Base.{◌≡◌, Bool, true, false, not, ◌&&◌, ◌||◌, Option, none, some, List, [], ◌∷◌}

abbrev pub Collector : Type 0
Collector = String × String

abbrev pub same : Collector → Collector → Bool
same (name, tag) (name', tag') = name == name' && tag == tag'

pub record Registry : Type 1 where
  pub State : Type 0
  pub has : Collector → State → Bool
  pub register : Collector → State → Option State
  pub unregister : Collector → State → State
  pub refuses : (c : Collector) (s s' : State) → register c s ≡ some s' → has c s ≡ false
  pub adds :
      (c : Collector) (s s' : State)
      → register c s ≡ some s'
      → (d : Collector) → has d s' ≡ (same c d || has d s)
  pub removes : (c d : Collector) (s : State) → has d (unregister c s) ≡ (not (same c d) && has d s)

module _ (reg : Registry) where
  -- The loop that registers the collectors up to the first that is refused: whether all were taken,
  -- and the registry.
  unfoldable pub register_all : List Collector → reg.State → Bool × reg.State
  register_all [] s = (true, s)
  register_all (c ∷ cs) s = elim (reg.register c s) [
    | none ↦ (false, s)
    | some s' ↦ register_all cs s'
  ]

  unfoldable pub unregister_all : List Collector → reg.State → reg.State
  unregister_all [] s = s
  unregister_all (c ∷ cs) s = unregister_all cs (reg.unregister c s)
