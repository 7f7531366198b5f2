-- ===== src/Health/Reported.antt =====
-- The health check on a state that the supervisor process has sent.
use Prim.Native.String.{String}
use vela_dns.Base.{
  ℕ, ◌+◌, ◌*◌, ◌≤◌, ◌<◌, ◌≡◌, refl, ap, ◌∙◌, Bool, true, false, not, ◌&&◌, ◌||◌, ltb, if◌then◌else◌,
  Option, none, some, arith,
}
use vela_dns.Base.Dict.{find, at_or, value_or}
use vela_dns.Base.Int64.{two63}
use vela_dns.Backoff.{second}
use vela_dns.Text.{Bytes}
use vela_dns.Wire.{Component, Snapshot, zero_component}
use vela_dns.Runtime.{RuntimeState, unix_epoch, snapshot}
use vela_dns.Runtime.Components.{component_of}
use vela_dns.Health.{Plugin, read_message, is_down, ready, not_ready, check_supervisor_health}
use vela_dns.Health.Laws.{is_serving, later-checked}

-- The supervisor counts on the component, and it is not up.
abbrev pub is_missing : String → RuntimeState → Bool
is_missing name s = (component_of name s).enabled && not (component_of name s).up

down_found :
    (o : Option Component)
    → elim o as (λ x. Bool) [ some c ↦ c.enabled && not c.up | none ↦ false ]
      ≡ ((value_or zero_component o).enabled && not (value_or zero_component o).up)
down_found none = refl
down_found (some c) = refl

is_down-snapshot :
    (name : String) (taken : ℕ) (s : RuntimeState)
    → is_down name (snapshot taken s) ≡ is_missing name s
unfolding snapshot at_or
is_down-snapshot name taken s = down_found (find name s.components)

stamped :
    (taken : ℕ) (s : RuntimeState) → unix_epoch + second ≤ taken → 0 < (snapshot taken s).timestamp
unfolding snapshot
stamped taken s h = omega (arith, h)

is_serving-snapshot :
    (taken passed : ℕ) (s : RuntimeState)
    → unix_epoch + second ≤ taken
    → is_serving (snapshot taken s) passed
      ≡ not (ltb (5 * second) passed || is_missing "mosdns" s || is_missing "doh_bridge" s)
is_serving-snapshot taken passed s h =
    let positive = stamped taken s h in
    rw (is_down-snapshot "mosdns" taken s, is_down-snapshot "doh_bridge" taken s) (ground arith)

-- If the JSON decoder reads the state that was sent from its encoding, then the health check, less than 2^63 ns after
-- the plugin has received a state of the supervisor that was taken at least a second after 1970,
-- refuses exactly if that was more than five seconds ago, or mosdns or the bridge is enabled and
-- not up in that state, whatever the plugin knew before.
pub snapshot-checked :
    (encode : Snapshot → Bytes) (decode : Bytes → Option Snapshot) (taken received passed : ℕ)
    (s : RuntimeState) (p : Plugin)
    → decode (encode (snapshot taken s)) ≡ some (snapshot taken s)
    → unix_epoch + second ≤ taken
    → passed < two63
    → check_supervisor_health (
        some
          (ready (received + passed) (read_message decode received (encode (snapshot taken s)) p)))
      ≡ (if ltb (5 * second) passed || is_missing "mosdns" s || is_missing "doh_bridge" s
          then some not_ready
          else none)
unfolding read_message
snapshot-checked encode decode taken received passed s p round h b =
    let late : Bool =
      ltb (5 * second) passed || is_missing "mosdns" s || is_missing "doh_bridge" s in
    rw (read_message, round)
      (later-checked (snapshot taken s) received passed b
        ∙ ap (λ v. if v then none else some not_ready) (is_serving-snapshot taken passed s h)
        ∙ turned late)
  where
    turned :
        (v : Bool) → (if not v then none else some not_ready) ≡ (if v then some not_ready else none)
    turned true = refl
    turned false = refl
