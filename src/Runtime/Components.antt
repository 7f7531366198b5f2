-- ===== src/Runtime/Components.antt =====
-- What the state shows of a component, before and after an update.
use Prim.Native.String.{String}
use text.Mathlib.Text.{◌==◌}
use text.Mathlib.TextEquality.{eq_iff}
use vela_dns.Base.{◌≡◌, refl, ◌∙◌, false}
use vela_dns.Base.Dict.{at_or, at_or-store}
use vela_dns.Wire.{Component, zero_component}
use vela_dns.Runtime.{RuntimeState, update}

abbrev pub component_of : String → RuntimeState → Component
component_of name s = at_or zero_component name s.components

pub update_self :
    (name : String) (fn : Component → Component) (s : RuntimeState)
    → component_of name (update name fn s) ≡ fn (component_of name s)
unfolding update
update_self name fn s =
    at_or-store zero_component name name (fn (component_of name s)) s.components
    ∙ rw ((eq_iff name name).1 refl) refl

pub update_other :
    (name j : String) (fn : Component → Component) (s : RuntimeState)
    → (name == j) ≡ false
    → component_of j (update name fn s) ≡ component_of j s
unfolding update
update_other name j fn s e =
    at_or-store zero_component name j (fn (component_of name s)) s.components ∙ rw e refl
