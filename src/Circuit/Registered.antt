-- ===== src/Circuit/Registered.antt =====
-- initPlugin and Close of internal/circuitplugin/circuit.go with what they do to the metrics
-- registry. Whether the manager has the primary plugin is an argument.
use Prim.Native.String.{String}
use vela_dns.Base.{◌≡◌, refl, Bool, true, false, List, [], ◌∷◌, if◌then◌else◌}
use vela_dns.Registry.{Collector, Registry, register_all, unregister_all}
use vela_dns.Registry.Laws.{
  HasSame, Stopped, register_all-Stopped, unregister_all-register_all, register_all_refused,
}
use vela_dns.Circuit.Settings.{Args, Plugin, new_plugin}

pub data InitError : Type 0 where
  no_primary not_registered : InitError

pub record Installed : Type 0 where
  pub plugin : Plugin
  pub collectors : List Collector

pub data Result : Type 0 where
  err : InitError → Result
  ok : Installed → Result

abbrev pub circuit_collectors : String → List Collector
circuit_collectors tag =
    ("veladns_circuit_state", tag)
    ∷ ("veladns_circuit_backoff_seconds", tag)
    ∷ ("veladns_circuit_failures_total", tag)
    ∷ ("veladns_circuit_bypass_total", tag)
    ∷ []

module _ (reg : Registry) where
  unfoldable pub init_plugin : Bool → String → Args → reg.State → Result × reg.State
  unfolding register_all
  init_plugin has_primary tag args s =
      let collectors = circuit_collectors tag in
      let (all, s') = register_all reg collectors s in
      if has_primary
      then (if all
          then (ok (record { plugin = new_plugin args; collectors = collectors }), s')
          else (err not_registered, s'))
      else (err no_primary, s)

  unfoldable pub close : Installed → reg.State → reg.State
  unfolding unregister_all
  close installed s = unregister_all reg installed.collectors s

  -- What is known of the plugin and the registry after a start from `s`.
  pub record IsOpened (tag : String) (args : Args) (s s' : reg.State) (i : Installed) : Type 0 where
    pub settings : i.plugin ≡ new_plugin args
    pub registered : register_all reg (circuit_collectors tag) s ≡ (true, s')
    pub released : HasSame reg s (close i s')

  -- What is left by a start: the plugin that is asked for, with its collectors registered, which
  -- closing it takes out again; nothing; or collectors that refuse a further start.
  abbrev pub Leaves : String → Args → reg.State → Result → reg.State → Type 0
  Leaves tag args s (ok i) s' = IsOpened tag args s s' i
  Leaves tag args s (err no_primary) s' = s' ≡ s
  Leaves tag args s (err not_registered) s' =
      Stopped reg (circuit_collectors tag) s s'
      × (init_plugin true tag args s' ≡ (err not_registered, s'))

  by_registration :
      (has_primary : Bool) (tag : String) (args : Args) (s : reg.State) (o : Bool × reg.State)
      → register_all reg (circuit_collectors tag) s ≡ o
      → let i : Installed = record {
        plugin = new_plugin args;
        collectors = circuit_collectors tag;
      } in
        let given : Result × reg.State =
          (if has_primary
            then (if o.0 then (ok i, o.1) else (err not_registered, o.1))
            else (err no_primary, s)) in
        Leaves tag args s given.0 given.1
  by_registration false tag args s o e = refl
  by_registration true tag args s (true, s') e = record {
    settings = refl;
    registered = e;
    released = unfold close in unregister_all-register_all reg (circuit_collectors tag) s s' e;
  }
  by_registration true tag args s (false, s') e = (
    register_all-Stopped reg (circuit_collectors tag) s s' e,
    unfold init_plugin in rw (register_all_refused reg (circuit_collectors tag) s s' e) refl,
  )

  -- A start of the circuit gives a plugin with the settings of its arguments, whose four collectors
  -- are registered, and closing it leaves the registry with what it had before; or it finds no
  -- primary plugin and leaves the registry as it was; or one of the four is refused, by the registry
  -- that is left: this has the collectors before that one, none of which it had before the start,
  -- beside what it had, and a further start with this tag is refused too and changes nothing.
  pub init_plugin-Leaves :
      (has_primary : Bool) (tag : String) (args : Args) (s : reg.State)
      → let given = init_plugin has_primary tag args s in Leaves tag args s given.0 given.1
  unfolding init_plugin
  init_plugin-Leaves has_primary tag args s =
      by_registration has_primary tag args s (register_all reg (circuit_collectors tag) s) refl
