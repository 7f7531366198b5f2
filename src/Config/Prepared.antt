-- ===== src/Config/Prepared.antt =====
-- What prepareRuntime brings about when it succeeds.
use Prim.Native.String.{String}
use text.Mathlib.Text.{◌==◌}
use vela_dns.Base.{◌≡◌, refl, ◌∙◌, subst, Bool, true, false, if◌then◌else◌, none, some, arith}
use vela_dns.Text.{Bytes}
use vela_dns.Config.{Config}
use vela_dns.Config.Files.{Os, Files, Action, ◌>>◌, temp}
use vela_dns.Config.Prepare.{
  render, check_config, remove_pids, prepare_files, render_configs, prepare_runtime,
  verbosity_change, level_change, foreign_source, foreign_change, unbound_runtime_config,
  unbound_recursive_runtime_config, mosdns_runtime_config, foreign_runtime_config,
}
use vela_dns.Config.Kept.{Keeps, Keeps-render, Keeps-prepare_files, Keeps-remove_pids, Spared}
use vela_dns.Config.Rendered.{
  seq-ok, kept_through, IsRendered, render-IsRendered, check_config-accepts,
}

abbrev unbound_template : String
unbound_template = "/etc/veladns/unbound.conf.tmpl"

abbrev recursive_template : String
recursive_template = "/etc/veladns/unbound-recursive.conf.tmpl"

abbrev mosdns_template : String
mosdns_template = "/etc/veladns/mosdns.yaml.tmpl"

-- The four templates that the configuration asks for.
pub record Templates (cfg : Config) (f : Files) : Type 0 where
  pub unbound : Bytes
  pub recursive : Bytes
  pub mosdns : Bytes
  pub foreign : Bytes
  pub unbound_found : f "/etc/veladns/unbound.conf.tmpl" ≡ some unbound
  pub recursive_found : f "/etc/veladns/unbound-recursive.conf.tmpl" ≡ some recursive
  pub mosdns_found : f "/etc/veladns/mosdns.yaml.tmpl" ≡ some mosdns
  pub foreign_found : f (foreign_source cfg) ≡ some foreign

pub record IsPrepared (os : Os) (cfg : Config) (unbound recursive mosdns foreign : Bytes)
    (f : Files) : Type 0 where
  pub unbound_is : IsRendered "/run/veladns/unbound.conf" (verbosity_change cfg unbound) f
  pub recursive_is :
      IsRendered "/run/veladns/unbound-recursive.conf" (verbosity_change cfg recursive) f
  pub mosdns_is : IsRendered "/run/veladns/mosdns.yaml" (level_change cfg mosdns) f
  pub foreign_is : IsRendered "/run/veladns/foreign.yaml" (foreign_change cfg foreign) f
  pub unbound_accepted : os.accepts (verbosity_change cfg unbound) ≡ true
  pub recursive_accepted : os.accepts (verbosity_change cfg recursive) ≡ true

foreign-Spared : (cfg : Config) → Spared (foreign_source cfg)
foreign-Spared cfg = spared cfg.auto_enabled
  where
    spared :
        (b : Bool)
        → Spared (
            if b
            then "/etc/veladns/foreign-mihomo.yaml.tmpl"
            else "/etc/veladns/foreign-secure.yaml")
    spared true = ground arith
    spared false = ground arith

foreign_Other :
    (cfg : Config)
    → let p = foreign_source cfg in
      ((unbound_runtime_config == p) ≡ false)
      × ((temp unbound_runtime_config == p) ≡ false)
      × ((unbound_recursive_runtime_config == p) ≡ false)
      × ((temp unbound_recursive_runtime_config == p) ≡ false)
      × ((mosdns_runtime_config == p) ≡ false)
      × ((temp mosdns_runtime_config == p) ≡ false)
foreign_Other cfg = ground (arith, foreign-Spared cfg)

IsRendered-kept :
    (path : String) (content : Bytes) (m : Action) (f f' : Files)
    → Keeps path m
    → m f ≡ (f', none)
    → IsRendered path content f
    → IsRendered path content f'
IsRendered-kept path content m f f' k r h = record {
  written = kept_through path m f f' none content k r h.written;
  complete = h.complete;
}

module _ (os : Os) (cfg : Config) where
  -- A file that a rendering leaves alone.
  through :
      (p source target : String) (change : Bytes → Bytes) (g g' : Files) (c : Bytes)
      → (target == p) ≡ false
      → (temp target == p) ≡ false
      → render os source target change g ≡ (g', none)
      → g p ≡ some c
      → g' p ≡ some c
  through p source target change g g' c a b r h =
      kept_through p (render os source target change) g g' none c
        (Keeps-render p os source target change a b) r h

  IsRendered-through :
      (p source target : String) (content : Bytes) (change : Bytes → Bytes) (g g' : Files)
      → (target == p) ≡ false
      → (temp target == p) ≡ false
      → render os source target change g ≡ (g', none)
      → IsRendered p content g
      → IsRendered p content g'
  IsRendered-through p source target content change g g' a b r h =
      IsRendered-kept p content (render os source target change) g g'
        (Keeps-render p os source target change a b) r h

  -- The four renderings, from a state that has the templates.
  rendered :
      (f f' : Files) (t : Templates cfg f)
      → render_configs os cfg f ≡ (f', none)
      → IsRendered unbound_runtime_config (verbosity_change cfg t.unbound) f'
        × IsRendered unbound_recursive_runtime_config (verbosity_change cfg t.recursive) f'
        × IsRendered mosdns_runtime_config (level_change cfg t.mosdns) f'
        × IsRendered foreign_runtime_config (foreign_change cfg t.foreign) f'
  unfolding render_configs
  rendered f f' t h =
      let r₁ = render os unbound_template unbound_runtime_config (verbosity_change cfg) in
      let r₂ =
        render os recursive_template unbound_recursive_runtime_config (verbosity_change cfg) in
      let r₃ = render os mosdns_template mosdns_runtime_config (level_change cfg) in
      let r₄ = render os (foreign_source cfg) foreign_runtime_config (foreign_change cfg) in
      let (f₃, e₃, e₄) = seq-ok (r₁ >> r₂ >> r₃) r₄ f f' h in
      let (f₂, e₂, d₃) = seq-ok (r₁ >> r₂) r₃ f f₃ e₃ in
      let (f₁, e₁, d₂) = seq-ok r₁ r₂ f f₂ e₂ in
      let u = verbosity_change cfg in
      let l = level_change cfg in
      let m₁ =
        through mosdns_template unbound_template unbound_runtime_config u f f₁ t.mosdns refl refl e₁
          t.mosdns_found in
      let m₂ =
        through mosdns_template recursive_template unbound_recursive_runtime_config u f₁ f₂ t.mosdns
          refl refl d₂ m₁ in
      let c₁ =
        through recursive_template unbound_template unbound_runtime_config u f f₁ t.recursive refl
          refl e₁ t.recursive_found in
      let o = foreign_Other cfg in
      let o₁ =
        through (foreign_source cfg) unbound_template unbound_runtime_config u f f₁ t.foreign o.0
          o.1 e₁ t.foreign_found in
      let o₂ =
        through (foreign_source cfg) recursive_template unbound_recursive_runtime_config u f₁ f₂
          t.foreign o.2 o.3 d₂ o₁ in
      let o₃ =
        through (foreign_source cfg) mosdns_template mosdns_runtime_config l f₂ f₃ t.foreign o.4 o.5
          d₃ o₂ in
      let a₁ =
        render-IsRendered os unbound_template unbound_runtime_config u f f₁ t.unbound
          t.unbound_found e₁ in
      let a₂ =
        IsRendered-through unbound_runtime_config recursive_template
          unbound_recursive_runtime_config (u t.unbound) u f₁ f₂ refl refl d₂ a₁ in
      let a₃ =
        IsRendered-through unbound_runtime_config mosdns_template mosdns_runtime_config
          (u t.unbound) l f₂ f₃ refl refl d₃ a₂ in
      let a₄ =
        IsRendered-through unbound_runtime_config (foreign_source cfg) foreign_runtime_config
          (u t.unbound) (foreign_change cfg) f₃ f' refl refl e₄ a₃ in
      let b₂ =
        render-IsRendered os recursive_template unbound_recursive_runtime_config u f₁ f₂ t.recursive
          c₁ d₂ in
      let b₃ =
        IsRendered-through unbound_recursive_runtime_config mosdns_template mosdns_runtime_config
          (u t.recursive) l f₂ f₃ refl refl d₃ b₂ in
      let b₄ =
        IsRendered-through unbound_recursive_runtime_config (foreign_source cfg)
          foreign_runtime_config (u t.recursive) (foreign_change cfg) f₃ f' refl refl e₄ b₃ in
      let y₃ = render-IsRendered os mosdns_template mosdns_runtime_config l f₂ f₃ t.mosdns m₂ d₃ in
      let y₄ =
        IsRendered-through mosdns_runtime_config (foreign_source cfg) foreign_runtime_config
          (l t.mosdns) (foreign_change cfg) f₃ f' refl refl e₄ y₃ in
      (
        a₄,
        b₄,
        y₄,
        render-IsRendered os (foreign_source cfg) foreign_runtime_config (foreign_change cfg) f₃ f'
            t.foreign o₃ e₄,
      )

  -- The templates are no files that the preparation before them overwrites.
  templates_kept :
      (f g : Files) → Templates cfg f → prepare_files os f ≡ (g, none) → Templates cfg g
  templates_kept f g t h =
      let keep = λ (p : String) (c : Bytes) (spared : Spared p) (e : f p ≡ some c).
        kept_through p (prepare_files os) f g none c (Keeps-prepare_files p os spared) h e in
      record {
        unbound = t.unbound;
        recursive = t.recursive;
        mosdns = t.mosdns;
        foreign = t.foreign;
        unbound_found = keep unbound_template t.unbound (ground arith) t.unbound_found;
        recursive_found = keep recursive_template t.recursive (ground arith) t.recursive_found;
        mosdns_found = keep mosdns_template t.mosdns (ground arith) t.mosdns_found;
        foreign_found = keep (foreign_source cfg) t.foreign (foreign-Spared cfg) t.foreign_found;
      }

  unpidded :
      (path : String) (content : Bytes) (f g : Files)
      → ("/run/veladns/unbound/unbound.pid" == path) ≡ false
      → ("/run/veladns/unbound-recursive/unbound.pid" == path) ≡ false
      → remove_pids f ≡ (g, none)
      → IsRendered path content f
      → IsRendered path content g
  unpidded path content f g a b r h =
      IsRendered-kept path content remove_pids f g (Keeps-remove_pids path a b) r h

  -- If the templates are there and prepareRuntime returns no error, then each of the four files that
  -- the children are started with holds its template with the settings filled in and no placeholder
  -- left, and unbound-checkconf accepts the two of Unbound.
  pub prepare_runtime-IsPrepared :
      (f f' : Files) (t : Templates cfg f)
      → prepare_runtime os cfg f ≡ (f', none)
      → IsPrepared os cfg t.unbound t.recursive t.mosdns t.foreign f'
  unfolding prepare_runtime templates_kept
  prepare_runtime-IsPrepared f f' t h =
      let check = check_config os in
      let start = prepare_files os >> render_configs os cfg in
      let (g₃, e₃, c₂) =
        seq-ok (start >> remove_pids >> check unbound_runtime_config)
          (check unbound_recursive_runtime_config) f f' h in
      let (g₂, e₂, c₁) = seq-ok (start >> remove_pids) (check unbound_runtime_config) f g₃ e₃ in
      let (g₁, e₁, p) = seq-ok start remove_pids f g₂ e₂ in
      let (g₀, e₀, r) = seq-ok (prepare_files os) (render_configs os cfg) f g₁ e₁ in
      let (a, b, m, o) = rendered g₀ g₁ (templates_kept f g₀ t e₀) r in
      let a' = unpidded unbound_runtime_config _ g₁ g₂ refl refl p a in
      let b' = unpidded unbound_recursive_runtime_config _ g₁ g₂ refl refl p b in
      let (v, s) = check_config-accepts os unbound_runtime_config _ g₂ g₃ a'.written c₁ in
      let (w, s') =
        check_config-accepts os unbound_recursive_runtime_config _ g₃ f'
          (subst
            (λ (g : Files).
              g unbound_recursive_runtime_config ≡ some (verbosity_change cfg t.recursive))
            s b'.written)
          c₂ in
      let last : g₂ ≡ f' = s ∙ s' in
      record {
        unbound_is = subst (IsRendered unbound_runtime_config _) last a';
        recursive_is = subst (IsRendered unbound_recursive_runtime_config _) last b';
        mosdns_is =
            subst (IsRendered mosdns_runtime_config _) last
              (unpidded mosdns_runtime_config _ g₁ g₂ refl refl p m);
        foreign_is =
            subst (IsRendered foreign_runtime_config _) last
              (unpidded foreign_runtime_config _ g₁ g₂ refl refl p o);
        unbound_accepted = v;
        recursive_accepted = w;
      }
