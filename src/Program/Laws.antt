-- ===== src/Program/Laws.antt =====
-- When main of cmd/veladns/main.go gets to run its children.
use vela_dns.Base.{
  if-keeps, ◌≢◌, ◌≡◌, refl, sym, ap, ◌∙◌, subst, Bool, false, not, ◌||◌, Bool-cases, inl, inr,
  Option, none, some, List, [], ◌∷◌, map, arith,
}
use vela_dns.Text.{Bytes, codes, equal}
use vela_dns.Text.Laws.{equal→eq}
use vela_dns.Config.{Config, Result, ok, err, env_default, unbound_verbosity, load_config}
use vela_dns.Config.Files.{Files, Problem}
use vela_dns.Config.Loaded.{IsLoaded, load_config-IsLoaded}
use vela_dns.Config.Prepare.{prepare_runtime}
use vela_dns.Config.Prepared.{Templates, IsPrepared, prepare_runtime-IsPrepared}
use vela_dns.Runtime.{RuntimeState, new_runtime_state}
use vela_dns.Doh.Exchange.{Upstream}
use vela_dns.Doh.Started.{Started, no_udp, no_tcp, running, IsRunning, start_doh_bridge-IsRunning}
use vela_dns.Health.{HealthError, run_healthcheck}
use vela_dns.Program.{
  info, new_logger, prints, World, Running, ran, supervise_all, start_bridge, start, main,
  with_bridge, bridge_of, health_code,
}

-- Whether a level keeps the lines of information from being printed.
abbrev pub hides_info : Bytes → Bool
hides_info level = not (prints (new_logger level) info)

quiet_at : Bytes → Bool
quiet_at level = equal level (codes "warn") || equal level (codes "error")

quiet-hides :
    (level verbosity : Bytes)
    → unbound_verbosity level ≡ some verbosity
    → quiet_at level ≡ hides_info level
unfolding unbound_verbosity new_logger quiet_at
quiet-hides level verbosity v = elim (Bool-cases (equal level (codes "debug"))) [
  | inl e ↦ by_level (codes "debug") (equal→eq level (codes "debug") e) (unfold equal in refl)
  | inr a ↦ elim (Bool-cases (equal level (codes "info"))) [
    | inl e ↦ by_level (codes "info") (equal→eq level (codes "info") e) (unfold equal in refl)
    | inr b ↦ ground arith
  ]
]
  where
    by_level :
        (l : Bytes) → level ≡ l → quiet_at l ≡ hides_info l → quiet_at level ≡ hides_info level
    by_level l e h = subst (λ x. quiet_at x ≡ hides_info x) (sym e) h

-- What holds where main has started its children.
pub record IsStarted (args : List Bytes) (w : World) (r : Running) (t : Templates r.config w.files)
    : Type 0 where
  pub alone : args ≡ []
  pub loaded :
      IsLoaded
        (env_default w.getenv "AUTO_FORWARD" (codes "no"))
        (env_default w.getenv "LOG_LEVEL" (codes "warn"))
        r.config
  pub prepared : IsPrepared w.os r.config t.unbound t.recursive t.mosdns t.foreign r.files
  pub bridged : IsRunning r.config r.bridge r.state
  pub quiet :
      map (λ c. c.suppress_startup_info) r.children
      ≡ hides_info r.config.log_level ∷ hides_info r.config.log_level ∷ false ∷ []

-- The bridge that runs.
record IsBridged (w : World) (cfg : Config) (files : Files) (r : Running) : Type 0 where
  upstreams : List Upstream
  state : RuntimeState
  started : bridge_of w cfg ≡ running upstreams state
  same : supervise_all w cfg files upstreams state ≡ r

with_bridge-ran :
    (w : World) (cfg : Config) (files : Files) (b : Started) (r : Running)
    → bridge_of w cfg ≡ b
    → with_bridge w cfg files b ≡ ran r
    → IsBridged w cfg files r
with_bridge-ran w cfg files no_udp r e h = absurd (cc)
with_bridge-ran w cfg files no_tcp r e h = absurd (cc)
with_bridge-ran w cfg files (running us s) r e h = record {
  upstreams = us;
  state = s;
  started = e;
  same = cc;
}

start_bridge-ran :
    (w : World) (cfg : Config) (p : Files × Option Problem) (r : Running)
    → start_bridge w cfg p ≡ ran r
    → (p ≡ (p.0, none)) × IsBridged w cfg p.0 r
start_bridge-ran w cfg (files, some problem) r h = absurd (cc)
start_bridge-ran w cfg (files, none) r h =
    (refl, with_bridge-ran w cfg files (bridge_of w cfg) r refl h)

start-ran :
    (w : World) (c : Result Config) (r : Running)
    → start w c ≡ ran r
    → (cfg : Config) × (c ≡ ok cfg)
      × (start_bridge w cfg (prepare_runtime w.os cfg w.files) ≡ ran r)
start-ran w (err e) r h = absurd (cc)
start-ran w (ok cfg) r h = (cfg, refl, h)

not_ran : (o : Option HealthError) (r : Running) → health_code o ≢ ran r
not_ran none r h = cc
not_ran (some e) r h = cc

main-ran :
    (args : List Bytes) (w : World) (r : Running)
    → main args w ≡ ran r
    → (args ≡ []) × (start w (load_config w.getenv) ≡ ran r)
unfolding main
main-ran [] w r h = (refl, h)
main-ran (command ∷ []) w r h = absurd (
    if-keeps (λ o. o ≢ ran r) (equal command (codes "version")) (λ e k. cc)
      (λ e.
        if-keeps (λ o. o ≢ ran r) (equal command (codes "healthcheck"))
          (λ e'. not_ran (run_healthcheck w.page w.exchanged) r) (λ e' k. cc))
      h)
main-ran (command ∷ more ∷ rest) w r h = absurd (cc)

quiet_children :
    (w : World) (cfg : Config) (files : Files) (us : List Upstream) (s : RuntimeState)
    {level verbosity : Bytes}
    → cfg.log_level ≡ level
    → unbound_verbosity level ≡ some verbosity
    → map (λ c. c.suppress_startup_info) (supervise_all w cfg files us s).children
      ≡ hides_info cfg.log_level ∷ hides_info cfg.log_level ∷ false ∷ []
unfolding quiet_at
quiet_children w cfg files us s {level} {verbosity} same v =
    ap (λ b. b ∷ b ∷ false ∷ [])
      (quiet-hides cfg.log_level verbosity
        (subst (λ l. unbound_verbosity l ≡ some verbosity) (sym same) v))

-- If main comes to run the children, and the templates of its configuration were there, then it was
-- called without an argument, the configuration that it runs with is the one that the environment
-- stands for, the bridge runs with the upstreams of that configuration and is shown as up in the
-- state, and the four files of the children hold their templates with
-- the settings filled in, of which unbound-checkconf accepts the two of Unbound. The two children of
-- Unbound are told to hide the lines of information just where the logger hides them.
pub main-IsStarted :
    (args : List Bytes) (w : World) (r : Running) (t : Templates r.config w.files)
    → main args w ≡ ran r
    → IsStarted args w r t
main-IsStarted args w r t h =
    let (alone, s) = main-ran args w r h in
    let (cfg, loaded, b) = start-ran w (load_config w.getenv) r s in
    let (fine, b') = start_bridge-ran w cfg (prepare_runtime w.os cfg w.files) r b in
    let same = b'.same in
    let config : cfg ≡ r.config = ap (λ (x : Running). x.config) same in
    let files : (prepare_runtime w.os cfg w.files).0 ≡ r.files =
      ap (λ (x : Running). x.files) same in
    let first : IsLoaded _ _ cfg = load_config-IsLoaded w.getenv cfg loaded in
    let known : IsLoaded _ _ r.config =
      load_config-IsLoaded w.getenv r.config (loaded ∙ ap ok config) in
    let done : prepare_runtime w.os r.config w.files ≡ (r.files, none) =
      subst (λ c. prepare_runtime w.os c w.files ≡ (r.files, none)) config
        (fine ∙ ap (λ f. (f, none)) files) in
    record {
      alone = alone;
      loaded = known;
      prepared = prepare_runtime-IsPrepared w.os r.config w.files r.files t done;
      bridged =
          subst (λ (x : Running). IsRunning x.config x.bridge x.state) same
            (start_doh_bridge-IsRunning w.probing w.listens_udp w.listens_tcp cfg new_runtime_state
              b'.upstreams b'.state b'.started);
      quiet =
          subst
            (λ (x : Running).
              map (λ c. c.suppress_startup_info) x.children
              ≡ hides_info x.config.log_level ∷ hides_info x.config.log_level ∷ false ∷ [])
            same
            (quiet_children w cfg (prepare_runtime w.os cfg w.files).0 b'.upstreams b'.state
              first.level_kept first.verbosity);
    }
