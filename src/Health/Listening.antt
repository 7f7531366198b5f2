-- ===== src/Health/Listening.antt =====
-- initPlugin and Close of internal/supervisorplugin/plugin.go: the socket on which the supervisor's
-- state comes in, the collector of the metrics, and the pages by their paths. What the operating
-- system answers is a `Host`: whether the address resolves, whether the socket opens, whether its
-- mode can be set, whether closing it gives an error or removes its file, and whether that can be
-- removed.
use Prim.Native.String.{String}
use text.Mathlib.Text.{◌==◌}
use vela_dns.Base.{
  if-keeps, ℕ, ◌≡◌, refl, ap, ◌∙◌, Bool, true, false, not, ◌||◌, if◌then◌else◌, Option, none, some,
  arith,
}
use vela_dns.Text.{Bytes, is_empty}
use vela_dns.Registry.{Collector, Registry}
use vela_dns.Registry.Laws.{HasSame, register-has, unregister-register}
use vela_dns.Health.{Plugin, Response, live, ready}

pub record Host : Type 0 where
  pub resolves : Bool
  pub listens : Bool
  pub chmods : Bool
  pub close_fails : Bool
  pub close_unlinks : Bool
  pub removes : Bool

pub data InitError : Type 0 where
  socket_required unresolved not_listening no_chmod not_registered : InitError

-- The collector that the plugin is, by its first description.
abbrev pub supervisor_collector : Collector
supervisor_collector = ("veladns_component_up", "")

-- The pages by their paths; `report` is the encoding of dependencyReport.
unfoldable pub get : (ℕ → Plugin → Response) → String → ℕ → Plugin → Option Response
unfolding live ready
get report path now p =
    if path == "/livez"
    then some (live now p)
    else if path == "/readyz" || path == "/healthz"
    then some (ready now p)
    else if path == "/dependencies"
    then some (report now p)
    else none

module _ (reg : Registry) where
  -- Whether the socket's file is there, whether the socket is open, the registry, whether the loop
  -- that reads the socket runs, and whether the pages have been given to the HTTP server.
  pub record World : Type 0 where
    pub file : Bool
    pub is_open : Bool
    pub metrics : reg.State
    pub reading : Bool
    pub routed : Bool

  abbrev pub remove : Host → World → World
  remove host w = record w { file = if host.removes then false else w.file }

  abbrev pub close_conn : Host → World → World
  close_conn host w = record w {
    is_open = false;
    file = if host.close_unlinks then false else w.file;
  }

  -- An error, or none where the plugin has been started.
  unfoldable pub registering : Host → World → Option InitError × World
  registering host w = elim (reg.register supervisor_collector w.metrics) [
    | none ↦ (some not_registered, close_conn host w)
    | some metrics ↦ (none, record w { metrics = metrics; reading = true; routed = true })
  ]

  unfoldable pub init_plugin : Host → Bytes → World → Option InitError × World
  unfolding registering
  init_plugin host socket w =
      let removed = remove host w in
      let listening = record w { file = true; is_open = true } in
      if is_empty socket
      then (some socket_required, w)
      else if not host.resolves
      then (some unresolved, removed)
      else if not host.listens
      then (some not_listening, removed)
      else if not host.chmods
      then (some no_chmod, close_conn host listening)
      else registering host listening

  -- Whether it gives an error. The loop ends, since its socket is closed; the pages stay.
  unfoldable pub close : Host → World → Bool × World
  close host w =
      let unregistered = record w { metrics = reg.unregister supervisor_collector w.metrics } in
      (host.close_fails, remove host (record (close_conn host unregistered) { reading = false }))

  -- No socket, loop or metrics are left of a plugin that was not started, or was closed.
  pub record IsReleased (w w' : World) : Type 0 where
    pub closed : w'.is_open ≡ false
    pub stopped : w'.reading ≡ false
    pub metrics : HasSame reg w.metrics w'.metrics

  -- What a start leaves, with an error or without.
  abbrev pub Closes : Host → World → Option InitError → World → Type 0
  Closes host w (some e) w' = IsReleased w w' × (w'.routed ≡ w.routed)
  Closes host w none w' =
      (w'.is_open ≡ true)
      × (w'.reading ≡ true)
      × (w'.routed ≡ true)
      × (reg.has supervisor_collector w'.metrics ≡ true)
      × IsReleased w (close host w').1
      × ((close host w').1.file ≡ (if host.removes then false else not host.close_unlinks))

  left :
      (removes unlinks : Bool)
      → (if removes then false else if unlinks then false else true)
        ≡ (if removes then false else not unlinks)
  left removes unlinks = ground arith

  registering-Closes :
      (host : Host) (w w₀ : World)
      → w.file ≡ true
      → w.reading ≡ false
      → w.metrics ≡ w₀.metrics
      → w.is_open ≡ true
      → w.routed ≡ w₀.routed
      → let started = registering host w in Closes host w₀ started.0 started.1
  unfolding registering close
  registering-Closes host w w₀ there idle same_metrics opened kept =
      by_answer (reg.register supervisor_collector w.metrics) refl
    where
      by_answer :
          (o : Option reg.State)
          → reg.register supervisor_collector w.metrics ≡ o
          → let started : Option InitError × World = elim o [
            | none ↦ (some not_registered, close_conn host w)
            | some metrics ↦ (none, record w { metrics = metrics; reading = true; routed = true })
          ] in
            Closes host w₀ started.0 started.1
      by_answer none e = (
        record { closed = refl; stopped = idle; metrics = λ d. ap (reg.has d) same_metrics },
        kept,
      )
      by_answer (some metrics) e = (
        opened,
        refl,
        refl,
        register-has reg supervisor_collector w.metrics metrics e,
        record {
          closed = refl;
          stopped = refl;
          metrics = λ d.
              unregister-register reg supervisor_collector w.metrics metrics e d
              ∙ ap (reg.has d) same_metrics;
        },
        rw there (left host.removes host.close_unlinks),
      )

  released :
      {w : World} (w' : World)
      → w'.is_open ≡ false
      → w'.reading ≡ false
      → w'.metrics ≡ w.metrics
      → w'.routed ≡ w.routed
      → IsReleased w w' × (w'.routed ≡ w.routed)
  released w' closed stopped metrics routed =
      (record { closed = closed; stopped = stopped; metrics = λ d. ap (reg.has d) metrics }, routed)

  -- From a socket that is closed and not read: where the plugin does not start, with any of its five
  -- errors, its socket is not left open, its metrics are not left registered and no page is added;
  -- where it starts, the socket is open and read, and the metrics and pages are registered, and
  -- closing it closes the socket, ends the loop and takes the metrics out again, and the socket's file
  -- is gone unless it can neither be removed nor goes with the socket.
  pub init_plugin-Closes :
      (host : Host) (socket : Bytes) (w : World)
      → w.is_open ≡ false
      → w.reading ≡ false
      → let started = init_plugin host socket w in Closes host w started.0 started.1
  unfolding init_plugin
  init_plugin-Closes host socket w shut idle =
      if-keeps P (is_empty socket) (λ e. released w shut idle refl refl)
        λ given.
          if-keeps P (not host.resolves) (λ e. released _ shut idle refl refl)
            λ resolved.
              if-keeps P (not host.listens) (λ e. released _ shut idle refl refl)
                λ bound.
                  if-keeps P (not host.chmods) (λ e. released _ refl idle refl refl)
                    λ allowed.
                      registering-Closes host (record w { file = true; is_open = true }) w refl idle
                        refl refl refl
    where
      P : Option InitError × World → Type 0
      P o = Closes host w o.0 o.1
