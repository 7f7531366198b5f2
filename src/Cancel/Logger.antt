-- ===== src/Cancel/Logger.antt =====
-- cancellationLogger, With and Check of internal/tcpserverplugin/server.go: the loggers that are
-- derived from the wrapped one. The core of zap is the argument `zap`; the server logs through
-- Check, which names the core that an entry is written to, and Write.
use Prim.Native.String.{String}
use vela_dns.Base.{ℕ, ◌≡◌, refl, ap, ◌∙◌, Bool, true, false, if◌then◌else◌, List, [], ◌∷◌, ◌++◌}
use vela_dns.Text.{Bytes}
use vela_dns.Cancel.{Field, Entry, Events, write_entry}
use vela_dns.Cancel.Laws.{suppressed_at, settled, write_entry-settled}

pub record Zap (C W : Type 0) : Type 0 where
  pub enabled : C → ℕ → Bool
  pub derive : List Field → C → C
  pub write : C → Entry → W → W × Bool

pub record CancellationCore (C : Type 0) : Type 0 where
  pub core : C
  pub listener : String

module _ {C W : Type 0} (zap : Zap C W) (lower : Bytes → Bytes) where
  abbrev pub cancellation_logger : C → String → CancellationCore C
  cancellation_logger core listener = record { core = core; listener = listener }

  unfoldable pub with_fields : List Field → CancellationCore C → CancellationCore C
  with_fields fields c = record c { core = zap.derive fields c.core }

  -- The cores that an entry of this level is written to, behind those that are named already.
  unfoldable pub check :
      ℕ → CancellationCore C → List (CancellationCore C) → List (CancellationCore C)
  check level c checked = if zap.enabled c.core level then checked ++ (c ∷ []) else checked

  abbrev written : List (CancellationCore C) → Entry → Events → W → Events × W
  written [] e events w = (events, w)
  written (c ∷ cs) e events w =
      let (events', w', ok) = write_entry lower (zap.write c.core) c.listener e events w in
      written cs e events' w'

  -- A line of the logger.
  unfoldable pub log : ℕ → CancellationCore C → Entry → Events → W → Events × W
  unfolding check write_entry
  log level c e events w = written (check level c []) e events w

  -- A logger that has been derived from another, the last fields first.
  unfoldable pub derived : List (List Field) → CancellationCore C → CancellationCore C
  unfolding with_fields
  derived [] c = c
  derived (fields ∷ more) c = with_fields fields (derived more c)

  abbrev plainly : List (List Field) → C → C
  plainly [] core = core
  plainly (fields ∷ more) core = zap.derive fields (plainly more core)

  derived-core :
      (more : List (List Field)) (core : C) (listener : String)
      → derived more (cancellation_logger core listener)
        ≡ cancellation_logger (plainly more core) listener
  unfolding derived
  derived-core [] core listener = refl
  derived-core (fields ∷ more) core listener =
      ap (with_fields fields) (derived-core more core listener)

  -- A line of a logger derived in any way from the wrapped one goes, where its level is enabled, to
  -- the core that zap derives in the same way, unless it tells of an expected cancellation at one of
  -- the two stages; then it is counted for the listener that the first logger was made for.
  pub log-derived :
      (level : ℕ) (more : List (List Field)) (core : C) (listener : String) (e : Entry)
      (events : Events) (w : W)
      → let o =
          settled lower
            (zap.write (plainly more core))
            (suppressed_at lower (zap.write (plainly more core)) e)
            listener
            e
            events
            w in
        log level (derived more (cancellation_logger core listener)) e events w
        ≡ (if zap.enabled (plainly more core) level then (o.0, o.1) else (events, w))
  unfolding log check
  log-derived level more core listener e events w =
      ap (λ c. log level c e events w) (derived-core more core listener)
      ∙ by_level (zap.enabled (plainly more core) level)
    where
      by_level :
          (b : Bool)
          → let c = cancellation_logger (plainly more core) listener in
            let o =
              settled lower
                (zap.write (plainly more core))
                (suppressed_at lower (zap.write (plainly more core)) e)
                listener
                e
                events
                w in
            written (if b then [] ++ (c ∷ []) else []) e events w
            ≡ (if b then (o.0, o.1) else (events, w))
      by_level true =
          rw (write_entry-settled lower (zap.write (plainly more core)) listener e events w) refl
      by_level false = refl
