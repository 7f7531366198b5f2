-- ===== src/Program/Bootstrap.antt =====
-- bootstrapLogLevel of cmd/mosdns/main.go: the level of MosDNS's logger before it has read its
-- configuration. zapcore.ParseLevel is the argument `parse`; debug, info, warn and error are 0 to 3,
-- as in the logger of cmd/veladns/logger.go.
use vela_dns.Base.{
  ℕ, ◌≡◌, sym, ap, subst, true, if◌then◌else◌, Bool-cases, inl, inr, Option, none, some, arith,
}
use Prim.Native.String.{String}
use vela_dns.Text.{Bytes, codes, equal, is_empty}
use vela_dns.Text.Laws.{equal→eq}
use vela_dns.Config.{Config, ok, env_default, unbound_verbosity, load_config}
use vela_dns.Config.Loaded.{load_config-IsLoaded}
use vela_dns.Program.{new_logger}

abbrev pub warn_level : ℕ
warn_level = 2

unfoldable pub bootstrap_log_level : (Bytes → Option ℕ) → Bytes → ℕ
bootstrap_log_level parse raw =
    let text = if is_empty raw then codes "warn" else raw in
    elim (parse text) [ some level ↦ level | none ↦ warn_level ]

-- What ParseLevel gives for the names of the four levels.
pub record IsParser (parse : Bytes → Option ℕ) : Type 0 where
  pub debug : parse (codes "debug") ≡ some 0
  pub info : parse (codes "info") ≡ some 1
  pub warn : parse (codes "warn") ≡ some 2
  pub error : parse (codes "error") ≡ some 3

named :
    (parse : Bytes → Option ℕ) (level name : Bytes)
    → equal level name ≡ true
    → parse name ≡ some (new_logger name)
    → parse level ≡ some (new_logger level)
named parse level name h known =
    subst (λ l. parse l ≡ some (new_logger l)) (sym (equal→eq level name h)) known

threshold-parse :
    (parse : Bytes → Option ℕ) (level verbosity : Bytes)
    → IsParser parse
    → unbound_verbosity level ≡ some verbosity
    → parse level ≡ some (new_logger level)
unfolding unbound_verbosity new_logger equal
threshold-parse parse level verbosity p v = elim (Bool-cases (equal level (codes "debug"))) [
  | inl h ↦ named parse level (codes "debug") h p.debug
  | inr a ↦ elim (Bool-cases (equal level (codes "info"))) [
    | inl h ↦ named parse level (codes "info") h p.info
    | inr b ↦ elim (Bool-cases (equal level (codes "warn"))) [
      | inl h ↦ named parse level (codes "warn") h p.warn
      | inr c ↦ elim (Bool-cases (equal level (codes "error"))) [
        | inl h ↦ named parse level (codes "error") h p.error
        | inr d ↦ absurd (ground arith)
      ]
    ]
  ]
]

-- Where the supervisor takes a configuration from its environment, MosDNS, in the same environment,
-- starts its logger at the level at which the supervisor's own logger stands.
pub bootstrap_log_level-new_logger :
    (parse : Bytes → Option ℕ) (getenv : String → Bytes) (cfg : Config)
    → IsParser parse
    → load_config getenv ≡ ok cfg
    → bootstrap_log_level parse (getenv "LOG_LEVEL") ≡ new_logger cfg.log_level
unfolding bootstrap_log_level env_default
bootstrap_log_level-new_logger parse getenv cfg p h =
    let loaded = load_config-IsLoaded getenv cfg h in
    let text = env_default getenv "LOG_LEVEL" (codes "warn") in
    rw (bootstrap_log_level, threshold-parse parse text cfg.unbound_log p loaded.verbosity)
      (ap new_logger (sym loaded.level_kept))
