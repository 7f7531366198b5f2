-- ===== src/Config/Loaded.antt =====
-- What a configuration that loadConfig returns is.
use Prim.Native.String.{String}
use vela_dns.Base.{
  ◌≡◌, refl, subst, true, false, if◌then◌else◌, Option, none, some, [], arith, Bool-cases, inl, inr,
}
use vela_dns.Text.{Bytes, codes, equal}
use vela_dns.Config.{
  Config, Result, ok, err, parse_forward_endpoint, join_host_port, unbound_verbosity, with_endpoint,
  load_levels, load_config, env_default,
}
use vela_dns.Config.Endpoints.{
  IsEndpoint, parse_forward_endpoint-IsEndpoint, parse_forward_endpoint-join_host_port,
}

-- The address that the forwarded path goes to.
pub record IsForward (cfg : Config) : Type 0 where
  pub host : Bytes
  pub port : Bytes
  pub endpoint : IsEndpoint host port
  pub address : cfg.auto_dns ≡ join_host_port host port
  pub again : parse_forward_endpoint cfg.auto_dns ≡ ok (host, port)

pub record IsLoaded (raw level : Bytes) (cfg : Config) : Type 0 where
  pub raw_kept : cfg.auto_forward_raw ≡ raw
  pub level_kept : cfg.log_level ≡ level
  pub verbosity : unbound_verbosity level ≡ some cfg.unbound_log
  pub enabled : cfg.auto_enabled ≡ (if equal raw (codes "no") then false else true)
  pub off : cfg.auto_enabled ≡ false → cfg.auto_dns ≡ []
  pub on : cfg.auto_enabled ≡ true → IsForward cfg

forward_on :
    (raw level verbosity : Bytes) (base cfg : Config) (r : Result (Bytes × Bytes))
    → base.auto_forward_raw ≡ raw
    → base.log_level ≡ level
    → base.unbound_log ≡ verbosity
    → unbound_verbosity level ≡ some verbosity
    → equal raw (codes "no") ≡ false
    → ((h p : Bytes) → r ≡ ok (h, p) → IsEndpoint h p)
    → with_endpoint base r ≡ ok cfg
    → IsLoaded raw level cfg
forward_on raw level verbosity base cfg (err e) a b c v n h q = cc
forward_on raw level verbosity base cfg (ok (host, port)) a b c v n h q =
    let e : IsEndpoint host port = h host port refl in
    let dns : cfg.auto_dns ≡ join_host_port host port = cc in
    record {
      raw_kept = cc;
      level_kept = cc;
      verbosity = cc;
      enabled = rw n (cc);
      off = λ o. cc;
      on = λ o. record {
        host = host;
        port = port;
        endpoint = e;
        address = dns;
        again = rw dns (parse_forward_endpoint-join_host_port host port e);
      };
    }

levels_IsLoaded :
    (raw level : Bytes) (cfg : Config) (o : Option Bytes)
    → unbound_verbosity level ≡ o
    → load_levels raw level o ≡ ok cfg
    → IsLoaded raw level cfg
levels_IsLoaded raw level cfg none v q = cc
levels_IsLoaded raw level cfg (some verbosity) v q =
    let base : Config = record {
      auto_forward_raw = raw;
      auto_enabled = false;
      auto_dns = [];
      log_level = level;
      unbound_log = verbosity;
    } in
    elim (Bool-cases (equal raw (codes "no"))) [
      | inl no_forward ↦
          let same : base ≡ cfg = ground arith in
          subst (IsLoaded raw level) same (record {
            raw_kept = refl;
            level_kept = refl;
            verbosity = v;
            enabled = rw no_forward refl;
            off = λ o. refl;
            on = λ o. cc;
          })
      | inr forward ↦
          forward_on raw level verbosity base cfg (parse_forward_endpoint raw) refl refl refl v
            forward (parse_forward_endpoint-IsEndpoint raw) (ground arith)
    ]

-- A configuration that loadConfig returns has the two variables with their defaults, the verbosity
-- of a known level, and forwarding exactly if AUTO_FORWARD is not no: to a safe host and a port in
-- range, printed so that parseForwardEndpoint reads the same endpoint from it.
pub load_config-IsLoaded :
    (getenv : String → Bytes) (cfg : Config)
    → load_config getenv ≡ ok cfg
    → IsLoaded
        (env_default getenv "AUTO_FORWARD" (codes "no"))
        (env_default getenv "LOG_LEVEL" (codes "warn"))
        cfg
unfolding load_config
load_config-IsLoaded getenv cfg q = levels_IsLoaded _ _ cfg _ refl q
