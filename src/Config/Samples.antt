-- ===== src/Config/Samples.antt =====
-- An environment, an operating system and files on which the theorems are applied.
use Prim.Native.String.{String}
use text.Mathlib.Text.{◌==◌}
use vela_dns.Base.{◌≡◌, refl, true, false, if◌then◌else◌, none, some, []}
use vela_dns.Text.{Bytes, codes, contains}
use vela_dns.Text.Decimal.{itoa, atoi}
use vela_dns.Text.Replace.{replace_all}
use vela_dns.Config.{Config, ok, load_config}
use vela_dns.Config.Files.{Os, Files}
use vela_dns.Config.Prepare.{prepare_runtime}
use vela_dns.Config.Prepared.{Templates}

abbrev pub environment : String → Bytes
environment name = if name == "AUTO_FORWARD" then codes "10.0.0.2" else []

abbrev pub forwarding : Config
forwarding = record {
  auto_forward_raw = codes "10.0.0.2";
  auto_enabled = true;
  auto_dns = codes "10.0.0.2:53";
  log_level = codes "warn";
  unbound_log = codes "0";
}

pub forwarding-loaded : load_config environment ≡ ok forwarding
unfolding load_config itoa atoi
forwarding-loaded = refl

abbrev pub sound : Os
sound = record { fails = λ c path. false; accepts = λ content. true }

abbrev pub installed : Files
installed path =
    if path == "/etc/veladns/unbound.conf.tmpl"
    then some (codes "verbosity: __UNBOUND_VERBOSITY__")
    else if path == "/etc/veladns/unbound-recursive.conf.tmpl"
    then some (codes "v: __UNBOUND_VERBOSITY__")
    else if path == "/etc/veladns/mosdns.yaml.tmpl"
    then some (codes "level: __LOG_LEVEL__")
    else if path == "/etc/veladns/foreign-mihomo.yaml.tmpl"
    then some (codes "to: __AUTO_FORWARD_ENDPOINT__")
    else if path == "/etc/veladns/defaults/proxy.txt"
    then some []
    else if path == "/usr/share/dnssec-root/root.key"
    then some (codes "key")
    else if path == "/data/direct.txt"
    then some (codes "domain:a.b")
    else none

abbrev pub templates : Templates forwarding installed
templates = record {
  unbound = codes "verbosity: __UNBOUND_VERBOSITY__";
  recursive = codes "v: __UNBOUND_VERBOSITY__";
  mosdns = codes "level: __LOG_LEVEL__";
  foreign = codes "to: __AUTO_FORWARD_ENDPOINT__";
  unbound_found = refl;
  recursive_found = refl;
  mosdns_found = refl;
  foreign_found = refl;
}

pub prepared_pair :
    prepare_runtime sound forwarding installed
    ≡ ((prepare_runtime sound forwarding installed).0, none)
unfolding prepare_runtime replace_all contains
prepared_pair = refl
