-- ===== src/Config/Tests.antt =====
-- The configuration at fixed inputs.
use vela_dns.Base.{◌≡◌, refl, some, arith}
use vela_dns.Text.{Bytes, codes}
use vela_dns.Text.Decimal.{itoa, atoi}
use vela_dns.Config.{
  ok, err, bad_port, no_integer, too_many_colons, parse_forward_endpoint, join_host_port,
  env_default,
}
use vela_dns.Config.Endpoints.{IsEndpoint, parse_forward_endpoint-join_host_port}
use vela_dns.Config.Kept.{prepare_runtime-kept}
use vela_dns.Config.Loaded.{IsLoaded, load_config-IsLoaded}
use vela_dns.Config.Prepare.{prepare_runtime}
use vela_dns.Config.Prepared.{IsPrepared, prepare_runtime-IsPrepared}
use vela_dns.Config.Samples.{
  environment, forwarding, forwarding-loaded, sound, installed, templates, prepared_pair,
}

abbrev clash : Bytes
clash = codes "clash.lan:+0053"

clash-read : parse_forward_endpoint clash ≡ ok (codes "clash.lan", codes "53")
unfolding parse_forward_endpoint itoa atoi
clash-read = refl

refused :
    (parse_forward_endpoint (codes "a:65536") ≡ err bad_port)
    × (parse_forward_endpoint (codes "a:-1") ≡ err bad_port)
    × (parse_forward_endpoint (codes "a:") ≡ err no_integer)
    × (parse_forward_endpoint (codes "::1") ≡ err too_many_colons)
unfolding parse_forward_endpoint itoa atoi
refused = (refl, refl, refl, refl)

clash-IsEndpoint : IsEndpoint (codes "clash.lan") (codes "53")
clash-IsEndpoint = record {
  safe = refl;
  number = 53;
  positive = omega arith;
  in_range = omega arith;
  canonical = unfold itoa in refl;
}

parse_forward_endpoint-join_host_port_example :
    parse_forward_endpoint (join_host_port (codes "clash.lan") (codes "53"))
    ≡ ok (codes "clash.lan", codes "53")
parse_forward_endpoint-join_host_port_example =
    parse_forward_endpoint-join_host_port (codes "clash.lan") (codes "53") clash-IsEndpoint

load_config-IsLoaded_example :
    IsLoaded
      (env_default environment "AUTO_FORWARD" (codes "no"))
      (env_default environment "LOG_LEVEL" (codes "warn"))
      forwarding
load_config-IsLoaded_example = load_config-IsLoaded environment forwarding forwarding-loaded

prepare_runtime-kept_example :
    (prepare_runtime sound forwarding installed).0 "/data/direct.txt" ≡ some (codes "domain:a.b")
prepare_runtime-kept_example =
    prepare_runtime-kept "/data/direct.txt" sound (ground arith) forwarding installed
      (codes "domain:a.b") refl

prepare_runtime-IsPrepared_example :
    IsPrepared sound forwarding templates.unbound templates.recursive templates.mosdns
      templates.foreign
      (prepare_runtime sound forwarding installed).0
prepare_runtime-IsPrepared_example =
    prepare_runtime-IsPrepared sound forwarding installed
      (prepare_runtime sound forwarding installed).0 templates prepared_pair
