-- ===== src/Doh/Startup.antt =====
-- The start of the bridge: selectDoHUpstreams, the two lists of upstreams that it takes, and
-- probeDoHUpstream of cmd/veladns/dohbridge.go.
use Prim.Native.String.{String}
use vela_dns.Base.{
  ℕ, Bool, true, false, not, ◌||◌, ◌==◌, if◌then◌else◌, Option, none, some, List, [], ◌∷◌,
}
use vela_dns.Text.{Bytes}
use vela_dns.Config.{Config}
use vela_dns.Runtime.{RuntimeState, register}
use vela_dns.Doh.{fresh}
use vela_dns.Doh.DialCache.{empty}
use vela_dns.Doh.Exchange.{Msg, Error, Result, ok, err, Transport, Upstream, exchange}

-- Where an upstream is dialled: at the addresses that a DNS server gives for its name, or at fixed
-- ones.
pub data Dial : Type 0 where
  bootstrapped : Bytes → Dial
  fixed : List String → Dial

-- What newBootstrappedDoHUpstream and newDoHUpstream are given.
pub record Provider : Type 0 where
  pub tag : String
  pub url : String
  pub server_name : String
  pub dial : Dial

abbrev pub is_bootstrapped : Dial → Bool
is_bootstrapped (bootstrapped server) = true
is_bootstrapped (fixed addresses) = false

abbrev pub new_doh_upstream : Provider → RuntimeState → Upstream
new_doh_upstream provider state = record {
  tag = provider.tag;
  bootstrapped = is_bootstrapped provider.dial;
  observing = false;
  breaker = fresh;
  cache = empty;
  state = state;
}

abbrev pub attach_doh_observation : Upstream → Upstream
attach_doh_observation u = record u { observing = true; state = register u.tag u.state }

unfoldable pub auto_doh_upstreams : Config → List Provider
auto_doh_upstreams cfg =
    if cfg.auto_enabled
    then record {
      tag = "nextdns-via-auto-forward";
      url = "https://dns.nextdns.io";
      server_name = "dns.nextdns.io";
      dial = bootstrapped cfg.auto_dns;
    }
      ∷ record {
        tag = "quad9-via-auto-forward";
        url = "https://dns.quad9.net/dns-query";
        server_name = "dns.quad9.net";
        dial = bootstrapped cfg.auto_dns;
      }
      ∷ []
    else []

abbrev pub direct_doh_upstreams : List Provider
direct_doh_upstreams =
    record {
      tag = "cloudflare";
      url = "https://cloudflare-dns.com/dns-query";
      server_name = "cloudflare-dns.com";
      dial = fixed ("104.16.248.249" ∷ "104.16.249.249" ∷ []);
    }
    ∷ record {
      tag = "360";
      url = "https://doh.360.cn/dns-query";
      server_name = "doh.360.cn";
      dial = fixed (
          "101.226.4.6" ∷ "218.30.118.6" ∷ "101.91.111.153" ∷ "36.99.170.86" ∷ "106.63.24.74" ∷ []);
    }
    ∷ []

-- The types of records, and the code of success, in the DNS library.
abbrev pub type_a : ℕ
type_a = 1

abbrev pub type_rrsig : ℕ
type_rrsig = 46

abbrev pub rcode_success : ℕ
rcode_success = 0

pub data ProbeError : Type 0 where
  exchange_failed : Error → ProbeError
  returned : ℕ → ProbeError
  no_address no_signature : ProbeError

-- The loop over the answers, with the two flags that it sets.
unfoldable pub scan : Bool → Bool → List ℕ → Bool × Bool
scan has_address has_signature [] = (has_address, has_signature)
scan has_address has_signature (rrtype ∷ answers) =
    scan (has_address || rrtype == type_a) (has_signature || rrtype == type_rrsig) answers

abbrev pub judge_flags : Bool × Bool → Option ProbeError
judge_flags (has_address, has_signature) =
    if not has_address
    then some no_address
    else if not has_signature
    then some no_signature
    else none

unfoldable pub judge : Result Msg → Option ProbeError
unfolding scan
judge (err e) = some (exchange_failed e)
judge (ok response) =
    if not (response.rcode == rcode_success)
    then some (returned response.rcode)
    else judge_flags (scan false false response.answers)

-- The query for dns.google, with the random id of SetQuestion.
abbrev pub probe_query : ℕ → Msg
probe_query id = record {
  id = id;
  is_response = false;
  questions = type_a ∷ [];
  rcode = rcode_success;
  answers = [];
}

-- What a probe meets: the source of random numbers, the transport, within the deadline of the
-- probe, the times at which it starts and ends, and the id of its query.
pub record Probing : Type 0 where
  pub rand : ℕ → ℕ
  pub transport : Transport
  pub started : ℕ
  pub now : ℕ
  pub id : ℕ

unfoldable pub probe_doh_upstream : Probing → Upstream → Upstream × Option ProbeError
unfolding judge
probe_doh_upstream p u =
    let (u', answer) = exchange p.rand p.transport p.started p.now (probe_query p.id) u in
    (u', judge answer)

-- The upstreams, each with the state as it left it, the state at the end, and what is logged of
-- each probe.
pub record Selection : Type 0 where
  pub upstreams : List Upstream
  pub state : RuntimeState
  pub told : List (String × Option ProbeError)

module _ (probing : String → Probing) where
  unfoldable pub attach_direct : List Provider → RuntimeState → Selection
  attach_direct [] state = record { upstreams = []; state = state; told = [] }
  attach_direct (provider ∷ providers) state =
      let u = attach_doh_observation (new_doh_upstream provider state) in
      let rest = attach_direct providers u.state in record rest { upstreams = u ∷ rest.upstreams }

  -- The loop over the automatic upstreams, and then that over the direct ones.
  unfoldable pub probe_auto : List Provider → RuntimeState → Selection
  unfolding attach_direct probe_doh_upstream
  probe_auto [] state = attach_direct direct_doh_upstreams state
  probe_auto (provider ∷ providers) state =
      let (u, verdict) =
        probe_doh_upstream (probing provider.tag)
          (attach_doh_observation (new_doh_upstream provider state)) in
      let rest = probe_auto providers u.state in
      record rest { upstreams = u ∷ rest.upstreams; told = (provider.tag, verdict) ∷ rest.told }

  unfoldable pub select_doh_upstreams : Config → RuntimeState → Selection
  unfolding probe_auto auto_doh_upstreams
  select_doh_upstreams cfg state = probe_auto (auto_doh_upstreams cfg) state
