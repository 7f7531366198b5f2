-- ===== src/Doh/Examples.antt =====
-- The start of the bridge and its service at fixed inputs.
use Prim.Native.String.{String}
use mathlib.Core.List.{Memᴰ}
use vela_dns.Base.{ℕ, ◌≡◌, ◌↔◌, refl, true, false, none, List, [], ◌∷◌, map}
use vela_dns.Text.{codes}
use vela_dns.Config.{Config}
use vela_dns.Runtime.{update, RuntimeState, new_runtime_state}
use vela_dns.Doh.{fresh, acquire}
use vela_dns.Doh.DialCache.{empty}
use vela_dns.Doh.Dialling.{resolve_doh_addresses, resolved, address_record, other_record}
use vela_dns.Doh.Exchange.{
  Msg, Transport, Upstream, ok, value, fault, exchange_once, exchange, settle, record_result,
}
use vela_dns.Doh.Probing.{IsSigned, probe_doh_upstream-accepts}
use vela_dns.Doh.Started.{
  set_up, start_doh_bridge, running, Meeting, round_with, IsRunning, start_doh_bridge-IsServed,
}
use vela_dns.Doh.Life.{Life, udp, serve_ended}
use vela_dns.Doh.Service.{Round, serve_rounds, IsServed, serve_rounds-IsServed}
use vela_dns.Doh.Startup.{
  Selection, Provider, fixed, new_doh_upstream, attach_doh_observation, Probing, probe_query,
  probe_doh_upstream, select_doh_upstreams,
}

abbrev lowest : ℕ → ℕ
lowest n = 0

abbrev signed : Msg
signed = record {
  id = 0;
  is_response = true;
  questions = 1 ∷ [];
  rcode = 0;
  answers = 5 ∷ 1 ∷ 46 ∷ [];
}

abbrev open_line : Transport
open_line = record {
  pack = λ m. value (1 ∷ 2 ∷ []);
  new_request = λ p. value p;
  send = λ p. value (record { status = 200; read_all = λ n. value (3 ∷ []) });
  unpack = λ b. value signed;
}

abbrev cut_line : Transport
cut_line = record open_line { send = λ p. fault 9 }

abbrev probing_over : Transport → Probing
probing_over t = record { rand = lowest; transport = t; started = 1000; now = 2000; id = 7 }

abbrev upstream : Upstream
upstream = record {
  tag = "360";
  bootstrapped = false;
  observing = true;
  breaker = fresh;
  cache = empty;
  state = new_runtime_state;
}

accepted : (probe_doh_upstream (probing_over open_line) upstream).1 ≡ none
unfolding probe_doh_upstream exchange acquire settle exchange_once
accepted = refl

probe_doh_upstream-accepts_example :
    ((probe_doh_upstream (probing_over open_line) upstream).1 ≡ none)
    ↔ ((m : Msg) × (exchange_once open_line (probe_query 7) ≡ ok m) × IsSigned m)
probe_doh_upstream-accepts_example =
    probe_doh_upstream-accepts (probing_over open_line) upstream refl

abbrev config : Config
config = record {
  auto_forward_raw = codes "10.0.0.1";
  auto_enabled = true;
  auto_dns = codes "10.0.0.1:53";
  log_level = codes "warn";
  unbound_log = codes "warn";
}

-- The first of the four upstreams does not answer its probe.
abbrev probing : String → Probing
probing tag = probing_over cut_line

four_tags :
    map (λ u. u.tag) (select_doh_upstreams probing config new_runtime_state).upstreams
    ≡ "nextdns-via-auto-forward" ∷ "quad9-via-auto-forward" ∷ "cloudflare" ∷ "360" ∷ []
unfolding select_doh_upstreams exchange acquire settle exchange_once record_result
four_tags = refl

abbrev direct_only : Config
direct_only = record config { auto_enabled = false; auto_dns = [] }

abbrev bridge : Selection
bridge = select_doh_upstreams probing direct_only new_runtime_state

abbrev after_start : RuntimeState
after_start = update "doh_bridge" set_up bridge.state

abbrev cloudflare : Provider
cloudflare = record {
  tag = "cloudflare";
  url = "https://cloudflare-dns.com/dns-query";
  server_name = "cloudflare-dns.com";
  dial = fixed ("104.16.248.249" ∷ "104.16.249.249" ∷ []);
}

abbrev first : Upstream
first = attach_doh_observation (new_doh_upstream cloudflare new_runtime_state)

first-mem : Memᴰ first bridge.upstreams
unfolding select_doh_upstreams
first-mem = Memᴰ.head refl

abbrev meet : Upstream → Meeting
meet u = record { transport = open_line; started = 1000; now = 2000 }

bridge_starts :
    start_doh_bridge probing true true direct_only new_runtime_state
    ≡ running bridge.upstreams after_start
unfolding start_doh_bridge
bridge_starts = refl

abbrev query : Msg
query = record { id = 77; is_response = false; questions = 1 ∷ []; rcode = 0; answers = [] }

abbrev refuse : Msg → ℕ → Msg
refuse m code = record m { is_response = true; rcode = code }

start_doh_bridge-IsServed_example :
    IsRunning direct_only bridge.upstreams after_start
    × IsServed lowest refuse query
        (map (round_with meet) bridge.upstreams)
        (serve_rounds lowest refuse query none after_start
          (map (round_with meet) bridge.upstreams)).2
unfolding exchange_once
start_doh_bridge-IsServed_example =
    start_doh_bridge-IsServed probing true true direct_only new_runtime_state bridge.upstreams
      after_start bridge_starts lowest refuse query meet first (record signed { id = 77 }) first-mem
      refl

one_address :
    resolve_doh_addresses
      (value (record { rcode = 0; answer = other_record ∷ address_record "198.18.0.9" ∷ [] }))
    ≡ resolved ("198.18.0.9" ∷ [])
unfolding resolve_doh_addresses
one_address = refl

abbrev round_over : Transport → Round
round_over t = record {
  upstream = upstream;
  transport = t;
  started = 1000;
  now = 2000;
  context_end = none;
}

abbrev rounds : List Round
rounds = round_over cut_line ∷ round_over open_line ∷ []

serve_rounds-IsServed_example :
    IsServed lowest refuse query rounds
      (serve_rounds lowest refuse query none new_runtime_state rounds).2
unfolding exchange_once
serve_rounds-IsServed_example =
    serve_rounds-IsServed lowest refuse query new_runtime_state rounds (round_over open_line)
      (refl, (refl, tt)) (Memᴰ.tail (Memᴰ.head refl))
      (record { in_use = refl; accepted = (record signed { id = 77 }, refl) })

abbrev started : Life
started = record {
  state = update "doh_bridge" set_up new_runtime_state;
  serving_udp = true;
  serving_tcp = true;
  done = false;
  watching = true;
  closed = false;
  shut = [];
  errors = 0;
}

-- The UDP server breaks down, and the bridge is closed with the context later.
abbrev half : Life
half = serve_ended udp true started

abbrev over : Life
over = record half { done = true }
