-- ===== src/Doh/Started.antt =====
-- startDoHBridge of cmd/veladns/dohbridge.go up to its goroutines, and the first query after it.
-- Whether the two addresses can be listened on is an argument.
use Prim.Native.String.{String}
use mathlib.Core.List.Memᴰ
use mathlib.Core.List.{Memᴰ}
use vela_dns.Base.{
  ℕ, ◌≡◌, refl, sym, ap, subst, Bool, true, false, none, List, [], ◌∷◌, ◌++◌, map, All,
  if◌then◌else◌,
}
use vela_dns.Config.{Config}
use vela_dns.Wire.{Component}
use vela_dns.Runtime.{RuntimeState, update}
use vela_dns.Runtime.Components.{component_of, update_self}
use vela_dns.Doh.Exchange.{Msg, Transport, Upstream, ok, exchange_once}
use vela_dns.Doh.Selected.{IsReady, IsSelected, Knows, select_doh_upstreams-IsSelected}
use vela_dns.Doh.Service.{Round, serve_rounds, IsServed, serve_rounds-IsServed}
use vela_dns.Doh.Startup.{
  auto_doh_upstreams, direct_doh_upstreams, Probing, Selection, select_doh_upstreams,
}

-- Where TCP cannot be listened on, the UDP socket is closed again.
pub data Started : Type 0 where
  no_udp no_tcp : Started
  running : List Upstream → RuntimeState → Started

abbrev pub set_up : Component → Component
set_up c = record c { up = true }

-- The upstreams, whose exchanges are the resolvers, and the state.
unfoldable pub start_doh_bridge : (String → Probing) → Bool → Bool → Config → RuntimeState → Started
unfolding select_doh_upstreams update
start_doh_bridge probing listens_udp listens_tcp cfg state =
    let sel = select_doh_upstreams probing cfg state in
    if listens_udp
    then (if listens_tcp
        then running sel.upstreams (update "doh_bridge" set_up sel.state)
        else no_tcp)
    else no_udp

-- What a query meets at each upstream: its transport, and the times of the exchange.
pub record Meeting : Type 0 where
  pub transport : Transport
  pub started : ℕ
  pub now : ℕ

abbrev pub round_with : (Upstream → Meeting) → Upstream → Round
round_with meet u = record {
  upstream = u;
  transport = (meet u).transport;
  started = (meet u).started;
  now = (meet u).now;
  context_end = none;
}

-- What holds of a bridge that was started from a configuration and a state.
pub record IsRunning (cfg : Config) (us : List Upstream) (s : RuntimeState) : Type 0 where
  pub tags : map (λ u. u.tag) us ≡ map (λ p. p.tag) (auto_doh_upstreams cfg ++ direct_doh_upstreams)
  pub up : (component_of "doh_bridge" s).up ≡ true
  pub known : All (λ u. Knows s u.tag) us
  pub ready : All IsReady us

All-mem : {A : Type 0} (P : A → Type 0) (x : A) (xs : List A) → All P xs → Memᴰ x xs → P x
All-mem P x [] h m = elim m [ ]
All-mem P x (y ∷ ys) (p, h) (Memᴰ.head e) = subst P (sym e) p
All-mem P x (y ∷ ys) (p, h) (Memᴰ.tail m) = All-mem P x ys h m

in_time :
    (meet : Upstream → Meeting) (us : List Upstream)
    → All (λ r. r.context_end ≡ none) (map (round_with meet) us)
in_time meet [] = tt
in_time meet (u ∷ us) = (refl, in_time meet us)

update-Knows :
    (s : RuntimeState) (us : List Upstream)
    → All (λ u. Knows s u.tag) us
    → All (λ u. Knows (update "doh_bridge" set_up s) u.tag) us
unfolding update
update-Knows s us h = h

selected-IsRunning :
    (cfg : Config) (s : RuntimeState) (sel : Selection)
    → IsSelected (auto_doh_upstreams cfg ++ direct_doh_upstreams) s sel
    → IsRunning cfg sel.upstreams (update "doh_bridge" set_up sel.state)
selected-IsRunning cfg s sel h = record {
  tags = h.tags;
  up = ap (λ (c : Component). c.up) (update_self "doh_bridge" set_up sel.state);
  known = update-Knows sel.state sel.upstreams h.known;
  ready = h.ready;
}

started_running :
    (udp tcp : Bool) (us us' : List Upstream) (s s' : RuntimeState)
    → (if udp then (if tcp then running us s else no_tcp) else no_udp) ≡ running us' s'
    → (us ≡ us') × (s ≡ s')
started_running true true us us' s s' h = (cc, cc)
started_running true false us us' s s' h = absurd (cc)
started_running false tcp us us' s s' h = absurd (cc)

pub start_doh_bridge-IsRunning :
    (probing : String → Probing) (udp tcp : Bool) (cfg : Config) (s : RuntimeState)
    (us : List Upstream) (s' : RuntimeState)
    → start_doh_bridge probing udp tcp cfg s ≡ running us s'
    → IsRunning cfg us s'
unfolding start_doh_bridge
start_doh_bridge-IsRunning probing udp tcp cfg s us s' h =
    let sel : Selection = select_doh_upstreams probing cfg s in
    let (same, same') = started_running udp tcp sel.upstreams us _ s' h in
    subst (λ v. IsRunning cfg v s') same
      (subst (λ t. IsRunning cfg sel.upstreams t) same'
        (selected-IsRunning cfg s sel (select_doh_upstreams-IsSelected probing cfg s)))

-- A bridge that starts is shown as up, has the upstreams of its configuration in their order, each
-- observed, taking queries and known to the state, and answers its first query: if the transport of
-- any upstream brings an answer that is accepted, and the deadline does not pass, then an accepted
-- answer is written and nothing is warned of, whatever the probes have found and whatever the other
-- upstreams do.
pub start_doh_bridge-IsServed :
    (probing : String → Probing) (udp tcp : Bool) (cfg : Config) (s : RuntimeState)
    (us : List Upstream) (s' : RuntimeState)
    → start_doh_bridge probing udp tcp cfg s ≡ running us s'
    → (rand : ℕ → ℕ) (set_rcode : Msg → ℕ → Msg) (query : Msg) (meet : Upstream → Meeting)
      (u : Upstream) (m : Msg)
    → Memᴰ u us
    → exchange_once (meet u).transport query ≡ ok m
    → IsRunning cfg us s'
      × IsServed rand set_rcode query
          (map (round_with meet) us)
          (serve_rounds rand set_rcode query none s' (map (round_with meet) us)).2
start_doh_bridge-IsServed probing udp tcp cfg s us s' h rand set_rcode query meet u m member
      accepted =
    let r = start_doh_bridge-IsRunning probing udp tcp cfg s us s' h in
    (
      r,
      serve_rounds-IsServed rand set_rcode query s' (map (round_with meet) us) (round_with meet u)
          (in_time meet us) (Memᴰ.map (round_with meet) member)
          (record {
            in_use = (All-mem IsReady u us r.ready member).in_use;
            accepted = (m, accepted);
          }),
    )
