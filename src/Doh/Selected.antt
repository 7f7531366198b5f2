-- ===== src/Doh/Selected.antt =====
-- The upstreams that the bridge starts with.
use Prim.Native.String.{String}
use text.Mathlib.TextPositions.{eq_refl}
use vela_dns.Base.{
  ℕ, ◌<◌, ◌≡◌, refl, sym, ap, ◌∙◌, subst, true, false, Bool-cases, inl, inr, Option, List, [], ◌∷◌,
  ◌++◌, map, All, arith,
}
use vela_dns.Base.Dict.{Dict, store, has_key, has_key-store}
use vela_dns.Config.{Config}
use vela_dns.Runtime.{RuntimeState, Observation, register, observe}
use vela_dns.Doh.{Breaker, failure_threshold, fail, succeed}
use vela_dns.Doh.Exchange.{Msg, Result, ok, err, Upstream, record_result, settle}
use vela_dns.Doh.Probing.{exchange-first}
use vela_dns.Doh.Startup.{
  ProbeError, Provider, new_doh_upstream, attach_doh_observation, auto_doh_upstreams,
  direct_doh_upstreams, Probing, probe_query, probe_doh_upstream, Selection, attach_direct,
  probe_auto, select_doh_upstreams,
}

abbrev pub Knows : RuntimeState → String → Type 0
Knows s tag = has_key tag s.upstreams ≡ true

Grows : RuntimeState → RuntimeState → Type 0
Grows s s' = (tag : String) → Knows s tag → Knows s' tag

store-Knows :
    {V : Type 0} (name tag : String) (v : V) (m : Dict V)
    → has_key tag m ≡ true
    → has_key tag (store name v m) ≡ true
store-Knows name tag v m k = rw (has_key-store name tag v m, k) (ground arith)

store-Knows_self :
    {V : Type 0} (name : String) (v : V) (m : Dict V) → has_key name (store name v m) ≡ true
store-Knows_self name v m = rw (has_key-store name name v m, eq_refl name) refl

register-Grows :
    (name : String) (s : RuntimeState) → Grows s (register name s) × Knows (register name s) name
unfolding register Grows
register-Grows name s = elim (Bool-cases (has_key name s.upstreams)) [
  | inl there ↦ rw there (λ tag k. k, there)
  | inr new ↦
      rw new (λ tag k. store-Knows name tag _ s.upstreams k, store-Knows_self name _ s.upstreams)
]

observe-Grows :
    (name : String) (r : Observation) (d t now : ℕ) (s : RuntimeState)
    → Grows s (observe name r d t now s)
unfolding observe Grows
observe-Grows name r d t now s tag k = store-Knows name tag _ s.upstreams k

record_result-Grows :
    (r : Observation) (d now : ℕ) (u : Upstream) → Grows u.state (record_result r d now u).state
unfolding record_result Grows
record_result-Grows r d now u = elim (Bool-cases u.observing) [
  | inl on ↦ rw on (observe-Grows u.tag r d u.breaker.retry_at now u.state)
  | inr off ↦ rw off (λ tag k. k)
]

-- An upstream that takes queries, and whose failures are fewer than those that park it.
pub record IsReady (u : Upstream) : Type 0 where
  pub observing : u.observing ≡ true
  pub in_use : u.breaker.backoff_step ≡ 0
  pub few_failures : u.breaker.failures < failure_threshold

-- What an upstream that is set up for these providers has done: it is ready, its state knows it,
-- and it lost nothing.
record IsSetUp (provider : Provider) (s : RuntimeState) (u : Upstream) : Type 0 where
  tag : u.tag ≡ provider.tag
  ready : IsReady u
  known : Knows u.state u.tag
  grows : Grows s u.state

attached-IsSetUp :
    (provider : Provider) (s : RuntimeState)
    → IsSetUp provider s (attach_doh_observation (new_doh_upstream provider s))
attached-IsSetUp provider s =
    let (grown, known) = register-Grows provider.tag s in
    record {
      tag = refl;
      ready = record { observing = refl; in_use = refl; few_failures = omega arith };
      known = known;
      grows = grown;
    }

record_result-same :
    (r : Observation) (d now : ℕ) (u : Upstream)
    → let u' = record_result r d now u in
      (u'.tag ≡ u.tag) × (u'.observing ≡ u.observing) × (u'.breaker ≡ u.breaker)
unfolding record_result
record_result-same r d now u = ground arith

recorded-IsSetUp :
    (r : Observation) (d now : ℕ) (provider : Provider) (s : RuntimeState) (u : Upstream)
    → IsSetUp provider s u
    → IsSetUp provider s (record_result r d now u)
unfolding Grows
recorded-IsSetUp r d now provider s u h =
    let (tag, observing, breaker) = record_result-same r d now u in
    record {
      tag = tag ∙ h.tag;
      ready = record {
        observing = observing ∙ h.ready.observing;
        in_use = ap (λ b. b.backoff_step) breaker ∙ h.ready.in_use;
        few_failures =
            subst (λ b. b.failures < failure_threshold) (sym breaker) h.ready.few_failures;
      };
      known = rw tag (record_result-Grows r d now u u.tag h.known);
      grows = λ tag k. record_result-Grows r d now u tag (h.grows tag k);
    }

failed_once :
    (rand : ℕ → ℕ) (now : ℕ) (b : Breaker)
    → b.backoff_step ≡ 0
    → b.failures ≡ 0
    → ((fail rand now false b).backoff_step ≡ 0)
      × ((fail rand now false b).failures < failure_threshold)
unfolding fail
failed_once rand now b s f = ground arith

settle-IsSetUp :
    (rand : ℕ → ℕ) (started now : ℕ) (r : Result Msg) (provider : Provider) (s : RuntimeState)
    (u : Upstream)
    → u.breaker.failures ≡ 0
    → IsSetUp provider s u
    → IsSetUp provider s (settle rand started now false r u).0
unfolding settle succeed
settle-IsSetUp rand started now (ok m) provider s u f h =
    recorded-IsSetUp _ _ _ provider s _ (record {
      tag = h.tag;
      ready = record { observing = h.ready.observing; in_use = refl; few_failures = omega arith };
      known = h.known;
      grows = h.grows;
    })
settle-IsSetUp rand started now (err e) provider s u f h =
    let (in_use, few) = failed_once rand now u.breaker h.ready.in_use f in
    recorded-IsSetUp _ _ _ provider s _ (record {
      tag = h.tag;
      ready = record { observing = h.ready.observing; in_use = in_use; few_failures = few };
      known = h.known;
      grows = h.grows;
    })

probed-IsSetUp :
    (p : Probing) (provider : Provider) (s : RuntimeState)
    → IsSetUp provider s
        (probe_doh_upstream p (attach_doh_observation (new_doh_upstream provider s))).0
unfolding probe_doh_upstream
probed-IsSetUp p provider s =
    let u : Upstream = attach_doh_observation (new_doh_upstream provider s) in
    rw (exchange-first p.rand p.transport p.started p.now (probe_query p.id) u refl)
      (settle-IsSetUp p.rand p.started p.now _ provider s u refl (attached-IsSetUp provider s))

-- What the bridge starts with, for the providers that it is given.
pub record IsSelected (providers : List Provider) (s : RuntimeState) (sel : Selection)
    : Type 0 where
  pub tags : map (λ u. u.tag) sel.upstreams ≡ map (λ p. p.tag) providers
  pub ready : All IsReady sel.upstreams
  pub known : All (λ u. Knows sel.state u.tag) sel.upstreams
  pub grows : (tag : String) → Knows s tag → Knows sel.state tag

one_more :
    (provider : Provider) (providers : List Provider) (s : RuntimeState) (u : Upstream)
    (sel : Selection) (told : List (String × Option ProbeError))
    → IsSetUp provider s u
    → IsSelected providers u.state sel
    → IsSelected
        (provider ∷ providers)
        s
        (record { upstreams = u ∷ sel.upstreams; state = sel.state; told = told })
unfolding Grows
one_more provider providers s u sel told h k = record {
  tags = ap (λ t. t ∷ map (λ v. v.tag) sel.upstreams) h.tag ∙ ap (λ ts. provider.tag ∷ ts) k.tags;
  ready = (h.ready, k.ready);
  known = (k.grows u.tag h.known, k.known);
  grows = λ tag known. k.grows tag (h.grows tag known);
}

attach_direct-IsSelected :
    (probing : String → Probing) (providers : List Provider) (s : RuntimeState)
    → IsSelected providers s (attach_direct probing providers s)
unfolding attach_direct
attach_direct-IsSelected probing [] s = record {
  tags = refl;
  ready = tt;
  known = tt;
  grows = λ tag k. k;
}
attach_direct-IsSelected probing (provider ∷ providers) s =
    one_more provider providers s _ _ _ (attached-IsSetUp provider s)
      (attach_direct-IsSelected probing providers _)

probe_auto-IsSelected :
    (probing : String → Probing) (providers : List Provider) (s : RuntimeState)
    → IsSelected (providers ++ direct_doh_upstreams) s (probe_auto probing providers s)
unfolding probe_auto
probe_auto-IsSelected probing [] s = attach_direct-IsSelected probing direct_doh_upstreams s
probe_auto-IsSelected probing (provider ∷ providers) s =
    one_more provider (providers ++ direct_doh_upstreams) s _ _ _
      (probed-IsSetUp (probing provider.tag) provider s) (probe_auto-IsSelected probing providers _)

-- Whatever the probes of the start find, the bridge has all upstreams of the configuration, the
-- automatic ones before the direct ones, and each of them is observed, known to the state, and
-- takes queries: a probe that fails parks nothing.
pub select_doh_upstreams-IsSelected :
    (probing : String → Probing) (cfg : Config) (s : RuntimeState)
    → IsSelected
        (auto_doh_upstreams cfg ++ direct_doh_upstreams)
        s
        (select_doh_upstreams probing cfg s)
unfolding select_doh_upstreams
select_doh_upstreams-IsSelected probing cfg s =
    probe_auto-IsSelected probing (auto_doh_upstreams cfg) s
