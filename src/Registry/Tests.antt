-- ===== src/Registry/Tests.antt =====
-- A registry that is a list of its collectors, and the plugins that register with it.
use mathlib.Core.Option.{some-injective}
use vela_dns.Base.{
  Bool-cases, inl, inr, ap, sym, ◌≡◌, refl, Bool, true, false, not, ◌&&◌, ◌||◌, if◌then◌else◌,
  Option, none, some, List, [], ◌∷◌, arith,
}
use vela_dns.Text.{codes}
use vela_dns.Registry.{Collector, same, Registry}
use vela_dns.Registry.Laws.{is_in, same-eq}
use vela_dns.Circuit.Settings.{Args}
use vela_dns.Circuit.Registered.{err, not_registered, Leaves, init_plugin, init_plugin-Leaves}
use vela_dns.Health.Listening.{Host, World, Closes, init_plugin-Closes}
use vela_dns.Health.Listening

abbrev with_collector : Collector → List Collector → Option (List Collector)
with_collector c cs = if is_in c cs then none else some (c ∷ cs)

abbrev without : Collector → List Collector → List Collector
without c [] = []
without c (d ∷ cs) = let rest = without c cs in if same d c then rest else d ∷ rest

refuses_member :
    (c : Collector) (cs cs' : List Collector) → with_collector c cs ≡ some cs' → is_in c cs ≡ false
refuses_member c cs cs' h = ground arith

adds_one :
    (c : Collector) (cs cs' : List Collector)
    → with_collector c cs ≡ some cs'
    → (d : Collector) → is_in d cs' ≡ (same c d || is_in d cs)
adds_one c cs cs' h d = by_test (is_in c cs) h
  where
    by_test :
        (b : Bool)
        → (if b then none else some (c ∷ cs)) ≡ some cs'
        → is_in d cs' ≡ (same c d || is_in d cs)
    by_test true k = absurd (ground arith)
    by_test false k = ap (is_in d) (sym (some-injective (c ∷ cs) cs' k))

removes_one :
    (c d : Collector) (cs : List Collector)
    → is_in d (without c cs) ≡ (not (same c d) && is_in d cs)
removes_one c d [] = ground arith
removes_one c d (e ∷ cs) = elim (Bool-cases (same e c)) [
  | inl h ↦
      let later = removes_one c d cs in
      let named : same e d ≡ same c d = ap (λ k. same k d) (same-eq e c h) in rw h (ground arith)
  | inr h ↦
      let later = removes_one c d cs in
      rw h (elim (Bool-cases (same c d)) [
        | inl k ↦ let named : same e c ≡ same e d = ap (same e) (same-eq c d k) in ground arith
        | inr k ↦ ground arith
      ])
]

abbrev registry : Registry
registry = record {
  State = List Collector;
  has = is_in;
  register = with_collector;
  unregister = without;
  refuses = refuses_member;
  adds = adds_one;
  removes = removes_one;
}

abbrev args : Args
args = record {
  failure_threshold = 5;
  attempts = 2;
  attempt_timeout_millis = 800;
  initial_backoff_millis = 1000;
  max_backoff_millis = 30_000;
  failure_rcodes = 2 ∷ [];
}

-- A collector of an earlier start is still there.
abbrev occupied : List Collector
occupied = ("veladns_circuit_failures_total", "auto_forward") ∷ []

init_plugin-Leaves_example :
    let given = init_plugin registry true "auto_forward" args occupied in
    Leaves registry "auto_forward" args occupied given.0 given.1
init_plugin-Leaves_example = init_plugin-Leaves registry true "auto_forward" args occupied

half_registered : init_plugin registry true "auto_forward" args occupied ≡ (
  err not_registered,
  ("veladns_circuit_backoff_seconds", "auto_forward")
      ∷ ("veladns_circuit_state", "auto_forward")
      ∷ occupied,
)
unfolding init_plugin
half_registered = refl

abbrev host : Host
host = record {
  resolves = true;
  listens = true;
  chmods = true;
  close_fails = false;
  close_unlinks = false;
  removes = true;
}

abbrev idle : World registry
idle = record { file = true; is_open = false; metrics = occupied; reading = false; routed = false }

init_plugin-Closes_example :
    let started = Listening.init_plugin registry host (codes "/run/veladns.sock") idle in
    Closes registry host idle started.0 started.1
init_plugin-Closes_example =
    init_plugin-Closes registry host (codes "/run/veladns.sock") idle refl refl
