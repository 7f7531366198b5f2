-- ===== src/Health/Described.antt =====
-- What is collected has been described, and says when an upstream may be tried again.
use Prim.Native.String.{String}
use mathlib.Core.List.{Memᴰ}
use vela_dns.Base.{
  ℕ, ◌+◌, ◌<◌, ◌≤◌, ◌≡◌, refl, Option, some, List, [], ◌∷◌, ◌++◌, All, arith, length,
}
use vela_dns.Base.Dict.{Dict}
use vela_dns.Wire.{Component, Upstream}
use vela_dns.Base.Int64.{two63}
use vela_dns.Runtime.{Observation, observed, unix_epoch}
use vela_dns.Health.{Plugin}
use vela_dns.Health.Metrics.{
  Desc, Metric, describe, Value, described, upstream_values, doh_metric_descriptions,
  remaining_backoff, collect_component, collect_components, collect_upstreams, collect, followed_by,
  age_metric,
}

-- A metric whose description is one of those of Describe.
abbrev pub IsDescribed : Metric → Type 0
IsDescribed m = Memᴰ m.desc describe

All-append : {A : Type 0} (P : A → Type 0) (xs ys : List A) → All P xs → All P ys → All P (xs ++ ys)
All-append P [] ys h k = k
All-append P (x ∷ xs) ys (p, h) k = (p, All-append P xs ys h k)

All-map :
    {A : Type 0} (P Q : A → Type 0) (xs : List A) → ((x : A) → P x → Q x) → All P xs → All Q xs
All-map P Q [] f h = tt
All-map P Q (x ∷ xs) f (p, h) = (f x p, All-map P Q xs f h)

all_members : {A : Type 0} (xs : List A) → All (λ x. Memᴰ x xs) xs
all_members [] = tt
all_members (x ∷ xs) = (
  Memᴰ.head refl,
  All-map (λ y. Memᴰ y xs) (λ y. Memᴰ y (x ∷ xs)) xs (λ y m. Memᴰ.tail m) (all_members xs),
)

doh_members : All (λ d. Memᴰ d describe) doh_metric_descriptions
unfolding describe
doh_members = let (up, (enabled, (restarts, (backoff, (age, doh))))) = all_members describe in doh

component-IsDescribed : (c : String × Component) → All IsDescribed (collect_component c)
unfolding describe
component-IsDescribed (name, c) =
    let (up, (enabled, (restarts, (backoff, rest)))) = all_members describe in
    (up, (enabled, (restarts, (backoff, tt))))

components-IsDescribed : (cs : Dict Component) → All IsDescribed (collect_components cs)
unfolding collect_components
components-IsDescribed [] = tt
components-IsDescribed (c ∷ cs) =
    All-append IsDescribed (collect_component c) (collect_components cs) (component-IsDescribed c)
      (components-IsDescribed cs)

described-IsDescribed :
    (name : String) (values : List Value) (ds : List Desc)
    → length values ≤ length ds
    → All (λ d. Memᴰ d describe) ds
    → (ms : List Metric) × (described name values ds ≡ some ms) × All IsDescribed ms
unfolding described
described-IsDescribed name [] ds h m = ([], refl, tt)
described-IsDescribed name (v ∷ values) [] h m = absurd (omega (arith, h))
described-IsDescribed name (v ∷ values) (d ∷ ds) h (m, more) =
    let (ms, e, k) = described-IsDescribed name values ds (omega (arith, h)) more in
    (record { desc = d; value = v; of = some name } ∷ ms, rw e refl, (m, k))

both-IsDescribed :
    (o o' : Option (List Metric))
    → (ms : List Metric) × (o ≡ some ms) × All IsDescribed ms
    → (ms : List Metric) × (o' ≡ some ms) × All IsDescribed ms
    → (ms : List Metric) × (followed_by o o' ≡ some ms) × All IsDescribed ms
both-IsDescribed o o' (xs, e, h) (ys, e', k) =
    (xs ++ ys, rw (e, e') refl, All-append IsDescribed xs ys h k)

upstreams-IsDescribed :
    (us : Dict Upstream) (now : ℕ)
    → (ms : List Metric) × (collect_upstreams us now ≡ some ms) × All IsDescribed ms
unfolding collect_upstreams
upstreams-IsDescribed [] now = ([], refl, tt)
upstreams-IsDescribed ((name, u) ∷ us) now =
    both-IsDescribed _ (collect_upstreams us now)
      (described-IsDescribed name (upstream_values u now) doh_metric_descriptions (omega arith)
        doh_members)
      (upstreams-IsDescribed us now)

age-IsDescribed : (now : ℕ) (p : Plugin) → IsDescribed (age_metric now p)
unfolding describe
age-IsDescribed now p = Memᴰ.tail (Memᴰ.tail (Memᴰ.tail (Memᴰ.tail (Memᴰ.head refl))))

-- Collecting never reads a description out of range, and sends only metrics that were described.
pub collect-IsDescribed :
    (now : ℕ) (p : Plugin) → (ms : List Metric) × (collect now p ≡ some ms) × All IsDescribed ms
unfolding collect
collect-IsDescribed now p =
    both-IsDescribed _ (collect_upstreams p.snapshot.upstreams now)
      (
        _,
        refl,
        All-append IsDescribed (collect_components p.snapshot.components) (age_metric now p ∷ [])
            (components-IsDescribed p.snapshot.components) (age-IsDescribed now p, tt),
      )
      (upstreams-IsDescribed p.snapshot.upstreams now)

-- The gauge of an upstream's backoff, read not before 1970, after an observation published a retry
-- time not before 1970 and less than 2^63 ns ahead: it is less than a millisecond short of the time
-- that is left, and where it is positive it is not more than that.
pub remaining_backoff-observed :
    (r : Observation) (duration retry_at at now : ℕ) (u : Upstream)
    → unix_epoch ≤ retry_at
    → unix_epoch ≤ now
    → retry_at < now + two63
    → let left = remaining_backoff (observed r duration retry_at at u) now in
      (retry_at ≤ now + left + 999_999) × ((0 < left) → now + left ≤ retry_at)
unfolding remaining_backoff observed
remaining_backoff-observed r duration retry_at at now u a b c = ground arith
