-- ===== src/Doh/DialCache.antt =====
-- dialAddressCache of cmd/veladns/dohbridge.go: the addresses that an upstream is dialled at. Its get
-- does not hold the lock while the resolver is called, so that it is two steps.
use Prim.Native.String.{String}
use vela_dns.Base.{
  ℕ, ◌+◌, ◌<◌, ◌≡◌, ◌≢◌, refl, Bool, true, false, not, ◌&&◌, ltb, if◌then◌else◌, List, [], ◌∷◌,
  Option, none, some, arith, ◌⊎◌, inl, inr, subst,
}
use vela_dns.Backoff.{minute}

pub record DialCache : Type 0 where
  pub addresses : List String
  pub expires_at : ℕ

abbrev pub empty : DialCache
empty = record { addresses = []; expires_at = 0 }

abbrev pub dial_address_ttl : ℕ
dial_address_ttl = minute

abbrev is_empty : List String → Bool
is_empty [] = true
is_empty (a ∷ rest) = false

-- The first half of get: what the cache answers at the time `now`. It takes the lock, and releases it
-- before the resolver is called.
unfoldable pub get_cached : ℕ → DialCache → Option (List String)
get_cached now c =
    if not (is_empty c.addresses) && ltb now c.expires_at then some c.addresses else none

-- The second half, where the resolver has been called: it takes the lock again, at the time
-- `resolved`, if the resolver has given addresses.
unfoldable pub keep : ℕ → Option (List String) → DialCache → DialCache × Option (List String)
keep resolved none c = (c, none)
keep resolved (some found) c =
    (record { addresses = found; expires_at = resolved + dial_address_ttl }, some found)

unfoldable pub invalidate : DialCache → DialCache
invalidate c = record { addresses = []; expires_at = 0 }

-- What changes the cache: the second half of a lookup, of those that run side by side, and the
-- invalidation that follows a failed exchange.
pub data Event : Type 0 where
  resolved : ℕ → Option (List String) → Event
  failed : Event

-- The cache after a history, the last event first.
unfoldable pub after : List Event → DialCache
unfolding keep invalidate
after [] = empty
after (resolved at resolve ∷ past) = (keep at resolve (after past)).0
after (failed ∷ past) = invalidate (after past)

-- The last lookup of the history that was given addresses was given these, at that time, and no
-- exchange has failed since.
pub data Resolved (found : List String) (at : ℕ) : List Event → Type 0 where
  here : {past : List Event} → Resolved found at (resolved at (some found) ∷ past)
  earlier :
      {past : List Event} (later : ℕ)
      → Resolved found at past
      → Resolved found at (resolved later none ∷ past)

-- What the cache holds was resolved a minute before it expires.
abbrev KeptAs : List Event → DialCache → Type 0
KeptAs past c =
    (c.addresses ≡ [])
    ⊎ ((at : ℕ) × Resolved c.addresses at past × (c.expires_at ≡ at + dial_address_ttl))

KeptAs-none :
    (past : List Event) (later : ℕ) (c : DialCache)
    → KeptAs past c
    → KeptAs (resolved later none ∷ past) c
KeptAs-none past later c (inl e) = inl e
KeptAs-none past later c (inr (at, r, e)) = inr (at, earlier later r, e)

after-KeptAs : (past : List Event) → KeptAs past (after past)
unfolding after
after-KeptAs [] = inl refl
after-KeptAs (failed ∷ past) = inl refl
after-KeptAs (resolved later none ∷ past) = KeptAs-none past later (after past) (after-KeptAs past)
after-KeptAs (resolved at (some found) ∷ past) = inr (at, here, refl)

get_cached-held :
    (now : ℕ) (c : DialCache) (found : List String)
    → get_cached now c ≡ some found
    → (c.addresses ≢ []) × (c.addresses ≡ found) × (now < c.expires_at)
unfolding get_cached
get_cached-held now c found h = ground arith

-- For lookups that run side by side, in any interleaving with each other and with the invalidations:
-- what the cache answers is what the last lookup that had been given addresses was given, less than
-- a minute before, and no exchange has failed since then.
pub get_cached_recent :
    (past : List Event) (now : ℕ) (found : List String)
    → get_cached now (after past) ≡ some found
    → (at : ℕ) × Resolved found at past × (now < at + dial_address_ttl)
get_cached_recent past now found h =
    let (held, same, early) = get_cached-held now (after past) found h in
    elim (after-KeptAs past) [
      | inl e ↦ absurd (held e)
      | inr (at, r, e) ↦ (at, subst (λ a. Resolved a at past) same r, subst (λ t. now < t) e early)
    ]
