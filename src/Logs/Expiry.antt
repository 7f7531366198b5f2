-- ===== src/Logs/Expiry.antt =====
-- Which boundaries the deduper of cmd/veladns/process.go keeps.
use Prim.Native.String.{String}
use text.Mathlib.Text.{◌==◌}
use text.Mathlib.TextEquality.{eq_iff}
use vela_dns.Base.{
  ℕ, ◌-◌, ◌≡◌, inl, inr, refl, subst, ◌∙◌, ltb, if◌then◌else◌, Option, none, some, [], ◌∷◌, arith,
  Bool-cases,
}
use vela_dns.Base.Dict.{Dict, find, store, find-store}
use vela_dns.Logs.{dedupe_window, expire}

-- A map in which each key stands once.
unfoldable pub IsUnique : Dict ℕ → Type 0
IsUnique [] = Unit
IsUnique ((j, v) ∷ m) = (find j m ≡ none) × IsUnique m

pub store-IsUnique : (k : String) (v : ℕ) (m : Dict ℕ) → IsUnique m → IsUnique (store k v m)
unfolding IsUnique store find
store-IsUnique k v [] u = (refl, tt)
store-IsUnique k v ((j, w) ∷ m) (n, u) = elim (Bool-cases (j == k)) [
  | inl same ↦ rw same (n, u)
  | inr other ↦
      rw other (find-store k j v m ∙ ground (arith, eq_iff k j, eq_iff j k), store-IsUnique k v m u)
]

pub expire_missing :
    (now : ℕ) (j : String) (m : Dict ℕ) → find j m ≡ none → find j (expire now m) ≡ none
unfolding expire find
expire_missing now j [] h = refl
expire_missing now j ((i, at) ∷ m) h = elim (Bool-cases (i == j)) [
  | inl same ↦ ground arith
  | inr other ↦ ground (arith, expire_missing now j m)
]

pub expire-IsUnique : (now : ℕ) (m : Dict ℕ) → IsUnique m → IsUnique (expire now m)
unfolding expire IsUnique
expire-IsUnique now [] u = tt
expire-IsUnique now ((j, at) ∷ m) (n, u) = elim (Bool-cases (ltb dedupe_window (now - at))) [
  | inl old ↦ rw old (expire-IsUnique now m u)
  | inr recent ↦ rw recent (expire_missing now j m n, expire-IsUnique now m u)
]

abbrev pub if_recent : ℕ → Option ℕ → Option ℕ
if_recent now none = none
if_recent now (some at) = if ltb dedupe_window (now - at) then none else some at

pub find-expire :
    (now : ℕ) (id : String) (m : Dict ℕ)
    → IsUnique m
    → find id (expire now m) ≡ if_recent now (find id m)
unfolding expire find IsUnique
find-expire now id [] u = refl
find-expire now id ((j, at) ∷ m) (n, u) = elim (Bool-cases (j == id)) [
  | inl same ↦
      let gone = expire_missing now id m (subst (λ k. find k m ≡ none) ((eq_iff j id).0 same) n) in
      ground arith
  | inr other ↦ ground (arith, find-expire now id m u)
]
