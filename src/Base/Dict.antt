-- ===== src/Base/Dict.antt =====
-- A Go map with text keys: an association list in which each key stands once. A missing key reads
-- as the zero value, as in `m[key]`.
use Prim.Native.String.{String}
use mathlib.Core.Path.{◌≡◌, refl, ap, ◌∙◌}
use mathlib.Core.Bool.{Bool, true, false}
use mathlib.Core.Option.{Option, none, some}
use mathlib.Core.List.{List, [], ◌∷◌}
use native.Mathlib.Omega.{arith}
use text.Mathlib.Text.{◌==◌}
use text.Mathlib.TextEquality.{eq_iff}
use vela_dns.Base.Tests.{if◌then◌else◌}

abbrev pub Dict : Type 0 → Type 0
Dict V = List (String × V)

module _ {V : Type 0} where
  unfoldable pub find : String → Dict V → Option V
  find k [] = none
  find k ((j, v) ∷ m) = if j == k then some v else find k m

  unfoldable pub store : String → V → Dict V → Dict V
  store k v [] = (k, v) ∷ []
  store k v ((j, w) ∷ m) = if j == k then (j, v) ∷ m else (j, w) ∷ store k v m

  abbrev pub value_or : V → Option V → V
  value_or d (some v) = v
  value_or d none = d

  -- m[key], with the zero value of the map's type
  unfoldable pub at_or : V → String → Dict V → V
  unfolding find
  at_or zero_value k m = value_or zero_value (find k m)

  unfoldable pub has_key : String → Dict V → Bool
  unfolding find
  has_key k m = elim (find k m) [ some v ↦ true | none ↦ false ]

  -- What is read after a write.
  pub find-store :
      (k j : String) (v : V) (m : Dict V)
      → find j (store k v m) ≡ (if k == j then some v else find j m)
  unfolding find store
  find-store k j v [] = refl
  find-store k j v ((i, w) ∷ m) =
      ground (arith, eq_iff k j, eq_iff i k, eq_iff i j, find-store k j v m)

  value_or-if :
      (d : V) (b : Bool) (v : V) (o : Option V)
      → value_or d (if b then some v else o) ≡ (if b then v else value_or d o)
  value_or-if d true v o = refl
  value_or-if d false v o = refl

  pub at_or-store :
      (d : V) (k j : String) (v : V) (m : Dict V)
      → at_or d j (store k v m) ≡ (if k == j then v else at_or d j m)
  unfolding at_or
  at_or-store d k j v m = ap (value_or d) (find-store k j v m) ∙ value_or-if d (k == j) v (find j m)

  -- A missing key reads as the zero value.
  pub at_or_missing : (d : V) (k : String) (m : Dict V) → has_key k m ≡ false → at_or d k m ≡ d
  unfolding at_or has_key
  at_or_missing d k m h = ground arith

  -- A key that was there, or that is written.
  pub has_key-store :
      (k j : String) (v : V) (m : Dict V)
      → has_key j (store k v m) ≡ (if k == j then true else has_key j m)
  unfolding has_key
  has_key-store k j v m = ground (arith, find-store k j v m)
