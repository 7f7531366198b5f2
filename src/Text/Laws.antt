-- ===== src/Text/Laws.antt =====
-- Texts without white space, and texts of ASCII characters.
use mathlib.Core.List.{reverse, reverse-append, reverse-reverse}
use vela_dns.Base.{
  ℕ, ◌≡◌, refl, subst, Bool, true, false, if◌then◌else◌, [], ◌∷◌, ◌++◌, arith, get_or,
}
use vela_dns.Text.{
  Bytes, equal, is_ascii_space, is_latin_space, is_wide_space, space_width, space_width_end,
  drop_spaces, trim_space, any_space,
}

pub any_space-suffix : (p q : Bytes) → any_space (p ++ q) ≡ false → any_space q ≡ false
unfolding any_space
any_space-suffix [] q h = h
any_space-suffix (c ∷ cs) q h = any_space-suffix cs q (ground arith)

drop_spaces_id : (width : Bytes → ℕ) (s : Bytes) → width s ≡ 0 → drop_spaces width 0 s ≡ s
unfolding drop_spaces
drop_spaces_id width [] h = refl
drop_spaces_id width (c ∷ cs) h = rw h refl

space_width_none : (s : Bytes) → any_space s ≡ false → space_width s ≡ 0
unfolding any_space
space_width_none [] h = unfold space_width in refl
space_width_none (c ∷ cs) h = ground arith

abbrev choose : Bool → Bool → Bool → ℕ
choose x y z = if x then 1 else if y then 2 else if z then 3 else 0

no_width : (x y z : Bool) → choose x y z ≡ 0 → (x ≡ false) × (y ≡ false) × (z ≡ false)
no_width false false false h = (refl, refl, refl)
no_width true y z h = absurd (omega arith)
no_width false true z h = absurd (omega arith)
no_width false false true h = absurd (omega arith)

zero_width : (x y z : Bool) → x ≡ false → y ≡ false → z ≡ false → choose x y z ≡ 0
zero_width x y z p q r = rw (p, q, r) refl

pub no_space :
    (s : Bytes)
    → any_space s ≡ false
    → let a = get_or s 0 0 in
      let b = get_or s 1 0 in
      (is_ascii_space a ≡ false)
      × (is_latin_space a b ≡ false)
      × (is_wide_space a b (get_or s 2 0) ≡ false)
unfolding space_width
no_space s h = no_width _ _ _ (space_width_none s h)

-- The last three bytes of a text are no space if no bytes of it are.
space_width_end_none : (r : Bytes) → any_space (reverse r) ≡ false → space_width_end r ≡ 0
unfolding space_width_end
space_width_end_none [] h = refl
space_width_end_none (a ∷ []) h = zero_width _ _ _ (no_space (a ∷ []) h).0 refl refl
space_width_end_none (a ∷ b ∷ []) h =
    zero_width _ _ _ (no_space (a ∷ []) (any_space-suffix (b ∷ []) (a ∷ []) h)).0
      (no_space (b ∷ a ∷ []) h).1 refl
space_width_end_none (a ∷ b ∷ c ∷ r) h =
    let e : any_space (reverse r ++ c ∷ b ∷ a ∷ []) ≡ false =
      subst (λ s. any_space s ≡ false) (reverse-append (a ∷ b ∷ c ∷ []) r) h in
    let e₃ = any_space-suffix (reverse r) (c ∷ b ∷ a ∷ []) e in
    let e₂ = any_space-suffix (c ∷ []) (b ∷ a ∷ []) e₃ in
    let e₁ = any_space-suffix (b ∷ []) (a ∷ []) e₂ in
    zero_width _ _ _ (no_space (a ∷ []) e₁).0 (no_space (b ∷ a ∷ []) e₂).1
      (no_space (c ∷ b ∷ a ∷ []) e₃).2

-- A text with no white space is trimmed to itself.
pub trim_space_id : (s : Bytes) → any_space s ≡ false → trim_space s ≡ s
unfolding trim_space
trim_space_id s h =
    rw
      (
        drop_spaces_id space_width s (space_width_none s h),
        drop_spaces_id space_width_end (reverse s)
            (space_width_end_none (reverse s) (rw reverse-reverse h)),
      )
      (reverse-reverse s)

pub equal→eq : (a b : Bytes) → equal a b ≡ true → a ≡ b
unfolding equal
equal→eq (x ∷ a) (y ∷ b) h = ground (arith, equal→eq a b)
equal→eq [] [] h = refl
equal→eq (x ∷ a) [] h = cc
equal→eq [] (y ∷ b) h = cc

pub equal_refl : (a : Bytes) → equal a a ≡ true
unfolding equal
equal_refl [] = refl
equal_refl (x ∷ a) = ground (arith, equal_refl a)
