-- ===== src/Supervise/Laws.antt =====
-- What the supervisor's state says of a child: it is up only while it runs, and its restarts are
-- counted.
use Prim.Native.String.{String}
use text.Mathlib.Text.{◌==◌}
use vela_dns.Base.{
  ℕ, suc, ◌+◌, ◌<◌, ◌≡◌, refl, ap, ◌∙◌, Bool, true, false, if◌then◌else◌, List, [], ◌∷◌, arith,
  Bool-cases, inl, inr,
}
use vela_dns.Base.Int64.{wrap, two64}
use vela_dns.Backoff.{restart_delay}
use vela_dns.Wire.{Component}
use vela_dns.Runtime.{RuntimeState, update}
use vela_dns.Runtime.Components.{component_of, update_self, update_other}
use vela_dns.Supervise.{
  Launch, start_failed, exited, interrupted, Round, set_down, set_up, set_restart, next_step,
  schedule, launched, round, supervise,
}

-- The restarts that a launch leads to, with `later` those of the rounds behind it.
abbrev restarts_after : Launch → ℕ → ℕ
restarts_after start_failed later = suc later
restarts_after (exited true) later = 0
restarts_after (exited false) later = suc later
restarts_after interrupted later = 0

-- How often the loop gets to the delay.
abbrev pub restarts_of : List Round → ℕ
restarts_of [] = 0
restarts_of (r ∷ rs) =
    let later = restarts_of rs in
    if r.canceled_before
    then 0
    else restarts_after r.launch (if r.canceled_in_delay then 0 else later)

module _ (rand : ℕ → ℕ) (name : String) where
  -- What the rounds from `s` to `s'`, with n restarts, keep and change.
  pub record IsAccounted (n : ℕ) (s s' : RuntimeState) : Type 0 where
    pub down : (component_of name s').up ≡ false
    pub counted : (component_of name s').restarts ≡ wrap ((component_of name s).restarts + n)
    pub others : (j : String) → (name == j) ≡ false → component_of j s' ≡ component_of j s

  unchanged :
      (s : RuntimeState)
      → (component_of name s).up ≡ false
      → (component_of name s).restarts < two64
      → IsAccounted 0 s s
  unchanged s u b = record { down = u; counted = omega arith; others = λ j e. refl }

  stopped :
      (s : RuntimeState)
      → (component_of name s).restarts < two64
      → IsAccounted 0 s (update name set_down (update name set_up s))
  stopped s b =
      let both =
        update_self name set_down (update name set_up s)
        ∙ ap set_down (update_self name set_up s) in
      record {
        down = ap (λ (c : Component). c.up) both;
        counted = ap (λ (c : Component). c.restarts) both ∙ omega arith;
        others = λ j e.
            update_other name j set_down (update name set_up s) e ∙ update_other name j set_up s e;
      }

  downed :
      (s : RuntimeState)
      → (component_of name s).restarts < two64
      → IsAccounted 0 s (update name set_down s)
  downed s b =
      let one = update_self name set_down s in
      record {
        down = ap (λ (c : Component). c.up) one;
        counted = ap (λ (c : Component). c.restarts) one ∙ omega arith;
        others = λ j e. update_other name j set_down s e;
      }

  restarted :
      (delay n : ℕ) (s s' : RuntimeState)
      → IsAccounted n s s'
      → IsAccounted (suc n) s (update name (set_restart delay) s')
  restarted delay n s s' h =
      let one = update_self name (set_restart delay) s' in
      record {
        down = ap (λ (c : Component). c.up) one;
        counted = ap (λ (c : Component). c.restarts) one ∙ omega (arith, h.counted);
        others = λ j e. update_other name j (set_restart delay) s' e ∙ h.others j e;
      }

  joined :
      (m : ℕ) (s s' s'' : RuntimeState)
      → IsAccounted 1 s s'
      → IsAccounted m s' s''
      → IsAccounted (suc m) s s''
  joined m s s' s'' a b = record {
    down = b.down;
    counted = omega (arith, a.counted, b.counted);
    others = λ j e. b.others j e ∙ a.others j e;
  }

  bounded :
      (n : ℕ) (s s' : RuntimeState) → IsAccounted n s s' → (component_of name s').restarts < two64
  bounded n s s' h = omega (arith, h.counted)

  -- What the rest of the rounds makes of what one round gives.
  goes_on : List Round → ℕ × RuntimeState × Bool → RuntimeState
  goes_on rs (step', s', more) =
      let rest = supervise rand name rs step' s' in if more then rest else s'

  scheduled :
      (r : Round) (rs : List Round) (step : ℕ) (s s' : RuntimeState)
      → IsAccounted 0 s s'
      → ((step' : ℕ) (t : RuntimeState)
          → (component_of name t).up ≡ false
          → (component_of name t).restarts < two64
          → IsAccounted (restarts_of rs) t (supervise rand name rs step' t))
      → IsAccounted
          (suc (if r.canceled_in_delay then 0 else restarts_of rs))
          s
          (goes_on rs (schedule rand name r step s'))
  unfolding schedule goes_on
  scheduled r rs step s s' h later =
      let delay = restart_delay rand (next_step r step) in
      let once : IsAccounted 1 s (update name (set_restart delay) s') = restarted delay 0 s s' h in
      elim (Bool-cases r.canceled_in_delay) [
        | inl ended ↦ rw ended once
        | inr goes ↦ rw goes (
            joined (restarts_of rs) s (update name (set_restart delay) s')
              (supervise rand name rs (next_step r step) (update name (set_restart delay) s')) once
              (later (next_step r step) _ once.down (bounded 1 s _ once)))
      ]

  launched-IsAccounted :
      (l : Launch) (r : Round) (rs : List Round) (step : ℕ) (s : RuntimeState)
      → (component_of name s).restarts < two64
      → ((step' : ℕ) (t : RuntimeState)
          → (component_of name t).up ≡ false
          → (component_of name t).restarts < two64
          → IsAccounted (restarts_of rs) t (supervise rand name rs step' t))
      → IsAccounted
          (restarts_after l (if r.canceled_in_delay then 0 else restarts_of rs))
          s
          (goes_on rs (launched rand name l r step s))
  unfolding launched
  launched-IsAccounted start_failed r rs step s b later =
      scheduled r rs step s (update name set_down s) (downed s b) later
  launched-IsAccounted (exited true) r rs step s b later = unfold goes_on in stopped s b
  launched-IsAccounted (exited false) r rs step s b later =
      scheduled r rs step s (update name set_down (update name set_up s)) (stopped s b) later
  launched-IsAccounted interrupted r rs step s b later = unfold goes_on in stopped s b

  canceled-IsAccounted :
      (canceled : Bool) (n : ℕ) (rs : List Round) (step : ℕ) (s : RuntimeState)
      (o : ℕ × RuntimeState × Bool)
      → IsAccounted 0 s s
      → IsAccounted n s (goes_on rs o)
      → IsAccounted
          (if canceled then 0 else n)
          s
          (goes_on rs (if canceled then (step, s, false) else o))
  canceled-IsAccounted true n rs step s o same h = unfold goes_on in same
  canceled-IsAccounted false n rs step s o same h = h

  -- From a state in which the child is down, with fewer than 2^64 restarts, any number of rounds
  -- ends with the child down, with its restarts counted modulo 2^64, one for each time that the loop
  -- came to the delay, and with the other components as they were.
  pub supervise-IsAccounted :
      (rs : List Round) (step : ℕ) (s : RuntimeState)
      → (component_of name s).up ≡ false
      → (component_of name s).restarts < two64
      → IsAccounted (restarts_of rs) s (supervise rand name rs step s)
  unfolding supervise round goes_on
  supervise-IsAccounted [] step s u b = unchanged s u b
  supervise-IsAccounted (r ∷ rs) step s u b =
      canceled-IsAccounted r.canceled_before _ rs step s _ (unchanged s u b)
        (launched-IsAccounted r.launch r rs step s b (λ step' t. supervise-IsAccounted rs step' t))
