-- ===== src/Supervise/Traces.antt =====
-- What superviseChild of cmd/veladns/process.go writes of its child into the state, as calls among
-- those of the other goroutines.
use Prim.Native.String.{String}
use text.Mathlib.TextEquality.{eq_iff}
use vela_dns.Base.{
  ℕ, ◌≡◌, refl, sym, ap, ◌∙◌, Bool, true, false, if◌then◌else◌, Bool-cases, inl, inr, List, [], ◌∷◌,
  map,
}
use vela_dns.Backoff.{restart_delay}
use vela_dns.Wire.{Component}
use vela_dns.Runtime.{RuntimeState, update}
use vela_dns.Runtime.Components.{component_of}
use vela_dns.Runtime.Interleaved.{
  Call, updated, call, calls, changes_of, changed_by, component_of-calls,
}
use vela_dns.Supervise.{
  Launch, start_failed, exited, interrupted, Round, set_down, set_up, set_restart, next_step,
  schedule, launched, round, supervise,
}

abbrev pub Change : Type 0
Change = Component → Component

-- The writes of a round, with `after` those of its delay and of the rounds behind it.
abbrev pub of_launch : Launch → List Change → List Change
of_launch start_failed after = set_down ∷ after
of_launch (exited true) after = set_up ∷ set_down ∷ []
of_launch (exited false) after = set_up ∷ set_down ∷ after
of_launch interrupted after = set_up ∷ set_down ∷ []

module _ (rand : ℕ → ℕ) where
  -- The writes of the loop.
  abbrev pub trace : List Round → ℕ → List Change
  trace [] step = []
  trace (r ∷ rs) step =
      let later = trace rs (next_step r step) in
      let after =
        set_restart (restart_delay rand (next_step r step))
        ∷ (if r.canceled_in_delay then [] else later) in
      if r.canceled_before then [] else of_launch r.launch after

  module _ (name : String) where
    goes_on : List Round → ℕ × RuntimeState × Bool → RuntimeState
    goes_on rs (step', s', more) =
        let rest = supervise rand name rs step' s' in if more then rest else s'

    abbrev written : List Change → RuntimeState → RuntimeState
    written fns s = calls (map (updated name) fns) s

    scheduled :
        (r : Round) (rs : List Round) (step : ℕ) (s : RuntimeState)
        → ((t : RuntimeState)
            → supervise rand name rs (next_step r step) t ≡ written (trace rs (next_step r step)) t)
        → goes_on rs (schedule rand name r step s)
          ≡ written
              (set_restart (restart_delay rand (next_step r step))
                ∷ (if r.canceled_in_delay then [] else trace rs (next_step r step)))
              s
    unfolding goes_on schedule calls call
    scheduled r rs step s later = elim (Bool-cases r.canceled_in_delay) [
      | inl ended ↦ rw ended refl
      | inr goes ↦ rw goes (later _)
    ]

    launched-written :
        (l : Launch) (r : Round) (rs : List Round) (step : ℕ) (s : RuntimeState)
        → ((t : RuntimeState)
            → supervise rand name rs (next_step r step) t ≡ written (trace rs (next_step r step)) t)
        → goes_on rs (launched rand name l r step s)
          ≡ written
              (of_launch l (
                set_restart (restart_delay rand (next_step r step))
                ∷ (if r.canceled_in_delay then [] else trace rs (next_step r step))))
              s
    unfolding goes_on launched calls call
    launched-written start_failed r rs step s later =
        scheduled r rs step (update name set_down s) later
    launched-written (exited true) r rs step s later = refl
    launched-written (exited false) r rs step s later =
        scheduled r rs step (update name set_down (update name set_up s)) later
    launched-written interrupted r rs step s later = refl

    canceled-written :
        (canceled : Bool) (fns : List Change) (rs : List Round) (step : ℕ) (s : RuntimeState)
        (o : ℕ × RuntimeState × Bool)
        → goes_on rs o ≡ written fns s
        → goes_on rs (if canceled then (step, s, false) else o)
          ≡ written (if canceled then [] else fns) s
    canceled-written true fns rs step s o h = unfold goes_on in unfold calls in refl
    canceled-written false fns rs step s o h = h

    supervise-written :
        (rs : List Round) (step : ℕ) (s : RuntimeState)
        → supervise rand name rs step s ≡ written (trace rs step) s
    unfolding supervise round calls goes_on
    supervise-written [] step s = refl
    supervise-written (r ∷ rs) step s =
        canceled-written r.canceled_before _ rs step s _
          (launched-written r.launch r rs step s (supervise-written rs (next_step r step)))

    changes_of-map : (fns : List Change) → changes_of name (map (updated name) fns) ≡ fns
    unfolding changes_of
    changes_of-map [] = refl
    changes_of-map (fn ∷ fns) =
        rw ((eq_iff name name).1 refl) (ap (λ rest. fn ∷ rest) (changes_of-map fns))

    -- In any sequence of calls of the state's methods in which the calls that change this component
    -- are those of the rounds of its loop, in their order, the component ends as it does when no
    -- other call comes in between.
    pub calls-supervise :
        (rs : List Round) (step : ℕ) (cs : List Call) (s : RuntimeState)
        → changes_of name cs ≡ trace rs step
        → component_of name (calls cs s) ≡ component_of name (supervise rand name rs step s)
    calls-supervise rs step cs s own =
        component_of-calls name cs s
        ∙ ap (λ fns. changed_by fns (component_of name s))
            (own ∙ sym (changes_of-map (trace rs step)))
        ∙ sym (component_of-calls name (map (updated name) (trace rs step)) s)
        ∙ sym (ap (component_of name) (supervise-written rs step s))
