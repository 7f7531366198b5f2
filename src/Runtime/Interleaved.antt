-- ===== src/Runtime/Interleaved.antt =====
-- The methods of the state, called by the goroutines of the supervisor in any order: each holds the
-- mutex, so that a run is a list of calls. What a component or an upstream shows depends on its own
-- calls only.
use Prim.Native.String.{String}
use text.Mathlib.Text.{◌==◌}
use text.Mathlib.TextEquality.{eq_iff}
use vela_dns.Base.{
  ◌≡◌, refl, ap, subst, ◌∙◌, true, false, if◌then◌else◌, Bool-cases, inl, inr, List, [], ◌∷◌,
}
use vela_dns.Base.Dict.{at_or, has_key, store}
use vela_dns.Wire.{Component, zero_upstream}
use vela_dns.Runtime.{RuntimeState, update, register, observed, observe}
use vela_dns.Runtime.Components.{component_of, update_self, update_other}
use vela_dns.Runtime.Counts.{Entry, registered, recorded, apply}
use vela_dns.Runtime.Counts

-- A call of update, or one of the two that are about an upstream.
pub data Call : Type 0 where
  updated : String → (Component → Component) → Call
  entered : Entry → Call

unfoldable pub call : Call → RuntimeState → RuntimeState
unfolding apply
call (updated name fn) s = update name fn s
call (entered e) s = apply e s

unfoldable pub calls : List Call → RuntimeState → RuntimeState
unfolding call
calls [] s = s
calls (c ∷ cs) s = calls cs (call c s)

-- The changes of one component, in their order.
unfoldable pub changes_of : String → List Call → List (Component → Component)
changes_of name [] = []
changes_of name (updated n fn ∷ cs) =
    let rest = changes_of name cs in if n == name then fn ∷ rest else rest
changes_of name (entered e ∷ cs) = changes_of name cs

abbrev pub changed_by : List (Component → Component) → Component → Component
changed_by [] c = c
changed_by (fn ∷ fns) c = changed_by fns (fn c)

-- The calls that are about upstreams.
unfoldable pub entries_of : List Call → List Entry
entries_of [] = []
entries_of (updated name fn ∷ cs) = entries_of cs
entries_of (entered e ∷ cs) = e ∷ entries_of cs

component_of-apply :
    (name : String) (e : Entry) (s : RuntimeState)
    → component_of name (apply e s) ≡ component_of name s
unfolding apply register observe
component_of-apply name (registered n) s = refl
component_of-apply name (recorded n r d t now) s = refl

-- Whatever calls come in between, a component goes through its own changes, in their order.
pub component_of-calls :
    (name : String) (cs : List Call) (s : RuntimeState)
    → component_of name (calls cs s) ≡ changed_by (changes_of name cs) (component_of name s)
unfolding calls changes_of call
component_of-calls name [] s = refl
component_of-calls name (updated n fn ∷ cs) s =
    component_of-calls name cs (update n fn s) ∙ elim (Bool-cases (n == name)) [
      | inl same ↦ rw same (
          ap (λ c. changed_by (changes_of name cs) c)
            (subst (λ k. component_of k (update n fn s) ≡ fn (component_of k s))
              ((eq_iff n name).0 same) (update_self n fn s)))
      | inr other ↦ rw other (ap (changed_by (changes_of name cs)) (update_other n name fn s other))
    ]
component_of-calls name (entered e ∷ cs) s =
    component_of-calls name cs (apply e s)
    ∙ ap (changed_by (changes_of name cs)) (component_of-apply name e s)

-- Two states with the same upstreams keep the same upstreams.
apply-upstreams :
    (e : Entry) (s t : RuntimeState)
    → s.upstreams ≡ t.upstreams
    → (apply e s).upstreams ≡ (apply e t).upstreams
unfolding apply register observe
apply-upstreams (registered n) s t same = elim (Bool-cases (has_key n s.upstreams)) [
  | inl old ↦ rw (old, subst (λ m. has_key n m ≡ true) same old) same
  | inr new ↦ rw (new, subst (λ m. has_key n m ≡ false) same new) (ap (store n zero_upstream) same)
]
apply-upstreams (recorded n r d t' now) s t same =
    ap (λ m. store n (observed r d t' now (at_or zero_upstream n m)) m) same

run-upstreams :
    (es : List Entry) (s t : RuntimeState)
    → s.upstreams ≡ t.upstreams
    → (Counts.run es s).upstreams ≡ (Counts.run es t).upstreams
unfolding Counts.run
run-upstreams [] s t same = same
run-upstreams (e ∷ es) s t same =
    run-upstreams es (apply e s) (apply e t) (apply-upstreams e s t same)

-- Whatever calls come in between, the upstreams go through their own calls, in their order.
pub upstreams-calls :
    (cs : List Call) (s : RuntimeState)
    → (calls cs s).upstreams ≡ (Counts.run (entries_of cs) s).upstreams
unfolding calls call entries_of Counts.run
upstreams-calls [] s = refl
upstreams-calls (updated n fn ∷ cs) s =
    upstreams-calls cs (update n fn s)
    ∙ run-upstreams (entries_of cs) (update n fn s) s (unfold update in refl)
upstreams-calls (entered e ∷ cs) s = upstreams-calls cs (apply e s)
