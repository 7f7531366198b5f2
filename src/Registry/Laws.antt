-- ===== src/Registry/Laws.antt =====
-- What a registry has after the loops over a plugin's collectors.
use text.Mathlib.TextEquality.{eq_iff}
use vela_dns.Base.{
  ◌≡◌, refl, ap, subst, Bool, true, false, not, ◌&&◌, ◌||◌, Option, none, some, List, [], ◌∷◌, ◌++◌,
  arith, Bool-cases, inl, inr,
}
use vela_dns.Registry.{Collector, same, Registry, register_all, unregister_all}

abbrev pub is_in : Collector → List Collector → Bool
is_in d [] = false
is_in d (c ∷ cs) = same c d || is_in d cs

-- One collector is named like another only where it is the other.
pub same-eq : (c d : Collector) → same c d ≡ true → c ≡ d
same-eq (name, tag) (name', tag') h = ground (arith, eq_iff name name', eq_iff tag tag')

module _ (reg : Registry) where
  -- The registry `s'` has, beside what `s` has, just these.
  abbrev pub HasAlso : List Collector → reg.State → reg.State → Type 0
  HasAlso cs s s' = (d : Collector) → reg.has d s' ≡ (is_in d cs || reg.has d s)

  abbrev pub HasSame : reg.State → reg.State → Type 0
  HasSame s s' = (d : Collector) → reg.has d s' ≡ reg.has d s

  unregister_all-has :
      (cs : List Collector) (s : reg.State) (d : Collector)
      → reg.has d (unregister_all reg cs s) ≡ (not (is_in d cs) && reg.has d s)
  unfolding unregister_all
  unregister_all-has [] s d = refl
  unregister_all-has (c ∷ cs) s d =
      let later = unregister_all-has cs (reg.unregister c s) d in
      let now = reg.removes c d s in ground arith

  -- A registry that refuses a collector, has those before it, and had none of them.
  pub record Stopped (cs : List Collector) (s s' : reg.State) : Type 0 where
    pub before : List Collector
    pub at : Collector
    pub after : List Collector
    pub split : cs ≡ before ++ (at ∷ after)
    pub kept : HasAlso before s s'
    pub new : (d : Collector) → is_in d before ≡ true → reg.has d s ≡ false
    pub refuses : reg.register at s' ≡ none

  -- What the loop leaves, where all are taken and where one is refused.
  pub data Left (cs : List Collector) (s : reg.State) : Bool × reg.State → Type 0 where
    taken :
        (s' : reg.State)
        → HasAlso cs s s'
        → ((d : Collector) → is_in d cs ≡ true → reg.has d s ≡ false)
        → Left cs s (true, s')
    refused : (s' : reg.State) → Stopped cs s s' → Left cs s (false, s')

  joined :
      (c : Collector) (cs : List Collector) (s s' s'' : reg.State)
      → reg.register c s ≡ some s'
      → HasAlso cs s' s''
      → HasAlso (c ∷ cs) s s''
  joined c cs s s' s'' one more d =
      let now = reg.adds c s s' one d in let later = more d in ground arith

  new_still :
      (c : Collector) (cs : List Collector) (s s' : reg.State)
      → reg.register c s ≡ some s'
      → ((d : Collector) → is_in d cs ≡ true → reg.has d s' ≡ false)
      → (d : Collector) → is_in d (c ∷ cs) ≡ true
      → reg.has d s ≡ false
  new_still c cs s s' one later d member = elim (Bool-cases (same c d)) [
    | inl e ↦ subst (λ k. reg.has k s ≡ false) (same-eq c d e) (reg.refuses c s s' one)
    | inr other ↦
        let now = reg.adds c s s' one d in let new = later d (ground arith) in ground arith
  ]

  extended :
      (c : Collector) (cs : List Collector) (s s' : reg.State) (o : Bool × reg.State)
      → reg.register c s ≡ some s'
      → Left cs s' o
      → Left (c ∷ cs) s o
  extended c cs s s' o one (taken s'' more new) =
      taken s'' (joined c cs s s' s'' one more) (new_still c cs s s' one new)
  extended c cs s s' o one (refused s'' stop) = refused s'' (record {
    before = c ∷ stop.before;
    at = stop.at;
    after = stop.after;
    split = ap (λ l. c ∷ l) stop.split;
    kept = joined c stop.before s s' s'' one stop.kept;
    new = new_still c stop.before s s' one stop.new;
    refuses = stop.refuses;
  })

  by_first :
      (c : Collector) (cs : List Collector) (s : reg.State) (o : Option reg.State)
      → reg.register c s ≡ o
      → ((s' : reg.State) → Left cs s' (register_all reg cs s'))
      → Left (c ∷ cs) s (elim o [ none ↦ (false, s) | some s' ↦ register_all reg cs s' ])
  by_first c cs s none e later = refused s (record {
    before = [];
    at = c;
    after = cs;
    split = refl;
    kept = λ d. refl;
    new = λ d h. cc;
    refuses = e;
  })
  by_first c cs s (some s') e later = extended c cs s s' _ e (later s')

  pub register_all-Left : (cs : List Collector) (s : reg.State) → Left cs s (register_all reg cs s)
  unfolding register_all
  register_all-Left [] s = taken s (λ d. refl) (λ d h. ground arith)
  register_all-Left (c ∷ cs) s =
      by_first c cs s (reg.register c s) refl (λ s'. register_all-Left cs s')

  -- Where all collectors of a plugin are registered, and they are unregistered later, the registry
  -- has what it had before.
  pub unregister_all-register_all :
      (cs : List Collector) (s s' : reg.State)
      → register_all reg cs s ≡ (true, s')
      → HasSame s (unregister_all reg cs s')
  unregister_all-register_all cs s s' h = of_left (register_all-Left cs s) h
    where
      of_left :
          {o : Bool × reg.State}
          → Left cs s o
          → o ≡ (true, s')
          → HasSame s (unregister_all reg cs s')
      of_left (taken t more new) e d =
          let at_end : t ≡ s' = ap (λ o. o.1) e in
          let gone = unregister_all-has cs s' d in
          let there : reg.has d s' ≡ (is_in d cs || reg.has d s) =
            subst (λ k. reg.has d k ≡ (is_in d cs || reg.has d s)) at_end (more d) in
          let fresh = new d in ground arith
      of_left (refused t stop) e d = absurd (ground arith)

  -- A loop that stops behind its first collector stops at that one when it is tried again.
  pub register_all_again :
      (c : Collector) (cs : List Collector) (s s' t : reg.State)
      → reg.register c s ≡ some s'
      → register_all reg cs s' ≡ (false, t)
      → register_all reg (c ∷ cs) t ≡ (false, t)
  unfolding register_all
  register_all_again c cs s s' t one h = of_left (register_all-Left cs s') h (reg.register c t) refl
    where
      of_left :
          {o : Bool × reg.State}
          → Left cs s' o
          → o ≡ (false, t)
          → (r : Option reg.State) → reg.register c t ≡ r
          → elim r as (λ r. Bool × reg.State) [
            | none ↦ (false, t)
            | some s'' ↦ register_all reg cs s''
          ]
            ≡ (false, t)
      of_left left e none k = refl
      of_left (taken u more new) e (some s'') k = absurd (ground arith)
      of_left (refused u stop) e (some s'') k =
          let at_end : u ≡ t = ap (λ o. o.1) e in
          let there : reg.has c t ≡ (is_in c stop.before || reg.has c s') =
            subst (λ v. reg.has c v ≡ (is_in c stop.before || reg.has c s')) at_end (stop.kept c) in
          let now = reg.adds c s s' one c in
          let old = reg.refuses c t s'' k in absurd (ground (arith, eq_iff c.0 c.0, eq_iff c.1 c.1))

  -- A loop that some collector stops is stopped again when it is tried again.
  pub register_all_refused :
      (cs : List Collector) (s t : reg.State)
      → register_all reg cs s ≡ (false, t)
      → register_all reg cs t ≡ (false, t)
  unfolding register_all
  register_all_refused [] s t h = absurd (ground arith)
  register_all_refused (c ∷ cs) s t h = by_case (reg.register c s) refl h
    where
      by_case :
          (r : Option reg.State)
          → reg.register c s ≡ r
          → elim r as (λ r. Bool × reg.State) [
            | none ↦ (false, s)
            | some s' ↦ register_all reg cs s'
          ]
            ≡ (false, t)
          → register_all reg (c ∷ cs) t ≡ (false, t)
      by_case none e k =
          subst (λ u. register_all reg (c ∷ cs) u ≡ (false, u)) (ap (λ o. o.1) k)
            (rw (register_all, e) refl)
      by_case (some s') e k = register_all_again c cs s s' t e k

  pub register-has :
      (c : Collector) (s s' : reg.State) → reg.register c s ≡ some s' → reg.has c s' ≡ true
  register-has c s s' h =
      let now = reg.adds c s s' h c in ground (arith, eq_iff c.0 c.0, eq_iff c.1 c.1)

  pub unregister-register :
      (c : Collector) (s s' : reg.State)
      → reg.register c s ≡ some s'
      → HasSame s (reg.unregister c s')
  unfolding register_all unregister_all
  unregister-register c s s' h d =
      unregister_all-register_all (c ∷ []) s s' (rw (register_all, h) refl) d

  -- Where one is refused, the registry has those before it beside what it had, and refuses it still.
  pub register_all-Stopped :
      (cs : List Collector) (s t : reg.State) → register_all reg cs s ≡ (false, t) → Stopped cs s t
  register_all-Stopped cs s t h = of_left (register_all-Left cs s) h
    where
      of_left : {o : Bool × reg.State} → Left cs s o → o ≡ (false, t) → Stopped cs s t
      of_left (taken u more new) e = absurd (ground arith)
      of_left (refused u stop) e = subst (Stopped cs s) (ap (λ o. o.1) e) stop
