-- ===== src/Waiting/Laws.antt =====
-- The wait ends in time, and with the outcome that its passes call for.
use vela_dns.Base.{
  ℕ, zero, suc, ◌+◌, ◌*◌, ◌/◌, ◌≤◌, ◌<◌, ◌≡◌, refl, ◌∙◌, ◌⊎◌, true, false, ltb, Bool-cases, ltb→lt,
  lt→ltb, inl, inr, some, arith, subst,
}
use vela_dns.Waiting.{
  Pass, World, Outcome, connected, canceled, timed_out, pause, wait_from, wait_for_tcp,
}

-- The clock goes on, and time.After waits at least its duration before the next pass.
pub record IsPaced (started : ℕ) (world : World) : Type 0 where
  pub begins : started ≤ (world 0).now
  pub pauses : (i : ℕ) → (world i).now + pause ≤ (world (suc i)).now

-- A pass that has time left and after which the loop goes on.
pub record IsVain (deadline : ℕ) (pass : Pass) : Type 0 where
  pub in_time : pass.now < deadline
  pub refused : pass.connects ≡ false
  pub alive : pass.canceled ≡ false

-- The pass that ends the wait, by its outcome.
abbrev pub EndsWith : ℕ → Pass → Outcome → Type 0
EndsWith deadline pass connected = (pass.now < deadline) × (pass.connects ≡ true)
EndsWith deadline pass canceled =
    (pass.now < deadline) × (pass.connects ≡ false) × (pass.canceled ≡ true)
EndsWith deadline pass timed_out = deadline ≤ pass.now

-- The wait, with its outcome, ends in one of its first passes, and all passes before are in vain.
pub record IsEnded (fuel : ℕ) (world : World) (deadline i : ℕ) : Type 0 where
  pub outcome : Outcome
  pub returned : wait_from fuel world deadline i ≡ some outcome
  pub last : ℕ
  pub bounded : last < fuel
  pub ended : EndsWith deadline (world (i + last)) outcome
  pub vain : (j : ℕ) → j < last → IsVain deadline (world (i + j))

ends_now :
    (fuel : ℕ) (world : World) (deadline i : ℕ) (outcome : Outcome)
    → wait_from (suc fuel) world deadline i ≡ some outcome
    → EndsWith deadline (world i) outcome
    → IsEnded (suc fuel) world deadline i
ends_now fuel world deadline i outcome r e = record {
  outcome = outcome;
  returned = r;
  last = 0;
  bounded = omega arith;
  ended = subst (λ k. EndsWith deadline (world k) outcome) (omega arith) e;
  vain = λ j h. absurd (omega (arith, h));
}

paced_by :
    (started : ℕ) (world : World)
    → IsPaced started world
    → (i : ℕ) → started + pause * i ≤ (world i).now
paced_by started world h zero = omega (arith, h.begins)
paced_by started world h (suc i) = omega (arith, paced_by started world h i, h.pauses i)

goes_on :
    (fuel : ℕ) (world : World) (deadline i : ℕ)
    → IsVain deadline (world i)
    → wait_from (suc fuel) world deadline i ≡ wait_from fuel world deadline (suc i)
unfolding wait_from
goes_on fuel world deadline i v =
    rw (lt→ltb (world i).now deadline v.in_time, v.refused, v.alive) refl

IsVain-before :
    (world : World) (deadline i last : ℕ)
    → IsVain deadline (world i)
    → ((j : ℕ) → j < last → IsVain deadline (world (suc i + j)))
    → (j : ℕ) → j < suc last
    → IsVain deadline (world (i + j))
IsVain-before world deadline i last v vs zero h =
    subst (λ k. IsVain deadline (world k)) (omega arith) v
IsVain-before world deadline i last v vs (suc j) h =
    subst (λ k. IsVain deadline (world k)) (omega arith) (vs j (omega arith))

ends_later :
    (fuel : ℕ) (world : World) (deadline i : ℕ)
    → IsVain deadline (world i)
    → IsEnded fuel world deadline (suc i)
    → IsEnded (suc fuel) world deadline i
ends_later fuel world deadline i v h = record {
  outcome = h.outcome;
  returned = goes_on fuel world deadline i v ∙ h.returned;
  last = suc h.last;
  bounded = omega (arith, h.bounded);
  ended = subst (λ k. EndsWith deadline (world k) h.outcome) (omega arith) h.ended;
  vain = IsVain-before world deadline i h.last v h.vain;
}

-- Either the pass ends the wait, or it is in vain.
this_pass :
    (fuel : ℕ) (world : World) (deadline i : ℕ)
    → IsEnded (suc fuel) world deadline i ⊎ IsVain deadline (world i)
unfolding wait_from
this_pass fuel world deadline i = elim (Bool-cases (ltb (world i).now deadline)) [
  | inr late ↦ inl (ends_now fuel world deadline i timed_out (rw late refl) (ground arith))
  | inl early ↦ elim (Bool-cases (world i).connects) [
    | inl hit ↦
        inl
          (ends_now fuel world deadline i connected (rw (early, hit) refl) (ltb→lt _ _ early, hit))
    | inr refused ↦ elim (Bool-cases (world i).canceled) [
      | inl over ↦ inl (
          ends_now fuel world deadline i canceled (rw (early, refused, over) refl)
            (ltb→lt _ _ early, refused, over))
      | inr alive ↦ inr (record { in_time = ltb→lt _ _ early; refused = refused; alive = alive })
    ]
  ]
]

wait_from-IsEnded :
    (fuel : ℕ) (world : World) (deadline i : ℕ)
    → deadline ≤ (world (i + fuel)).now
    → IsEnded (suc fuel) world deadline i
wait_from-IsEnded zero world deadline i late = elim (this_pass zero world deadline i) [
  | inl e ↦ e
  | inr v ↦
      let l : deadline ≤ (world i).now = subst (λ k. deadline ≤ (world k).now) (omega arith) late in
      absurd (omega (arith, v.in_time, l))
]
wait_from-IsEnded (suc fuel) world deadline i late = elim (this_pass (suc fuel) world deadline i) [
  | inl e ↦ e
  | inr v ↦ ends_later (suc fuel) world deadline i v (
      wait_from-IsEnded fuel world deadline (suc i)
        (subst (λ k. deadline ≤ (world k).now) (omega arith) late))
]

-- If the clock goes on, and each pause lasts 100 ms at least, then the wait returns, after at most
-- one pass for each 100 ms of its timeout and two more. It returns what its last pass calls for,
-- which is in time and connects, or is in time, does not connect and finds the context at its end,
-- or is too late, and no pass before that was late, connected or found the context at its end.
pub wait_for_tcp-IsEnded :
    (world : World) (started timeout : ℕ)
    → IsPaced started world
    → (e : IsEnded (timeout / pause + 2) world (started + timeout) 0) × (wait_for_tcp
          (timeout / pause + 2)
          world
          started
          timeout
        ≡ some e.outcome)
unfolding wait_for_tcp
wait_for_tcp-IsEnded world started timeout h =
    let reached : started + pause * (timeout / pause + 1)
        ≤ (world (0 + (timeout / pause + 1))).now =
      subst (λ k. started + pause * (timeout / pause + 1) ≤ (world k).now) (omega arith)
        (paced_by started world h (timeout / pause + 1)) in
    let late : started + timeout ≤ (world (0 + (timeout / pause + 1))).now =
      omega (arith, reached) in
    let e : IsEnded (timeout / pause + 2) world (started + timeout) 0 =
      subst (λ f. IsEnded f world (started + timeout) 0) (omega arith)
        (wait_from-IsEnded (timeout / pause + 1) world (started + timeout) 0 late) in
    (e, e.returned)
