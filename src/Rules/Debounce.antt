-- ===== src/Rules/Debounce.antt =====
-- When the loop that watches the rule file reloads it.
use vela_dns.Base.{
  ℕ, ◌+◌, ◌≤◌, ◌<◌, ltb, if◌then◌else◌, ◌∙◌, ◌≡◌, refl, Bool, true, if-keeps, some, List, [], ◌∷◌,
  arith,
}
use vela_dns.Text.{Bytes}
use vela_dns.Rules.{Library}
use vela_dns.Rules.Reload.{Matchers, RuleFile}
use vela_dns.Rules.Pending.{HasTimer, IsPending, watch_goes, later-IsPending, watch-IsPending}
use vela_dns.Rules.Watch.{
  reload_debounce, Op, Message, closed, event, events_closed, errors_closed, watch_error, fired,
  edited, Watch, is_change, handle, watch,
}

module _ (lib : Library) (ms : Matchers) (includes : List Bytes) where
  abbrev File : Type 0
  File = RuleFile lib ms includes

  abbrev State : Type 0
  State = Watch lib ms includes

  -- What a message needs to come: the timer has fired where the loop is told so.
  abbrev pub CanCome : ℕ → Message → State → Type 0
  CanCome now closed w = Unit
  CanCome now (event name op) w = Unit
  CanCome now events_closed w = Unit
  CanCome now errors_closed w = Unit
  CanCome now watch_error w = Unit
  CanCome now (fired f) w = (due : ℕ) × (w.timer ≡ some due) × (due ≤ now)
  CanCome now (edited content) w = Unit

  -- When a message reloads the file, it is at least 200 ms after this time.
  abbrev FiresAfter : ℕ → ℕ × Message → Type 0
  FiresAfter since (now, fired f) = since + reload_debounce ≤ now
  FiresAfter since (now, _) = Unit

  -- The messages up to the first that does not come before this time.
  unfoldable pub until : ℕ → List (ℕ × Message) → List (ℕ × Message)
  until time [] = []
  until time ((now, m) ∷ messages) =
      let rest = until time messages in if ltb now time then (now, m) ∷ rest else []

  module _ (clean : Bytes → Bytes) (path : Bytes) where
    -- Messages that can come one after the other, in time.
    unfoldable pub CanFollow : ℕ → List (ℕ × Message) → State → Type 0
    CanFollow last [] w = Unit
    CanFollow last ((now, m) ∷ messages) w =
        (last ≤ now)
        × CanCome now m w
        × CanFollow now messages (handle lib ms includes clean path now m w).0

    -- The timer, if it is set, fires late enough.
    IsArmed : ℕ → State → Type 0
    IsArmed since w = (due : ℕ) → w.timer ≡ some due → since + reload_debounce ≤ due

    fires_after :
        (since now : ℕ) (m : Message) (w : State)
        → IsArmed since w
        → CanCome now m w
        → FiresAfter since (now, m)
    unfolding IsArmed
    fires_after since now closed w a c = tt
    fires_after since now (event name op) w a c = tt
    fires_after since now events_closed w a c = tt
    fires_after since now errors_closed w a c = tt
    fires_after since now watch_error w a c = tt
    fires_after since now (fired f) w a (due, e, late) = omega (arith, a due e, late)
    fires_after since now (edited content) w a c = tt

    handle-IsArmed :
        (since now : ℕ) (m : Message) (w : State)
        → since ≤ now
        → IsArmed since w
        → IsArmed since (handle lib ms includes clean path now m w).0
    unfolding handle IsArmed
    handle-IsArmed since now closed w b a = a
    handle-IsArmed since now (event name op) w b a = ground arith
    handle-IsArmed since now events_closed w b a = a
    handle-IsArmed since now errors_closed w b a = a
    handle-IsArmed since now watch_error w b a = a
    handle-IsArmed since now (fired f) w b a = λ due e. absurd (cc)
    handle-IsArmed since now (edited content) w b a = a

    abbrev UntouchedBy : State → State → Type 0
    UntouchedBy w w' = (w'.rules ≡ w.rules) × (w'.disk.writes ≡ w.disk.writes)

    handle-UntouchedBy :
        (since now : ℕ) (m : Message) (w : State)
        → now < since + reload_debounce
        → FiresAfter since (now, m)
        → UntouchedBy w (handle lib ms includes clean path now m w).0
    unfolding handle
    handle-UntouchedBy since now closed w b a = (refl, refl)
    handle-UntouchedBy since now (event name op) w b a =
        if-keeps (λ (p : State × Bool). UntouchedBy w p.0) (is_change clean path name op)
          (λ changed. (refl, refl)) (λ other. (refl, refl))
    handle-UntouchedBy since now events_closed w b a = (refl, refl)
    handle-UntouchedBy since now errors_closed w b a = (refl, refl)
    handle-UntouchedBy since now watch_error w b a = (refl, refl)
    handle-UntouchedBy since now (fired f) w b a = absurd (omega (arith, a, b))
    handle-UntouchedBy since now (edited content) w b a = (refl, refl)

    -- Until then the loop reloads nothing.
    watch-UntouchedBy :
        (since last : ℕ) (messages : List (ℕ × Message)) (w : State)
        → since ≤ last
        → IsArmed since w
        → CanFollow last messages w
        → UntouchedBy w
            (watch lib ms includes clean path (until (since + reload_debounce) messages) w).0
    unfolding CanFollow watch until
    watch-UntouchedBy since last [] w b a c = (refl, refl)
    watch-UntouchedBy since last ((now, m) ∷ messages) w b a (t, come, follow) =
        let b' : since ≤ now = omega (arith, b, t) in
        let next : State = (handle lib ms includes clean path now m w).0 in
        let (rules, writes) =
          watch-UntouchedBy since now messages next b' (handle-IsArmed since now m w b' a) follow in
        if-keeps
          (λ (early : List (ℕ × Message)).
            UntouchedBy w (watch lib ms includes clean path early w).0)
          (ltb now (since + reload_debounce))
          (λ early.
            let (rules', writes') =
              handle-UntouchedBy since now m w (ground arith) (fires_after since now m w a come) in
            if-keeps (λ (p : State × Bool). UntouchedBy w p.0)
              (handle lib ms includes clean path now m w).1
              (λ more. (rules ∙ rules', writes ∙ writes')) (λ over. (rules', writes')))
          (λ late. (refl, refl))

    first-UntouchedBy :
        (now : ℕ) (m : Message) (messages : List (ℕ × Message)) (w : State)
        → let next = (handle lib ms includes clean path now m w).0 in
          (handle lib ms includes clean path now m w).1 ≡ true
          → UntouchedBy w next
          → UntouchedBy next (watch lib ms includes clean path messages next).0
          → UntouchedBy w (watch lib ms includes clean path ((now, m) ∷ messages) w).0
    first-UntouchedBy now m messages w e (rules, writes) (rules', writes') =
        rw (watch_goes lib ms includes clean path now m messages w e)
          (rules' ∙ rules, writes' ∙ writes)

    -- What a change of the rule file that the loop is told of at `now`, in the state `w`, leads to.
    pub record IsDebounced (now : ℕ) (name : Bytes) (op : Op) (messages : List (ℕ × Message))
        (w : State) : Type 0 where
      pub quiet :
          let early =
            watch lib ms includes clean path
              ((now, event name op) ∷ until (now + reload_debounce) messages)
              w in
          (early.0.rules ≡ w.rules) × (early.0.disk.writes ≡ w.disk.writes)
      pub pending : IsPending lib ms includes clean path ((now, event name op) ∷ messages) w

    -- In messages that can come one after the other, a change of the rule file leaves the rules as they
    -- are and writes nothing before 200 ms have passed, and is not forgotten: the loop reaches a later message of the timer, at
    -- which it reloads the file, so that the rules and the disk are then what the reload gives, or the timer is
    -- still set where the messages or the loop end.
    pub watch-IsDebounced :
        (last now : ℕ) (name : Bytes) (op : Op) (messages : List (ℕ × Message)) (w : State)
        → is_change clean path name op ≡ true
        → CanFollow last ((now, event name op) ∷ messages) w
        → IsDebounced now name op messages w
    unfolding CanFollow watch handle IsArmed HasTimer
    watch-IsDebounced last now name op messages w changed (t, come, follow) =
        let armed : (due : ℕ)
            → (handle lib ms includes clean path now (event name op) w).0.timer ≡ some due
            → now + reload_debounce ≤ due =
          λ due e. ground (arith, changed, e) in
        let set : HasTimer lib ms includes clean path
            (handle lib ms includes clean path now (event name op) w).0 =
          (now + reload_debounce, rw changed refl) in
        record {
          quiet =
              first-UntouchedBy now (event name op) (until (now + reload_debounce) messages) w
                (rw changed refl) (handle-UntouchedBy now now (event name op) w (omega arith) tt)
                (watch-UntouchedBy now now messages _ (omega arith) armed follow);
          pending =
              later-IsPending lib ms includes clean path now (event name op) messages w
                (rw changed refl) (watch-IsPending lib ms includes clean path messages _ set);
        }
