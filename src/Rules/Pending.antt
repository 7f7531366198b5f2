-- ===== src/Rules/Pending.antt =====
-- A reload that waits for the timer, in the messages that the loop watching the rule file receives.
use vela_dns.Base.{
  ℕ, ◌+◌, ◌≡◌, refl, ap, sym, subst, Bool, true, false, Bool-cases, if-keeps, inl, inr, ◌⊎◌, some,
  List, [], ◌∷◌, ◌++◌,
}
use vela_dns.Text.{Bytes}
use vela_dns.Rules.{Library}
use vela_dns.Rules.Reload.{Matchers, Faults, reload}
use vela_dns.Rules.Watch.{
  reload_debounce, Message, closed, event, events_closed, errors_closed, watch_error, fired, edited,
  Watch, is_change, handle, watch,
}

module _ (lib : Library) (ms : Matchers) (includes : List Bytes) where
  abbrev pub State : Type 0
  State = Watch lib ms includes

  module _ (clean : Bytes → Bytes) (path : Bytes) where
    -- One of the messages, the timer's, reaches the loop and reloads the file: the rules and the disk behind it
    -- are those that a reload makes of the rules and the disk before it.
    pub record IsReloaded (messages : List (ℕ × Message)) (w : State) : Type 0 where
      pub before : List (ℕ × Message)
      pub at : ℕ
      pub faults : Faults
      pub after : List (ℕ × Message)
      pub split : messages ≡ before ++ ((at, fired faults) ∷ after)
      pub going : (watch lib ms includes clean path before w).1 ≡ true
      pub reloaded :
          let w₁ = (watch lib ms includes clean path before w).0 in
          let w₂ = (watch lib ms includes clean path (before ++ ((at, fired faults) ∷ [])) w).0 in
          (w₂.rules ≡ (reload lib ms includes faults w₁.rules w₁.disk).0)
          × (w₂.disk ≡ (reload lib ms includes faults w₁.rules w₁.disk).1)

    unfoldable pub HasTimer : State → Type 0
    HasTimer w = (due : ℕ) × (w.timer ≡ some due)

    -- A reload comes, or the timer is set at the end.
    abbrev pub IsPending : List (ℕ × Message) → State → Type 0
    IsPending messages w =
        IsReloaded messages w
        ⊎ ((due : ℕ) × ((watch lib ms includes clean path messages w).0.timer ≡ some due))

    pub watch_goes :
        (now : ℕ) (m : Message) (messages : List (ℕ × Message)) (w : State)
        → (handle lib ms includes clean path now m w).1 ≡ true
        → watch lib ms includes clean path ((now, m) ∷ messages) w
          ≡ watch lib ms includes clean path messages (handle lib ms includes clean path now m w).0
    unfolding watch
    watch_goes now m messages w e = rw e refl

    watch_stops :
        (now : ℕ) (m : Message) (messages : List (ℕ × Message)) (w : State)
        → (handle lib ms includes clean path now m w).1 ≡ false
        → (watch lib ms includes clean path ((now, m) ∷ messages) w).0
          ≡ (handle lib ms includes clean path now m w).0
    unfolding watch
    watch_stops now m messages w e = rw e refl

    pub later-IsPending :
        (now : ℕ) (m : Message) (messages : List (ℕ × Message)) (w : State)
        → (handle lib ms includes clean path now m w).1 ≡ true
        → IsPending messages (handle lib ms includes clean path now m w).0
        → IsPending ((now, m) ∷ messages) w
    later-IsPending now m messages w e (inl h) = inl (record {
      before = (now, m) ∷ h.before;
      at = h.at;
      faults = h.faults;
      after = h.after;
      split = ap (λ l. (now, m) ∷ l) h.split;
      going = rw (watch_goes now m h.before w e) h.going;
      reloaded =
          rw
            (
              watch_goes now m h.before w e,
              watch_goes now m (h.before ++ ((h.at, fired h.faults) ∷ [])) w e,
            )
            h.reloaded;
    })
    later-IsPending now m messages w e (inr due) = inr (rw (watch_goes now m messages w e) due)

    -- A timer that is set stays set, if the message does not say that it has fired.
    handle-HasTimer :
        (now : ℕ) (m : Message) (w : State)
        → HasTimer w
        → ((f : Faults) × (m ≡ fired f)) ⊎ HasTimer (handle lib ms includes clean path now m w).0
    unfolding handle HasTimer
    handle-HasTimer now closed w d = inr d
    handle-HasTimer now (event name op) w d = inr (
        if-keeps (λ (p : State × Bool). HasTimer p.0) (is_change clean path name op)
          (λ changed. (now + reload_debounce, refl)) (λ other. d))
    handle-HasTimer now events_closed w d = inr d
    handle-HasTimer now errors_closed w d = inr d
    handle-HasTimer now watch_error w d = inr d
    handle-HasTimer now (fired f) w d = inl (f, refl)
    handle-HasTimer now (edited content) w d = inr d

    fired-IsReloaded :
        (now : ℕ) (f : Faults) (messages : List (ℕ × Message)) (w : State)
        → IsReloaded ((now, fired f) ∷ messages) w
    unfolding watch handle
    fired-IsReloaded now f messages w = record {
      before = [];
      at = now;
      faults = f;
      after = messages;
      split = refl;
      going = refl;
      reloaded = (refl, refl);
    }

    pub watch-IsPending :
        (messages : List (ℕ × Message)) (w : State) → HasTimer w → IsPending messages w
    unfolding watch HasTimer
    watch-IsPending [] w d = inr d
    watch-IsPending ((now, m) ∷ messages) w d = elim (handle-HasTimer now m w d) [
      | inl (f, e) ↦
          subst (λ m. IsPending ((now, m) ∷ messages) w) (sym e)
            (inl (fired-IsReloaded now f messages w))
      | inr still ↦ elim (Bool-cases (handle lib ms includes clean path now m w).1) [
        | inl more ↦
            later-IsPending now m messages w more
              (watch-IsPending messages (handle lib ms includes clean path now m w).0 still)
        | inr over ↦ inr (rw (watch_stops now m messages w over) still)
      ]
    ]
