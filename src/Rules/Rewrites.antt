-- ===== src/Rules/Rewrites.antt =====
-- What the reload does that its own write of the rule file brings about.
use vela_dns.Base.{
  ℕ, suc, ◌+◌, ◌≤◌, ◌<◌, ◌≡◌, refl, sym, ap, ◌∙◌, subst, Bool, true, false, ltb, Option, none, some,
  List, [], ◌∷◌, arith, length, ◌&&◌, lt→ltb,
}
use vela_dns.Text.{Bytes}
use vela_dns.Text.Laws.{equal_refl}
use vela_dns.Rules.{Library, cleaned, sanitize_rules, max_rule_file_bytes}
use vela_dns.Rules.Sanitized.{sanitize_normal}
use vela_dns.Rules.Settled.{IsServing}
use vela_dns.Rules.Reload.{
  Matchers, Disk, write_file_atomic, Faults, RuleFile, no_rule, restore_or_clear, accept, reload,
  install,
}
use vela_dns.Rules.Watch.{
  reload_debounce, Op, Message, event, fired, Watch, is_change, handle, watch,
}
use vela_dns.Rules.Debounce.{CanFollow}
use vela_dns.Rules.Pending.{watch_goes}

-- No call fails.
abbrev pub no_faults : Faults
no_faults = record {
  unread = false;
  writing = record {
    stat = false;
    create = false;
    chmod = false;
    write = false;
    close = false;
    rename = false;
  };
}

written : (content : Bytes) (d : Disk) → Disk
written content d = record d { file = some content; temp = none; writes = suc d.writes }

-- The messages of a loop that is told of its own writes: a report and the timer, each at its time.
abbrev pub echoes : Bytes → Op → List (ℕ × ℕ) → List (ℕ × Message)
echoes name op [] = []
echoes name op ((seen, due) ∷ times) =
    (seen, event name op) ∷ (due, fired no_faults) ∷ echoes name op times

-- The times are in order, and the timer comes 200 ms after the report or later.
abbrev pub AreRounds : ℕ → List (ℕ × ℕ) → Type 0
AreRounds last [] = Unit
AreRounds last ((seen, due) ∷ times) =
    (last ≤ seen) × (seen + reload_debounce ≤ due) × AreRounds due times

module _ (lib : Library) (ms : Matchers) (includes : List Bytes) where
  meaningful_rules :
      (rules : List Bytes) (loaded : Bool)
      → (ltb 0 (length rules) && no_rule rules && loaded) ≡ false
  meaningful_rules [] loaded = refl
  meaningful_rules (r ∷ rs) loaded = ground arith

  same_file :
      (r : RuleFile lib ms includes) (x : Option ms.Matcher) (content : Bytes)
      → r.loaded ≡ true
      → r.matcher ≡ x
      → content ≡ r.last_good
      → record r { matcher = x; last_good = content; loaded = true } ≡ r
  same_file r x content l m c = cc

  adopt_same :
      (f : Faults) (m : Option ms.Matcher) (x : ms.Matcher) (content raw : Bytes)
      (r : RuleFile lib ms includes) (d : Disk)
      → r.loaded ≡ true
      → r.matcher ≡ some x
      → raw ≡ r.last_good
      → content ≡ r.last_good
      → m ≡ some x
      → install lib ms includes f raw content m r d ≡ (r, d, none)
  adopt_same f m x content raw r d l s e c b =
      rw (b, e ∙ sym c, equal_refl content)
        (ap (λ q. (q, d, none)) (same_file r (some x) content l s c))

  -- The rules in use, read again from the file that holds them, stay as they are and the file is
  -- not written again, if the file is within the limit and can be read.
  pub settled_reload :
      (f : Faults) (r : RuleFile lib ms includes) (d : Disk) (x : ms.Matcher)
      → r.loaded ≡ true
      → IsServing lib ms includes r
      → r.matcher ≡ some x
      → d.file ≡ some r.last_good
      → length r.last_good ≤ max_rule_file_bytes
      → f.unread ≡ false
      → reload lib ms includes f r d ≡ (r, d, none)
  unfolding reload accept
  settled_reload f r d x l s m file fits readable =
      let back : sanitize_rules lib r.last_good
          ≡ some (record { rules = s.rules; meaningful = length s.rules; rejections = 0 }) =
        subst
          (λ c.
            sanitize_rules lib c
            ≡ some (record { rules = s.rules; meaningful = length s.rules; rejections = 0 }))
          (sym s.content)
          (sanitize_normal lib s.rules s.normal
            (subst (λ c. length c ≤ max_rule_file_bytes) s.content fits)) in
      simp (readable, file, back, meaningful_rules s.rules r.loaded)
        (adopt_same f _ x (cleaned s.rules) r.last_good r d l m refl (sym s.content)
          (sym s.matches ∙ m))

  oversized_reload :
      (r : RuleFile lib ms includes) (d : Disk)
      → r.loaded ≡ true
      → d.file ≡ some r.last_good
      → max_rule_file_bytes < length r.last_good
      → reload lib ms includes no_faults r d ≡ (r, written r.last_good d, none)
  unfolding reload restore_or_clear sanitize_rules write_file_atomic written
  oversized_reload r d l file large =
      rw (file, lt→ltb max_rule_file_bytes (length r.last_good) large, l) refl

  -- What is left of a rule file that the loop rewrites: the rules and the content are the same, and
  -- there is one more write for each round.
  pub record IsRewritten (rounds : ℕ) (r : RuleFile lib ms includes) (d : Disk)
      (p : Watch lib ms includes × Bool) : Type 0 where
    pub going : p.1 ≡ true
    pub rules : p.0.rules ≡ r
    pub file : p.0.disk.file ≡ some r.last_good
    pub writes : p.0.disk.writes ≡ rounds + d.writes
    pub timer : p.0.timer ≡ none

  abbrev pub idle : RuleFile lib ms includes → Disk → Watch lib ms includes
  idle r d = record { rules = r; disk = d; timer = none }

  module _ (clean : Bytes → Bytes) (path name : Bytes) (op : Op) where
    armed :
        (seen : ℕ) (w : Watch lib ms includes)
        → is_change clean path name op ≡ true
        → handle lib ms includes clean path seen (event name op) w
          ≡ (record w { timer = some (seen + reload_debounce) }, true)
    unfolding handle
    armed seen w c = rw c refl

    rewritten :
        (due : ℕ) (r : RuleFile lib ms includes) (d : Disk) (timer : Option ℕ)
        → r.loaded ≡ true
        → d.file ≡ some r.last_good
        → max_rule_file_bytes < length r.last_good
        → handle lib ms includes clean path due
            (fired no_faults)
            (record { rules = r; disk = d; timer = timer })
          ≡ (idle r (written r.last_good d), true)
    unfolding handle
    rewritten due r d timer l file large = rw (oversized_reload r d l file large) refl

    round-watch :
        (seen due : ℕ) (messages : List (ℕ × Message)) (r : RuleFile lib ms includes) (d : Disk)
        → is_change clean path name op ≡ true
        → r.loaded ≡ true
        → d.file ≡ some r.last_good
        → max_rule_file_bytes < length r.last_good
        → watch lib ms includes clean path
            ((seen, event name op) ∷ (due, fired no_faults) ∷ messages)
            (idle r d)
          ≡ watch lib ms includes clean path messages (idle r (written r.last_good d))
    round-watch seen due messages r d c l file large =
        let w = armed seen (idle r d) c in
        let w' = rewritten due r d (some (seen + reload_debounce)) l file large in
        let run = watch lib ms includes clean path in
        watch_goes lib ms includes clean path seen (event name op)
          ((due, fired no_faults) ∷ messages) (idle r d) (ap (λ p. p.1) w)
        ∙ ap (λ p. run ((due, fired no_faults) ∷ messages) p.0) w
        ∙ watch_goes lib ms includes clean path due (fired no_faults) messages
            (record { rules = r; disk = d; timer = some (seen + reload_debounce) })
            (ap (λ p. p.1) w')
        ∙ ap (λ p. run messages p.0) w'

    round-CanFollow :
        (last seen due : ℕ) (messages : List (ℕ × Message)) (r : RuleFile lib ms includes)
        (d : Disk)
        → is_change clean path name op ≡ true
        → r.loaded ≡ true
        → d.file ≡ some r.last_good
        → max_rule_file_bytes < length r.last_good
        → last ≤ seen
        → seen + reload_debounce ≤ due
        → CanFollow lib ms includes clean path due messages (idle r (written r.last_good d))
        → CanFollow lib ms includes clean path last
            ((seen, event name op) ∷ (due, fired no_faults) ∷ messages)
            (idle r d)
    unfolding CanFollow
    round-CanFollow last seen due messages r d c l file large after apart can =
        let w = armed seen (idle r d) c in
        let w' = rewritten due r d (some (seen + reload_debounce)) l file large in
        let step = handle lib ms includes clean path in
        (
          after,
          tt,
          (
            omega (arith, apart),
            (seen + reload_debounce, ap (λ p. p.0.timer) w, apart),
            subst (λ p. CanFollow lib ms includes clean path due messages p.0)
                (sym (ap (λ p. step due (fired no_faults) p.0) w ∙ w')) can,
          ),
        )

    -- Once rules are in use whose file is over the limit, and each write of the file is reported to the
    -- loop as a change of it, the loop rewrites the file in every round, if no call fails: in messages
    -- of which each report is followed by the timer, 200 ms later or more, and this by the report of
    -- the write, all the messages can come, and after any number of such rounds the loop goes on, with
    -- the same rules, the same content in the file, and one more write for each round.
    pub oversized_rewrites :
        (last : ℕ) (times : List (ℕ × ℕ)) (r : RuleFile lib ms includes) (d : Disk)
        → is_change clean path name op ≡ true
        → AreRounds last times
        → r.loaded ≡ true
        → d.file ≡ some r.last_good
        → max_rule_file_bytes < length r.last_good
        → CanFollow lib ms includes clean path last (echoes name op times) (idle r d)
          × IsRewritten
              (length times)
              r
              d
              (watch lib ms includes clean path (echoes name op times) (idle r d))
    unfolding CanFollow watch written
    oversized_rewrites last [] r d c t l file large =
        (tt, record { going = refl; rules = refl; file = file; writes = omega arith; timer = refl })
    oversized_rewrites last ((seen, due) ∷ times) r d c (after, apart, later) l file large =
        let (can, rest) =
          oversized_rewrites due times r (written r.last_good d) c later l refl large in
        (
          round-CanFollow last seen due (echoes name op times) r d c l file large after apart can,
          rw (round-watch seen due (echoes name op times) r d c l file large) (record {
            going = rest.going;
            rules = rest.rules;
            file = rest.file;
            writes = let more = rest.writes in omega (arith, more);
            timer = rest.timer;
          }),
        )
