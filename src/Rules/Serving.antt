-- ===== src/Rules/Serving.antt =====
-- What a rule file that was opened serves while it is watched.
use vela_dns.Base.{
  ℕ, ◌≡◌, refl, subst, Bool, true, false, if◌then◌else◌, if-keeps, Option, none, some, List, [],
  ◌∷◌, arith, ltb, ◌&&◌,
}
use vela_dns.Text.{Bytes, equal, is_empty}
use vela_dns.Rules.{Library, Rules, cleaned, sanitize_rules}
use vela_dns.Rules.Reload.{
  Matchers, Disk, write_file_atomic, Faults, RuleFile, ReloadError, unreadable, restore_failed,
  clear_failed, build_failed, write_failed, no_rule, build_matcher, writing, adopt, install, reload,
  reload_content, proceed, restore_or_clear, accept,
}
use vela_dns.Rules.Settled.{IsServing, IsSettled, unloaded-IsSettled, reload-IsSettled}
use vela_dns.Rules.Watch.{
  Message, closed, event, events_closed, errors_closed, watch_error, fired, edited, Setup,
  new_rule_file, unloaded, refused, file_required, opened, start_watch, at_path, Watch, is_change,
  handle, watch,
}

module _ (lib : Library) (ms : Matchers) (includes : List Bytes) where
  abbrev File : Type 0
  File = RuleFile lib ms includes

  abbrev State : Type 0
  State = Watch lib ms includes

  -- A loaded file that has a matcher.
  HasRules : File → Type 0
  HasRules r = (r.loaded ≡ true) × ((x : ms.Matcher) × (r.matcher ≡ some x))

  -- A first reload without an error brings rules into use, and no reload takes them away.
  record Loads (r : File) (p : File × Disk × Option ReloadError) : Type 0 where
    first : r.loaded ≡ false → p.2 ≡ none → HasRules p.0
    later : HasRules r → HasRules p.0

  -- Nothing changes, and there is an error or this is not the first reload.
  refused-Loads : (r : File) (d : Disk) (e : ReloadError) → Loads r (r, d, some e)
  refused-Loads r d e = record { first = λ u h. absurd (cc); later = λ h. h }

  restored-Loads : (r : File) (d : Disk) → r.loaded ≡ true → Loads r (r, d, none)
  restored-Loads r d l = record { first = λ u h. absurd (cc); later = λ h. h }

  adopt-Loads :
      (content : Bytes) (m : Option ms.Matcher) (r : File) (d : Disk)
      → Loads r (adopt lib ms includes content m r d)
  unfolding HasRules
  adopt-Loads content none r d = refused-Loads r d build_failed
  adopt-Loads content (some x) r d = record {
    first = λ u h. (refl, (x, refl));
    later = λ h. (refl, (x, refl));
  }

  writing-Loads :
      (f : Faults) (content : Bytes) (e : ReloadError) (r : File) (d : Disk)
      (next : Disk → File × Disk × Option ReloadError)
      → ((d' : Disk) → Loads r (next d'))
      → Loads r (writing lib ms includes f content e r d next)
  writing-Loads f content e r d next h =
      let (d', ok) = write_file_atomic f.writing content d in
      if-keeps (Loads r) ok {x = next d'} {y = (r, d', some e)} (λ done. h d')
        (λ failed. refused-Loads r d' e)

  restore_or_clear-Loads :
      (f : Faults) (r : File) (d : Disk) → Loads r (restore_or_clear lib ms includes f r d)
  unfolding restore_or_clear
  restore_or_clear-Loads f r d =
      if-keeps (Loads r) r.loaded
        (λ old.
          writing-Loads f r.last_good restore_failed r d (λ d'. (r, d', none))
            (λ d'. restored-Loads r d' old))
        (λ new.
          writing-Loads f [] clear_failed r d
            (λ d'. adopt lib ms includes [] (build_matcher lib ms includes []) r d')
            (λ d'. adopt-Loads [] (build_matcher lib ms includes []) r d'))

  install-Loads :
      (f : Faults) (raw content : Bytes) (m : Option ms.Matcher) (r : File) (d : Disk)
      → Loads r (install lib ms includes f raw content m r d)
  install-Loads f raw content none r d = refused-Loads r d build_failed
  install-Loads f raw content (some x) r d =
      if-keeps (Loads r) (equal raw content) (λ same. adopt-Loads content (some x) r d)
        (λ differs.
          writing-Loads f content write_failed r d
            (λ d'. adopt lib ms includes content (some x) r d')
            (λ d'. adopt-Loads content (some x) r d'))

  proceed-Loads :
      (f : Faults) (raw : Bytes) (o : Option Rules) (r : File) (d : Disk)
      → Loads r (proceed lib ms includes f raw o r d)
  unfolding accept
  proceed-Loads f raw none r d = restore_or_clear-Loads f r d
  proceed-Loads f raw (some rules) r d =
      if-keeps (Loads r) (ltb 0 rules.meaningful && no_rule rules.rules && r.loaded)
        (λ bad.
          writing-Loads f r.last_good restore_failed r d (λ d'. (r, d', none))
            (λ d'. restored-Loads r d' (ground arith)))
        (λ good.
          install-Loads f raw (cleaned rules.rules) (build_matcher lib ms includes rules.rules) r d)

  content-Loads :
      (f : Faults) (file : Option Bytes) (r : File) (d : Disk)
      → Loads r (reload_content lib ms includes f file r d)
  content-Loads f none r d = restore_or_clear-Loads f r d
  content-Loads f (some raw) r d = proceed-Loads f raw (sanitize_rules lib raw) r d

  reload-Loads : (f : Faults) (r : File) (d : Disk) → Loads r (reload lib ms includes f r d)
  unfolding reload
  reload-Loads f r d =
      if-keeps (Loads r) f.unread (λ lost. refused-Loads r d unreadable)
        (λ found. content-Loads f d.file r d)

  -- A file in use, whose rules come from normal rules.
  IsInUse : File → Type 0
  IsInUse r = HasRules r × IsSettled lib ms includes r

  unloaded_file-IsSettled : IsSettled lib ms includes (unloaded lib ms includes)
  unloaded_file-IsSettled = unloaded-IsSettled lib ms includes (unloaded lib ms includes) refl

  start_watch-opened :
      (on : Bool) (s : Setup) (path q : Bytes) (p : File × Disk × Option ReloadError) (r : File)
      (w : Bool)
      → (start_watch lib ms includes on s path p).0 ≡ opened q r w
      → (p.0 ≡ r) × (p.2 ≡ none)
  start_watch-opened on s path q (r', d, some e) r w h = absurd (cc)
  start_watch-opened on s path q (r', d, none) r w h = (ground arith, refl)

  at_path-opened :
      (o : Option Bytes) (on w : Bool) (s : Setup) (f : Faults) (d : Disk) (q : Bytes) (r : File)
      → (at_path lib ms includes o on s f d).0 ≡ opened q r w
      → ((reload lib ms includes f (unloaded lib ms includes) d).0 ≡ r)
        × ((reload lib ms includes f (unloaded lib ms includes) d).2 ≡ none)
  at_path-opened none on w s f d q r h = absurd (cc)
  at_path-opened (some path) on w s f d q r h =
      start_watch-opened on s path q (reload lib ms includes f (unloaded lib ms includes) d) r w h

  new_rule_file-opened :
      (file path : Bytes) (on w : Bool) (s : Setup) (f : Faults) (d : Disk) (r : File)
      → (new_rule_file lib ms includes file on s f d).0 ≡ opened path r w
      → (at_path lib ms includes (s.absolute file) on s f d).0 ≡ opened path r w
  unfolding new_rule_file
  new_rule_file-opened file path on w s f d r h = by_file (is_empty file) h
    where
      by_file :
          (b : Bool)
          → (if b
              then (refused file_required, d)
              else at_path lib ms includes (s.absolute file) on s f d).0
            ≡ opened path r w
          → (at_path lib ms includes (s.absolute file) on s f d).0 ≡ opened path r w
      by_file true h = absurd (cc)
      by_file false h = h

  new_rule_file-IsInUse :
      (file path : Bytes) (on w : Bool) (s : Setup) (f : Faults) (d : Disk) (r : File)
      → (new_rule_file lib ms includes file on s f d).0 ≡ opened path r w
      → IsInUse r
  unfolding IsInUse
  new_rule_file-IsInUse file path on w s f d r h =
      let (same, fine) =
        at_path-opened (s.absolute file) on w s f d path r
          (new_rule_file-opened file path on w s f d r h) in
      (
        subst HasRules same ((reload-Loads f (unloaded lib ms includes) d).first refl fine),
        subst (IsSettled lib ms includes) same (
            reload-IsSettled lib ms includes f (unloaded lib ms includes) d
              unloaded_file-IsSettled),
      )

  module _ (clean : Bytes → Bytes) (path : Bytes) where
    handle-IsInUse :
        (now : ℕ) (m : Message) (w : State)
        → IsInUse w.rules
        → IsInUse (handle lib ms includes clean path now m w).0.rules
    unfolding handle IsInUse
    handle-IsInUse now closed w h = h
    handle-IsInUse now (event name op) w h =
        if-keeps (λ (p : State × Bool). IsInUse p.0.rules) (is_change clean path name op) (λ c. h)
          (λ other. h)
    handle-IsInUse now events_closed w h = h
    handle-IsInUse now errors_closed w h = h
    handle-IsInUse now watch_error w h = h
    handle-IsInUse now (fired f) w (l, s) = (
      (reload-Loads f w.rules w.disk).later l,
      reload-IsSettled lib ms includes f w.rules w.disk s,
    )
    handle-IsInUse now (edited content) w h = h

    watch-IsInUse :
        (messages : List (ℕ × Message)) (w : State)
        → IsInUse w.rules
        → IsInUse (watch lib ms includes clean path messages w).0.rules
    unfolding watch
    watch-IsInUse [] w h = h
    watch-IsInUse ((now, m) ∷ messages) w h =
        if-keeps (λ (p : State × Bool). IsInUse p.0.rules)
          (handle lib ms includes clean path now m w).1
          (λ more. watch-IsInUse messages _ (handle-IsInUse now m w h))
          (λ over. handle-IsInUse now m w h)

    -- A rule file that was opened is loaded and has a matcher at any time after, the one that is built
    -- from the normal rules that its last good content spells out, whatever is written to the file,
    -- whatever fails in a reload, and whatever the watcher reports, in any order.
    pub watch-IsServing :
        (file : Bytes) (on w : Bool) (s : Setup) (f : Faults) (d : Disk) (r : File)
        → (new_rule_file lib ms includes file on s f d).0 ≡ opened path r w
        → (d' : Disk) (messages : List (ℕ × Message))
        → let now =
            watch lib ms includes clean path messages
              (record { rules = r; disk = d'; timer = none }) in
          (now.0.rules.loaded ≡ true)
          × ((x : ms.Matcher) × (now.0.rules.matcher ≡ some x))
          × IsServing lib ms includes now.0.rules
    unfolding IsInUse IsSettled HasRules
    watch-IsServing file on w s f d r h d' messages =
        let ((loaded, there), settled) =
          watch-IsInUse messages (record { rules = r; disk = d'; timer = none })
            (new_rule_file-IsInUse file path on w s f d r h) in
        (loaded, there, settled loaded)
