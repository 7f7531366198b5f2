-- ===== src/Rules/Settled.antt =====
-- What the rules in use come from, and what reloading the file they were written to does.
use vela_dns.Base.{
  ◌≡◌, refl, true, false, ltb, Option, none, some, List, [], ◌&&◌, if-keeps, All, Option-cases, inl,
  inr,
}
use vela_dns.Text.{Bytes, equal}
use vela_dns.Rules.{Library, Rules, cleaned, sanitize_rules}
use vela_dns.Rules.Normal.{IsNormal}
use vela_dns.Rules.Sanitized.{sanitize_rules-IsNormal}
use vela_dns.Rules.Reload.{
  Matchers, Disk, write_file_atomic, ReloadError, Faults, RuleFile, build_matcher, Reloaded,
  restore_failed, clear_failed, write_failed, no_rule, install, restore_or_clear, accept, reload,
  writing, adopt, reload_content,
}

module _ (lib : Library) (ms : Matchers) (includes : List Bytes) where
  abbrev File : Type 0
  File = RuleFile lib ms includes

  abbrev Result : Type 0
  Result = Reloaded lib ms includes

  abbrev built : List Bytes → Option ms.Matcher
  built = build_matcher lib ms includes

  -- A rule file whose matcher and whose last good content come from the same normal rules.
  pub record IsServing (r : RuleFile lib ms includes) : Type 0 where
    pub rules : List Bytes
    pub normal : All (IsNormal lib) rules
    pub content : r.last_good ≡ cleaned rules
    pub matches : r.matcher ≡ build_matcher lib ms includes rules

  unfoldable pub IsSettled : RuleFile lib ms includes → Type 0
  IsSettled r = r.loaded ≡ true → IsServing r

  pub unloaded-IsSettled : (r : RuleFile lib ms includes) → r.loaded ≡ false → IsSettled r
  unfolding IsSettled
  unloaded-IsSettled r u = λ l. cc

  adopt-IsSettled :
      (rules : List Bytes) (content : Bytes) (m : Option ms.Matcher) (r : File) (d : Disk)
      → All (IsNormal lib) rules
      → content ≡ cleaned rules
      → m ≡ built rules
      → IsSettled r
      → IsSettled (adopt lib ms includes content m r d).0
  unfolding IsSettled
  adopt-IsSettled rules content none r d n c m s = s
  adopt-IsSettled rules content (some x) r d n c m s =
      λ l. record { rules = rules; normal = n; content = c; matches = m }

  writing-IsSettled :
      (f : Faults) (content : Bytes) (e : ReloadError) (r : File) (d : Disk) (next : Disk → Result)
      → IsSettled r
      → ((d' : Disk) → IsSettled (next d').0)
      → IsSettled (writing lib ms includes f content e r d next).0
  writing-IsSettled f content e r d next s h =
      let (d', ok) = write_file_atomic f.writing content d in
      if-keeps (λ (p : Result). IsSettled p.0) ok {x = next d'} {y = (r, d', some e)} (λ done. h d')
        (λ failed. s)

  restore_or_clear-IsSettled :
      (f : Faults) (r : File) (d : Disk)
      → IsSettled r
      → IsSettled (restore_or_clear lib ms includes f r d).0
  unfolding restore_or_clear
  restore_or_clear-IsSettled f r d s =
      if-keeps (λ (p : Result). IsSettled p.0) r.loaded
        (λ old.
          writing-IsSettled f r.last_good restore_failed r d (λ d'. (r, d', none)) s (λ d'. s))
        (λ new.
          writing-IsSettled f [] clear_failed r d (λ d'. adopt lib ms includes [] (built []) r d') s
            (λ d'. adopt-IsSettled [] [] (built []) r d' tt (unfold cleaned in refl) refl s))

  install-IsSettled :
      (f : Faults) (raw : Bytes) (rules : List Bytes) (m : Option ms.Matcher) (r : File) (d : Disk)
      → All (IsNormal lib) rules
      → m ≡ built rules
      → IsSettled r
      → IsSettled (install lib ms includes f raw (cleaned rules) m r d).0
  install-IsSettled f raw rules none r d n b s = s
  install-IsSettled f raw rules (some m) r d n b s =
      if-keeps (λ (p : Result). IsSettled p.0) (equal raw (cleaned rules))
        (λ same. adopt-IsSettled rules (cleaned rules) (some m) r d n refl b s)
        (λ differs.
          writing-IsSettled f (cleaned rules) write_failed r d
            (λ d'. adopt lib ms includes (cleaned rules) (some m) r d') s
            (λ d'. adopt-IsSettled rules (cleaned rules) (some m) r d' n refl b s))

  accept-IsSettled :
      (f : Faults) (raw : Bytes) (rules : Rules) (r : File) (d : Disk)
      → All (IsNormal lib) rules.rules
      → IsSettled r
      → IsSettled (accept lib ms includes f raw rules r d).0
  unfolding accept
  accept-IsSettled f raw rules r d n s =
      if-keeps (λ (p : Result). IsSettled p.0)
        (ltb 0 rules.meaningful && no_rule rules.rules && r.loaded)
        (λ bad.
          writing-IsSettled f r.last_good restore_failed r d (λ d'. (r, d', none)) s (λ d'. s))
        (λ good. install-IsSettled f raw rules.rules _ r d n refl s)

  content-IsSettled :
      (f : Faults) (file : Option Bytes) (r : File) (d : Disk)
      → IsSettled r
      → IsSettled (reload_content lib ms includes f file r d).0
  content-IsSettled f none r d s = restore_or_clear-IsSettled f r d s
  content-IsSettled f (some raw) r d s = elim (Option-cases (sanitize_rules lib raw)) [
    | inl large ↦ rw large (restore_or_clear-IsSettled f r d s)
    | inr (rules, e) ↦ rw e (accept-IsSettled f raw rules r d (sanitize_rules-IsNormal lib raw e) s)
  ]

  -- If the rules in use, once loaded, and the last good content come from the same normal rules, so
  -- they do after a reload, whatever the file holds and whatever fails.
  pub reload-IsSettled :
      (f : Faults) (r : RuleFile lib ms includes) (d : Disk)
      → IsSettled r
      → IsSettled (reload lib ms includes f r d).0
  unfolding reload
  reload-IsSettled f r d s =
      if-keeps (λ (p : Result). IsSettled p.0) f.unread (λ lost. s)
        (λ found. content-IsSettled f d.file r d s)
