-- ===== src/Rules/Policy.antt =====
-- What a reload of the rule file keeps and brings about.
use vela_dns.Base.{
  suc, ◌≡◌, ◌⊎◌, refl, ap, ◌∙◌, true, false, ltb, Option, none, some, List, [], arith, ◌&&◌,
  if-keeps,
}
use vela_dns.Text.{Bytes, equal}
use vela_dns.Text.Laws.{equal→eq}
use vela_dns.Rules.{Library, Rules, cleaned, sanitize_rules}
use vela_dns.Rules.Reload.{
  Matchers, Disk, WriteFaults, write_file_atomic, ReloadError, Faults, RuleFile, build_matcher,
  Reloaded, restore_failed, clear_failed, write_failed, no_rule, install, proceed, restore_or_clear,
  accept, reload, writing, adopt, reload_content,
}

-- The rule file is replaced as a whole or not at all: the call succeeds with the new content in
-- place, or fails with the disk as it was, and no temporary file is left behind.
pub write_file_atomic-whole :
    (f : WriteFaults) (content : Bytes) (d : Disk)
    → d.temp ≡ none
    → (write_file_atomic f content d
        ≡ (record d { file = some content; writes = suc d.writes }, true))
      ⊎ (write_file_atomic f content d ≡ (d, false))
unfolding write_file_atomic
write_file_atomic-whole f content d t = ground arith

write_ok :
    (f : WriteFaults) (content : Bytes) (d : Disk)
    → (write_file_atomic f content d).1 ≡ true
    → (write_file_atomic f content d).0.file ≡ some content
unfolding write_file_atomic
write_ok f content d h = ground arith

module _ (lib : Library) (ms : Matchers) (includes : List Bytes) where
  abbrev File : Type 0
  File = RuleFile lib ms includes

  abbrev Result : Type 0
  Result = Reloaded lib ms includes

  -- What holds of the results of a reload: with an error the rules in use are unchanged, and
  -- without one the file holds the last good rules.
  pub Agrees : RuleFile lib ms includes → Reloaded lib ms includes → Type 0
  Agrees r (r', d', none) = d'.file ≡ some r'.last_good
  Agrees r (r', d', some e) = r' ≡ r

  writing-Agrees :
      (f : Faults) (content : Bytes) (e : ReloadError) (r : File) (d : Disk) (next : Disk → Result)
      → ((d' : Disk) → d'.file ≡ some content → Agrees r (next d'))
      → Agrees r (writing lib ms includes f content e r d next)
  writing-Agrees f content e r d next h =
      let (d', ok) = write_file_atomic f.writing content d in
      if-keeps (Agrees r) ok {x = next d'} {y = (r, d', some e)}
        (λ done. h d' (write_ok f.writing content d done)) (λ failed. unfold Agrees in refl)

  adopt-Agrees :
      (content : Bytes) (m : Option ms.Matcher) (r : File) (d : Disk)
      → d.file ≡ some content
      → Agrees r (adopt lib ms includes content m r d)
  unfolding Agrees
  adopt-Agrees content none r d h = refl
  adopt-Agrees content (some m) r d h = h

  restore-Agrees :
      (f : Faults) (r : File) (d : Disk)
      → Agrees r (writing lib ms includes f r.last_good restore_failed r d (λ d'. (r, d', none)))
  restore-Agrees f r d =
      writing-Agrees f r.last_good restore_failed r d (λ d'. (r, d', none))
        (λ d' e. unfold Agrees in e)

  restore_or_clear-Agrees :
      (f : Faults) (r : File) (d : Disk) → Agrees r (restore_or_clear lib ms includes f r d)
  unfolding restore_or_clear
  restore_or_clear-Agrees f r d =
      if-keeps (Agrees r) r.loaded (λ old. restore-Agrees f r d)
        (λ new.
          writing-Agrees f [] clear_failed r d
            (λ d'. adopt lib ms includes [] (build_matcher lib ms includes []) r d')
            (λ d' e. adopt-Agrees [] (build_matcher lib ms includes []) r d' e))

  built-Agrees :
      (f : Faults) (raw content : Bytes) (m : Option ms.Matcher) (r : File) (d : Disk)
      → d.file ≡ some raw
      → Agrees r (install lib ms includes f raw content m r d)
  built-Agrees f raw content none r d h = unfold Agrees in refl
  built-Agrees f raw content (some m) r d h =
      if-keeps (Agrees r) (equal raw content)
        (λ same. adopt-Agrees content (some m) r d (h ∙ ap some (equal→eq raw content same)))
        (λ differs.
          writing-Agrees f content write_failed r d
            (λ d'. adopt lib ms includes content (some m) r d')
            (λ d' e. adopt-Agrees content (some m) r d' e))

  accept-Agrees :
      (f : Faults) (raw : Bytes) (rules : Rules) (r : File) (d : Disk)
      → d.file ≡ some raw
      → Agrees r (accept lib ms includes f raw rules r d)
  unfolding accept
  accept-Agrees f raw rules r d h =
      if-keeps (Agrees r) (ltb 0 rules.meaningful && no_rule rules.rules && r.loaded)
        (λ bad. restore-Agrees f r d) (λ good. built-Agrees f raw (cleaned rules.rules) _ r d h)

  sanitized-Agrees :
      (f : Faults) (raw : Bytes) (o : Option Rules) (r : File) (d : Disk)
      → d.file ≡ some raw
      → Agrees r (proceed lib ms includes f raw o r d)
  sanitized-Agrees f raw none r d h = restore_or_clear-Agrees f r d
  sanitized-Agrees f raw (some rules) r d h = accept-Agrees f raw rules r d h

  content-Agrees :
      (f : Faults) (file : Option Bytes) (r : File) (d : Disk)
      → d.file ≡ file
      → Agrees r (reload_content lib ms includes f file r d)
  content-Agrees f none r d h = restore_or_clear-Agrees f r d
  content-Agrees f (some raw) r d h = sanitized-Agrees f raw (sanitize_rules lib raw) r d h

  -- A reload that returns an error leaves the rules in use as they were, and one that does not
  -- leaves the file with exactly the last good rules, whatever fails and whatever the file held.
  pub reload-Agrees :
      (f : Faults) (r : RuleFile lib ms includes) (d : Disk)
      → Agrees r (reload lib ms includes f r d)
  unfolding reload
  reload-Agrees f r d =
      if-keeps (Agrees r) f.unread (λ lost. unfold Agrees in refl)
        (λ found. content-Agrees f d.file r d refl)
