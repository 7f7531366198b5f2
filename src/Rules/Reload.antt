-- ===== src/Rules/Reload.antt =====
-- reload, restoreOrClear, buildMatcher and writeFileAtomic of internal/rulesplugin/rulesplugin.go.
-- The matcher is MosDNS's: `Matchers` has an empty one, the addition of a rule, and the loading of
-- an include file, each of which may fail. What the file system does with each call is an argument.
-- The include files are taken to stay as they are. A file is its content; its mode and the log
-- lines are left out.
use vela_dns.Base.{
  ℕ, suc, Bool, true, false, ◌&&◌, ◌||◌, ltb, if◌then◌else◌, Option, none, some, List, [], ◌∷◌,
}
use vela_dns.Text.{Bytes, equal}
use vela_dns.Rules.{Library, Rules, cleaned, sanitize_rules}

pub record Matchers : Type 1 where
  pub Matcher : Type 0
  pub empty : Matcher
  pub add : Matcher → Bytes → Option Matcher
  pub load : Matcher → Bytes → Option Matcher

-- The rule file, the temporary file of writeFileAtomic, and how often the rule file was replaced.
pub record Disk : Type 0 where
  pub file : Option Bytes
  pub temp : Option Bytes
  pub writes : ℕ

-- Which of the calls of writeFileAtomic fail.
pub record WriteFaults : Type 0 where
  pub stat : Bool
  pub create : Bool
  pub chmod : Bool
  pub write : Bool
  pub close : Bool
  pub rename : Bool

-- The deferred os.Remove of the temporary file.
abbrev pub remove_temp : Disk × Bool → Disk × Bool
remove_temp (d, ok) = (record d { temp = none }, ok)

-- The new disk, and whether the call succeeds.
unfoldable pub write_file_atomic : WriteFaults → Bytes → Disk → Disk × Bool
write_file_atomic f content d =
    let created = record d { temp = some [] } in
    let written = record d { temp = some content } in
    if f.stat || f.create
    then (d, false)
    else remove_temp (
        if f.chmod
        then (created, false)
        else if f.write
        then (created, false)
        else if f.close || f.rename
        then (written, false)
        else (record d { file = some content; temp = none; writes = suc d.writes }, true))

pub data ReloadError : Type 0 where
  unreadable restore_failed clear_failed build_failed write_failed : ReloadError

-- What the calls of one reload meet: whether the file can be read, and the faults of the write.
pub record Faults : Type 0 where
  pub unread : Bool
  pub writing : WriteFaults

abbrev pub no_rule : List Bytes → Bool
no_rule [] = true
no_rule (r ∷ rs) = false

module _ (lib : Library) (ms : Matchers) (includes : List Bytes) where
  open ms use {Matcher, empty, add, load}

  pub record RuleFile : Type 0 where
    pub matcher : Option Matcher
    pub last_good : Bytes
    pub loaded : Bool

  abbrev pub add_all :
      (Matcher → Bytes → Option Matcher) → List Bytes → Option Matcher → Option Matcher
  add_all step [] m = m
  add_all step (r ∷ rs) m = add_all step rs (elim m [ some x ↦ step x r | none ↦ none ])

  -- The rules, then the include files.
  unfoldable pub build_matcher : List Bytes → Option Matcher
  build_matcher rules = add_all load includes (add_all add rules (some empty))

  abbrev pub Reloaded : Type 0
  Reloaded = RuleFile × Disk × Option ReloadError

  -- Writes, and goes on with the new disk or stops with the error.
  abbrev pub writing : Faults → Bytes → ReloadError → RuleFile → Disk → (Disk → Reloaded) → Reloaded
  writing f content e r d next =
      let (d', ok) = write_file_atomic f.writing content d in
      if ok then next d' else (r, d', some e)

  -- The assignments under the lock.
  abbrev pub adopt : Bytes → Option Matcher → RuleFile → Disk → Reloaded
  adopt content none r d = (r, d, some build_failed)
  adopt content (some m) r d =
      (record { matcher = some m; last_good = content; loaded = true }, d, none)

  unfoldable pub restore_or_clear : Faults → RuleFile → Disk → Reloaded
  restore_or_clear f r d =
      if r.loaded
      then writing f r.last_good restore_failed r d (λ d'. (r, d', none))
      else writing f [] clear_failed r d (λ d'. adopt [] (build_matcher []) r d')

  -- The new rules come into use once the file holds them.
  abbrev pub install : Faults → Bytes → Bytes → Option Matcher → RuleFile → Disk → Reloaded
  install f raw content none r d = (r, d, some build_failed)
  install f raw content (some m) r d =
      if equal raw content
      then adopt content (some m) r d
      else writing f content write_failed r d (λ d'. adopt content (some m) r d')

  -- The rest of reload, on the rules of the file.
  unfoldable pub accept : Faults → Bytes → Rules → RuleFile → Disk → Reloaded
  accept f raw rules r d =
      if ltb 0 rules.meaningful && no_rule rules.rules && r.loaded
      then writing f r.last_good restore_failed r d (λ d'. (r, d', none))
      else install f raw (cleaned rules.rules) (build_matcher rules.rules) r d

  abbrev pub proceed : Faults → Bytes → Option Rules → RuleFile → Disk → Reloaded
  proceed f raw none r d = restore_or_clear f r d
  proceed f raw (some rules) r d = accept f raw rules r d

  abbrev pub reload_content : Faults → Option Bytes → RuleFile → Disk → Reloaded
  reload_content f none r d = restore_or_clear f r d
  reload_content f (some raw) r d = proceed f raw (sanitize_rules lib raw) r d

  unfoldable pub reload : Faults → RuleFile → Disk → Reloaded
  reload f r d = if f.unread then (r, d, some unreadable) else reload_content f d.file r d
