-- ===== src/Rules/Watch.antt =====
-- newRuleFile, watch, Match and Close of internal/rulesplugin/rulesplugin.go. What the loop of
-- watch receives is a list of messages, each with the time at which the loop takes it, and an edit
-- of the file by another process is a message too, which the loop does not see. The timer is the
-- time at which it fires, if timerC is set: before it is set again it is stopped and drained.
-- `clean` is filepath.Clean.
use vela_dns.Base.{
  ℕ, ◌+◌, Bool, true, false, not, ◌&&◌, ◌||◌, if◌then◌else◌, Option, none, some, List, [], ◌∷◌,
}
use vela_dns.Text.{Bytes, equal, is_empty}
use vela_dns.Rules.{Library}
use vela_dns.Rules.Reload.{Matchers, Disk, Faults, RuleFile, ReloadError, reload}

-- 200 ms
abbrev pub reload_debounce : ℕ
reload_debounce = 200_000_000

-- The bits of an fsnotify.Op.
pub record Op : Type 0 where
  pub create : Bool
  pub write : Bool
  pub remove : Bool
  pub rename : Bool
  pub chmod : Bool

pub data Message : Type 0 where
  closed : Message
  event : Bytes → Op → Message
  events_closed errors_closed watch_error : Message
  fired : Faults → Message
  edited : Option Bytes → Message

pub data NewError : Type 0 where
  file_required no_path no_watcher no_directory : NewError
  not_loaded : ReloadError → NewError

-- What the start of a rule file meets beside the file system.
pub record Setup : Type 0 where
  pub absolute : Bytes → Option Bytes
  pub watcher_fails : Bool
  pub add_fails : Bool

-- A change of the rule file.
abbrev pub is_change : (Bytes → Bytes) → Bytes → Bytes → Op → Bool
is_change clean path name op =
    equal (clean name) path && (op.write || op.create || op.rename || op.remove)

module _ (lib : Library) (ms : Matchers) (includes : List Bytes) where
  abbrev pub File : Type 0
  File = RuleFile lib ms includes

  abbrev pub unloaded : File
  unloaded = record { matcher = none; last_good = []; loaded = false }

  -- Match, with the matcher's own Match.
  abbrev pub matches : (ms.Matcher → Bytes → Bool) → File → Bytes → Bool
  matches match r name = elim r.matcher [ none ↦ false | some m ↦ match m name ]

  -- The path and the rules, whether the loop of watch is started, or an error; and the disk.
  pub data Opened : Type 0 where
    opened : Bytes → File → Bool → Opened
    refused : NewError → Opened

  abbrev pub start_watch : Bool → Setup → Bytes → File × Disk × Option ReloadError → Opened × Disk
  start_watch watch s path (r, d, some e) = (refused (not_loaded e), d)
  start_watch watch s path (r, d, none) =
      if not watch
      then (opened path r false, d)
      else if s.watcher_fails
      then (refused no_watcher, d)
      else if s.add_fails
      then (refused no_directory, d)
      else (opened path r true, d)

  abbrev pub at_path : Option Bytes → Bool → Setup → Faults → Disk → Opened × Disk
  at_path none watch s f d = (refused no_path, d)
  at_path (some path) watch s f d = start_watch watch s path (reload lib ms includes f unloaded d)

  unfoldable pub new_rule_file : Bytes → Bool → Setup → Faults → Disk → Opened × Disk
  unfolding reload
  new_rule_file file watch s f d =
      if is_empty file then (refused file_required, d) else at_path (s.absolute file) watch s f d

  pub record Watch : Type 0 where
    pub rules : File
    pub disk : Disk
    pub timer : Option ℕ

  module _ (clean : Bytes → Bytes) (path : Bytes) where
    -- What the loop makes of a message, and whether it goes on.
    unfoldable pub handle : ℕ → Message → Watch → Watch × Bool
    unfolding reload equal
    handle now closed w = (w, false)
    handle now (event name op) w =
        if is_change clean path name op
        then (record w { timer = some (now + reload_debounce) }, true)
        else (w, true)
    handle now events_closed w = (w, false)
    handle now errors_closed w = (w, false)
    handle now watch_error w = (w, true)
    handle now (fired f) w =
        let (r, d, e) = reload lib ms includes f w.rules w.disk in
        (record { rules = r; disk = d; timer = none }, true)
    handle now (edited content) w = (record w { disk = record w.disk { file = content } }, true)

    -- The loop over the messages, up to the one at which it ends.
    unfoldable pub watch : List (ℕ × Message) → Watch → Watch × Bool
    unfolding handle
    watch [] w = (w, true)
    watch ((now, m) ∷ messages) w =
        let (w', more) = handle now m w in
        let rest = watch messages w' in if more then rest else (w', false)
