-- ===== src/Rules/Examples.antt =====
-- A rule file that is opened, watched and changed by another process.
use vela_dns.Base.{ℕ, ◌≡◌, refl, true, false, none, some, List, [], ◌∷◌, arith}
use vela_dns.Text.{
  Bytes, codes, equal, trim_space, any_space, valid_utf8, to_lower, split, trim_suffix, join, cut,
}
use vela_dns.Rules.{Library, sanitize_rules, normalize_domain_pattern, cleaned}
use vela_dns.Rules.Reload.{Matchers, Disk, Faults, RuleFile, reload, build_matcher, accept}
use vela_dns.Rules.Settled.{IsServing}
use vela_dns.Rules.Watch.{
  Op, Message, closed, event, fired, Setup, new_rule_file, opened, Watch, handle, watch,
}
use vela_dns.Rules.Debounce.{CanFollow, IsDebounced, watch-IsDebounced}
use vela_dns.Rules.Serving.{watch-IsServing}

abbrev lib : Library
lib = record { compiles = λ p. true; is_ip = λ p. false; lower_other = λ s. s }

abbrev ms : Matchers
ms = record { Matcher = List Bytes; empty = []; add = λ m r. some (r ∷ m); load = λ m file. some m }

abbrev no_faults : Faults
no_faults = record {
  unread = false;
  writing = record {
    stat = false;
    create = false;
    chmod = false;
    write = false;
    close = false;
    rename = false;
  };
}

abbrev path : Bytes
path = codes "/data/direct.txt"

abbrev same : Bytes → Bytes
same name = name

abbrev setup : Setup
setup = record { absolute = λ name. some name; watcher_fails = false; add_fails = false }

abbrev disk : Disk
disk = record { file = some (codes "domain:a.b\n"); temp = none; writes = 0 }

abbrev in_use : RuleFile lib ms []
in_use = record {
  matcher = some (codes "domain:a.b" ∷ []);
  last_good = codes "domain:a.b\n";
  loaded = true;
}

file_opened : (new_rule_file lib ms [] path true setup no_faults disk).0 ≡ opened path in_use true
unfolding new_rule_file reload sanitize_rules normalize_domain_pattern trim_space split trim_suffix
    to_lower valid_utf8 any_space cut equal cleaned join build_matcher accept
file_opened = refl

abbrev written : Op
written = record { create = false; write = true; remove = false; rename = false; chmod = false }

-- The file is emptied, which the watcher reports at 5 s, and again 100 ms later.
abbrev messages : List (ℕ × Message)
messages =
    (5_100_000_000, event path written)
    ∷ (5_300_000_000, fired no_faults)
    ∷ (6_000_000_000, closed)
    ∷ []

abbrev start : Watch lib ms []
start = record { rules = in_use; disk = record disk { file = some [] }; timer = none }

watch-IsServing_example :
    let now = watch lib ms [] same path messages start in
    (now.0.rules.loaded ≡ true)
    × ((x : ms.Matcher) × (now.0.rules.matcher ≡ some x))
    × IsServing lib ms [] now.0.rules
watch-IsServing_example =
    watch-IsServing lib ms [] same path path true true setup no_faults disk in_use file_opened
      (record disk { file = some [] }) messages

can_follow : CanFollow lib ms [] same path 0 ((5_000_000_000, event path written) ∷ messages) start
unfolding CanFollow handle equal
can_follow = (
  omega arith,
  tt,
  (omega arith, tt, (omega arith, (5_300_000_000, refl, omega arith), (omega arith, tt, tt))),
)

watch-IsDebounced_example :
    IsDebounced lib ms [] same path 5_000_000_000 path written messages start
unfolding equal
watch-IsDebounced_example =
    watch-IsDebounced lib ms [] same path 0 5_000_000_000 path written messages start refl
      can_follow
