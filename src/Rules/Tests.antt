-- ===== src/Rules/Tests.antt =====
-- Runs of the rule files at fixed inputs, and the theorems at inputs that meet their conditions.
use vela_dns.Base.{
  ℕ, zero, suc, ◌+◌, ◌*◌, ◌≤◌, ◌<◌, ◌≡◌, refl, ap, ◌∙◌, true, false, none, some, List, [], ◌∷◌,
  length, length-append, All, arith,
}
use vela_dns.Text.{
  Bytes, codes, equal, trim_space, split, trim_suffix, to_lower, valid_utf8, any_space, cut, join,
}
use vela_dns.Rules.{
  Library, max_rule_file_bytes, normalize_domain_pattern, normalize_rule, Rules, cleaned,
  sanitize_rules,
}
use vela_dns.Rules.Lines.{cleaned-cons}
use vela_dns.Rules.Normal.{IsNormal, normalize_rule-IsNormal}
use vela_dns.Rules.Policy.{Agrees, reload-Agrees}
use vela_dns.Rules.Reload.{Matchers, Disk, RuleFile, build_matcher, reload}
use vela_dns.Rules.Rewrites.{
  no_faults, echoes, idle, IsRewritten, settled_reload, oversized_rewrites,
}
use vela_dns.Rules.Watch.{Op, watch}
use vela_dns.Rules.Debounce.{CanFollow}
use vela_dns.Rules.Sanitized.{sanitize_rules-cleaned}
use vela_dns.Rules.Settled.{IsServing}

abbrev lib : Library
lib = record { compiles = λ p. true; is_ip = λ p. false; lower_other = λ s. s }

abbrev ms : Matchers
ms = record { Matcher = List Bytes; empty = []; add = λ m r. some (r ∷ m); load = λ m file. some m }

abbrev raw : Bytes
raw = codes "# blocked\nExample.COM. # main\n\nfull:a_b.c\r\nno space\nkeyword:-x\n"

abbrev found : Rules
found = record {
  rules = codes "domain:example.com" ∷ codes "full:a_b.c" ∷ [];
  meaningful = 4;
  rejections = 2;
}

raw-found : sanitize_rules lib raw ≡ some found
unfolding sanitize_rules normalize_domain_pattern trim_space split trim_suffix to_lower valid_utf8
    any_space cut equal
raw-found = refl

cleaned-found : cleaned found.rules ≡ codes "domain:example.com\nfull:a_b.c\n"
unfolding cleaned join
cleaned-found = refl

abbrev regexp_rule : Bytes
regexp_rule = codes "regexp:^a:b$"

regexp_rule-kept : normalize_rule lib regexp_rule ≡ some regexp_rule
unfolding normalize_rule valid_utf8 any_space cut equal
regexp_rule-kept = refl

cleaned-fits : length (cleaned found.rules) ≤ max_rule_file_bytes
unfolding cleaned join
cleaned-fits = omega arith

sanitize_rules-cleaned_example :
    sanitize_rules lib (cleaned found.rules)
    ≡ some (record { rules = found.rules; meaningful = 2; rejections = 0 })
sanitize_rules-cleaned_example = sanitize_rules-cleaned lib raw raw-found cleaned-fits

abbrev disk : Disk
disk = record { file = some raw; temp = none; writes = 0 }

abbrev fresh : RuleFile lib ms []
fresh = record { matcher = none; last_good = []; loaded = false }

reload-Agrees_example : Agrees lib ms [] fresh (reload lib ms [] no_faults fresh disk)
reload-Agrees_example = reload-Agrees lib ms [] no_faults fresh disk

-- A file with many rules.
abbrev rule : Bytes
rule = codes "domain:a.example.com"

many : ℕ → List Bytes
many zero = []
many (suc n) = rule ∷ many n

length-many : (n : ℕ) → length (cleaned (many n)) ≡ 21 * n
unfolding many
length-many zero = unfold cleaned in refl
length-many (suc n) =
    ap length (cleaned-cons rule (many n))
    ∙ (length-append rule (10 ∷ cleaned (many n))
        ∙ (ap (λ k. 20 + suc k) (length-many n) ∙ omega arith))

rule-kept : normalize_rule lib rule ≡ some rule
unfolding normalize_rule normalize_domain_pattern trim_suffix to_lower split valid_utf8 any_space
    cut equal
rule-kept = refl

many-IsNormal : (n : ℕ) → All (IsNormal lib) (many n)
unfolding many
many-IsNormal zero = tt
many-IsNormal (suc n) = (normalize_rule-IsNormal lib rule rule rule-kept, many-IsNormal n)

abbrev serving : ℕ → RuleFile lib ms []
serving n = record {
  matcher = build_matcher lib ms [] (many n);
  last_good = cleaned (many n);
  loaded = true;
}

serving-IsServing : (n : ℕ) → IsServing lib ms [] (serving n)
serving-IsServing n = record {
  rules = many n;
  normal = many-IsNormal n;
  content = refl;
  matches = refl;
}

two-fits : length (cleaned (many 2)) ≤ max_rule_file_bytes
two-fits = rw (length-many 2) (omega arith)

two-matcher : build_matcher lib ms [] (many 2) ≡ some (rule ∷ rule ∷ [])
unfolding build_matcher many
two-matcher = refl

settled_reload_example :
    reload lib ms [] no_faults
      (serving 2)
      (record { file = some (cleaned (many 2)); temp = none; writes = 1 })
    ≡ (serving 2, record { file = some (cleaned (many 2)); temp = none; writes = 1 }, none)
settled_reload_example =
    settled_reload lib ms [] no_faults (serving 2)
      (record { file = some (cleaned (many 2)); temp = none; writes = 1 }) (rule ∷ rule ∷ []) refl
      (serving-IsServing 2) two-matcher refl two-fits refl

large : max_rule_file_bytes < length (cleaned (many 49933))
large = rw (length-many 49933) (omega arith)

abbrev large_disk : Disk
large_disk = record { file = some (cleaned (many 49933)); temp = none; writes = 1 }

abbrev path : Bytes
path = codes "/data/direct.txt"

abbrev same : Bytes → Bytes
same name = name

-- What is reported of a file that another file is renamed to.
abbrev created : Op
created = record { create = true; write = false; remove = false; rename = false; chmod = false }

abbrev two_rounds : List (ℕ × ℕ)
two_rounds = (1_000, 200_001_000) ∷ (200_002_000, 400_002_000) ∷ []

oversized_rewrites_example :
    let before = idle lib ms [] (serving 49933) large_disk in
    CanFollow lib ms [] same path 0 (echoes path created two_rounds) before
    × IsRewritten lib ms [] 2
        (serving 49933)
        large_disk
        (watch lib ms [] same path (echoes path created two_rounds) before)
unfolding equal
oversized_rewrites_example =
    oversized_rewrites lib ms [] same path path created 0 two_rounds (serving 49933) large_disk refl
      (omega arith, omega arith, (omega arith, omega arith, tt)) refl refl large
