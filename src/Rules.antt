-- ===== src/Rules.antt =====
-- The rule files of internal/rulesplugin/rulesplugin.go: sanitizeRules and what it calls. A file
-- and a rule are lists of bytes. `Library` is what the model takes from outside: the regular
-- expression compiler, the parser of IP addresses, and strings.ToLower outside of ASCII.
pub mod Patterns
pub mod Normal
pub mod Lines
pub mod Sanitized
pub mod Reload
pub mod Policy
pub mod Settled
pub mod Watch
pub mod Closing
pub mod Pending
pub mod Debounce
pub mod Serving
mod Examples
pub mod Rewrites
mod Tests
use vela_dns.Base.{
  ℕ, zero, suc, ◌+◌, ◌-◌, Bool, true, false, ◌&&◌, ◌||◌, not, ltb, leb, ◌==◌, if◌then◌else◌, Option,
  none, some, List, [], ◌∷◌, ◌++◌, length, take, get_or,
}
use vela_dns.Text.{
  Bytes, is_empty, all_bytes, codes, equal, trim_space, any_space, valid_utf8, to_lower, split,
  join, cut, trim_suffix,
}

pub record Library : Type 0 where
  pub compiles : Bytes → Bool
  pub is_ip : Bytes → Bool
  pub lower_other : Bytes → Bytes

abbrev pub max_rule_file_bytes : ℕ
max_rule_file_bytes = 1048576

abbrev pub max_regexp_rule_size : ℕ
max_regexp_rule_size = 4096

abbrev pub is_label_char : ℕ → Bool
is_label_char c = (leb b'a' c && leb c b'z') || (leb b'0' c && leb c b'9') || c == b'-' || c == b'_'

abbrev last_byte : Bytes → ℕ
last_byte [] = 0
last_byte (c ∷ []) = c
last_byte (c ∷ d ∷ r) = last_byte (d ∷ r)

-- The body of the loop over the labels. A character outside of ASCII has no byte below 0x80, so
-- that the loop over the characters of a label may go by its bytes.
unfoldable pub is_label : Bytes → Bool
is_label l =
    not (is_empty l)
    && leb (length l) 63
    && all_bytes is_label_char l
    && not (get_or l 0 0 == b'-' || last_byte l == b'-')

abbrev pub all_labels : List Bytes → Bool
all_labels [] = true
all_labels (l ∷ ls) = is_label l && all_labels ls

unfoldable pub normalize_domain_pattern : Library → Bytes → Option Bytes
unfolding is_label
normalize_domain_pattern lib pattern =
    let p = trim_suffix b'.' (to_lower lib.lower_other pattern) in
    if is_empty p || ltb 253 (length p) || lib.is_ip p
    then none
    else if all_labels (split b'.' p)
    then some p
    else none

pub data Kind : Type 0 where
  domain full keyword regexp : Kind

-- The names of the kinds in MosDNS, as the rule syntax in README.md has them.
abbrev pub kind_name : Kind → Bytes
kind_name domain = codes "domain"
kind_name full = codes "full"
kind_name keyword = codes "keyword"
kind_name regexp = codes "regexp"

unfoldable pub kind_of : Bytes → Option Kind
unfolding equal
kind_of typ =
    if equal typ (kind_name domain)
    then some domain
    else if equal typ (kind_name full)
    then some full
    else if equal typ (kind_name keyword)
    then some keyword
    else if equal typ (kind_name regexp)
    then some regexp
    else none

-- typ + ":" + pattern
abbrev pub typed : Kind → Bytes → Bytes
typed k pattern = kind_name k ++ (b':' ∷ pattern)

abbrev pub typed_option : Kind → Option Bytes → Option Bytes
typed_option k none = none
typed_option k (some p) = some (typed k p)

abbrev pub typed_domain : Library → Kind → Bytes → Option Bytes
typed_domain lib k pattern = typed_option k (normalize_domain_pattern lib pattern)

-- The switch on the type of a rule.
unfoldable pub normalize_typed : Library → Option Kind → Bytes → Option Bytes
normalize_typed lib none pattern = none
normalize_typed lib (some regexp) pattern =
    if ltb max_regexp_rule_size (length pattern)
    then none
    else if lib.compiles pattern
    then some (typed regexp pattern)
    else none
normalize_typed lib (some domain) pattern = typed_domain lib domain pattern
normalize_typed lib (some full) pattern = typed_domain lib full pattern
normalize_typed lib (some keyword) pattern = typed_domain lib keyword pattern

-- The type and the pattern of a rule: without a colon it is a domain.
unfoldable pub rule_parts : Bytes → Option Kind × Bytes
unfolding kind_of
rule_parts line = elim (cut b':' line) [
  | some (typ, pattern) ↦ (kind_of typ, pattern)
  | none ↦ (some domain, line)
]

unfoldable pub normalize_rule : Library → Bytes → Option Bytes
unfolding rule_parts normalize_typed
normalize_rule lib line =
    let (kind, pattern) = rule_parts line in
    if not (valid_utf8 line) || any_space line
    then none
    else if is_empty pattern
    then none
    else normalize_typed lib kind pattern

-- The index of a # behind a space or a tab, from the byte after `previous` on, whose index is given.
unfoldable pub comment_from : ℕ → ℕ → Bytes → Option ℕ
comment_from previous index [] = none
comment_from previous index (c ∷ cs) =
    let rest = comment_from c (suc index) cs in
    if c == b'#' && (previous == b' ' || previous == b'\t') then some index else rest

unfoldable pub inline_comment_index : Bytes → Option ℕ
unfolding comment_from
inline_comment_index [] = none
inline_comment_index (c ∷ cs) = comment_from c 1 cs

-- What a line of the file comes to.
pub data Verdict : Type 0 where
  skipped rejected : Verdict
  accepted : Bytes → Verdict

abbrev pub verdict_of : Option Bytes → Verdict
verdict_of none = rejected
verdict_of (some rule) = accepted rule

abbrev pub strip_comment : Bytes → Bytes
strip_comment line = elim (inline_comment_index line) [
  | some i ↦ trim_space (take i line)
  | none ↦ line
]

-- The body of the loop over the lines.
unfoldable pub read_line : Library → Bytes → Verdict
unfolding normalize_rule inline_comment_index
read_line lib raw =
    let line = trim_space (trim_suffix b'\r' raw) in
    if is_empty line || get_or line 0 0 == b'#'
    then skipped
    else verdict_of (normalize_rule lib (strip_comment line))

-- ruleStats with the rules accepted
pub record Rules : Type 0 where
  pub rules : List Bytes
  pub meaningful : ℕ
  pub rejections : ℕ

abbrev pub count : Verdict → Rules → Rules
count skipped r = r
count rejected r = record r { meaningful = suc r.meaningful; rejections = suc r.rejections }
count (accepted rule) r = record r { rules = rule ∷ r.rules; meaningful = suc r.meaningful }

abbrev pub no_rules : Rules
no_rules = record { rules = []; meaningful = 0; rejections = 0 }

-- The loop over the lines. It only appends and counts, so that the rest may be read first.
unfoldable pub read_lines : Library → List Bytes → Rules
unfolding read_line
read_lines lib [] = no_rules
read_lines lib (l ∷ ls) = count (read_line lib l) (read_lines lib ls)

-- What is written back: one rule to a line, and nothing where there is no rule.
unfoldable pub cleaned : List Bytes → Bytes
cleaned [] = []
cleaned (r ∷ rs) = join b'\n' (r ∷ rs) ++ (b'\n' ∷ [])

-- none is the error that the file is too large
unfoldable pub sanitize_rules : Library → Bytes → Option Rules
unfolding read_lines
sanitize_rules lib raw =
    if ltb max_rule_file_bytes (length raw) then none else some (read_lines lib (split b'\n' raw))
