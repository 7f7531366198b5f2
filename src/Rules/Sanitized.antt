-- ===== src/Rules/Sanitized.antt =====
-- What sanitizeRules gives: rules that it would give again, and counts that add up.
use vela_dns.Base.{
  ◌+◌, ◌≤◌, ◌≡◌, refl, sym, subst, Bool, true, false, ◌||◌, ltb, ge→ltb, ◌==◌, if◌then◌else◌,
  Option, none, some, List, [], ◌∷◌, arith, get_or, length, All, Bool-cases, inl, inr,
}
use vela_dns.Text.{is_empty, Bytes, split, trim_space, trim_suffix}
use vela_dns.Rules.{
  Library, normalize_rule, strip_comment, Verdict, skipped, rejected, accepted, verdict_of,
  read_line, Rules, count, read_lines, cleaned, sanitize_rules, max_rule_file_bytes,
}
use vela_dns.Rules.Lines.{read_lines_normal, split-cleaned}
use vela_dns.Rules.Normal.{IsNormal, normalize_rule-IsNormal}

-- The rules that a verdict carries.
abbrev AllNormal : Library → Verdict → Type 0
AllNormal lib skipped = Unit
AllNormal lib rejected = Unit
AllNormal lib (accepted rule) = IsNormal lib rule

verdict_of-AllNormal :
    (lib : Library) (line : Bytes) (o : Option Bytes)
    → normalize_rule lib line ≡ o
    → AllNormal lib (verdict_of o)
verdict_of-AllNormal lib line none e = tt
verdict_of-AllNormal lib line (some rule) e = normalize_rule-IsNormal lib line rule e

read_line-AllNormal : (lib : Library) (raw : Bytes) → AllNormal lib (read_line lib raw)
unfolding read_line
read_line-AllNormal lib raw =
    let line : Bytes = trim_space (trim_suffix b'\r' raw) in
    elim (Bool-cases (is_empty line || get_or line 0 0 == b'#')) [
      | inl skip ↦ rw skip tt
      | inr keep ↦ rw keep (verdict_of-AllNormal lib (strip_comment line) _ refl)
    ]

count-AllNormal :
    (lib : Library) (v : Verdict) (r : Rules)
    → AllNormal lib v
    → All (IsNormal lib) r.rules
    → All (IsNormal lib) (count v r).rules
count-AllNormal lib skipped r n h = h
count-AllNormal lib rejected r n h = h
count-AllNormal lib (accepted rule) r n h = (n, h)

pub read_lines-IsNormal :
    (lib : Library) (lines : List Bytes) → All (IsNormal lib) (read_lines lib lines).rules
unfolding read_lines
read_lines-IsNormal lib [] = tt
read_lines-IsNormal lib (l ∷ ls) =
    count-AllNormal lib (read_line lib l) (read_lines lib ls) (read_line-AllNormal lib l)
      (read_lines-IsNormal lib ls)

count-total :
    (v : Verdict) (r : Rules)
    → r.meaningful ≡ length r.rules + r.rejections
    → (count v r).meaningful ≡ length (count v r).rules + (count v r).rejections
count-total skipped r h = h
count-total rejected r h = omega arith
count-total (accepted rule) r h = omega arith

read_lines-total :
    (lib : Library) (lines : List Bytes)
    → let r = read_lines lib lines in r.meaningful ≡ length r.rules + r.rejections
unfolding read_lines
read_lines-total lib [] = omega arith
read_lines-total lib (l ∷ ls) =
    count-total (read_line lib l) (read_lines lib ls) (read_lines-total lib ls)

kept : (large : Bool) (s r : Rules) → (if large then none else some s) ≡ some r → r ≡ s
kept true s r h = cc
kept false s r h = cc

-- Normal rules that were written are read back as they are.
pub sanitize_normal :
    (lib : Library) (rules : List Bytes)
    → All (IsNormal lib) rules
    → length (cleaned rules) ≤ max_rule_file_bytes
    → sanitize_rules lib (cleaned rules)
      ≡ some (record { rules = rules; meaningful = length rules; rejections = 0 })
unfolding sanitize_rules
sanitize_normal lib rules normal fits =
    rw
      (
        ge→ltb max_rule_file_bytes (length (cleaned rules)) fits,
        split-cleaned lib rules normal,
        read_lines_normal lib rules normal,
      )
      refl

module _ (lib : Library) (raw : Bytes) {r : Rules} (done : sanitize_rules lib raw ≡ some r) where
  sanitized_lines : r ≡ read_lines lib (split b'\n' raw)
  unfolding sanitize_rules
  sanitized_lines =
      kept (ltb max_rule_file_bytes (length raw)) (read_lines lib (split b'\n' raw)) r done

  pub sanitize_rules-IsNormal : All (IsNormal lib) r.rules
  sanitize_rules-IsNormal =
      subst (λ s. All (IsNormal lib) s.rules) (sym sanitized_lines)
        (read_lines-IsNormal lib (split b'\n' raw))

  -- Every line that is neither blank nor a comment is a rule or a rejection.
  pub sanitize_rules-total : r.meaningful ≡ length r.rules + r.rejections
  sanitize_rules-total = rw sanitized_lines (read_lines-total lib (split b'\n' raw))

  -- Sanitising the text that is written back gives the same rules, each line of it is a rule, and
  -- nothing is rejected, provided that the text is within the limit of a rule file.
  pub sanitize_rules-cleaned :
      length (cleaned r.rules) ≤ max_rule_file_bytes
      → sanitize_rules lib (cleaned r.rules)
        ≡ some (record { rules = r.rules; meaningful = length r.rules; rejections = 0 })
  sanitize_rules-cleaned fits = sanitize_normal lib r.rules sanitize_rules-IsNormal fits
