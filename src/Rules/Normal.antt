-- ===== src/Rules/Normal.antt =====
-- Normalising a rule twice changes nothing: what normalizeRule returns, it returns unchanged.
use vela_dns.Base.{
  ℕ, ◌≡◌, refl, sym, ap, ◌∙◌, subst, Bool, true, false, ◌||◌, not, if◌then◌else◌, Option, none,
  some, [], ◌∷◌, ◌++◌, arith, Option-cases, inl, inr,
}
use vela_dns.Text.{is_empty, Bytes, equal, any_space, valid_utf8, cut}
use vela_dns.Text.Laws.{equal→eq}
use vela_dns.Rules.Patterns.{
  AllDomain, AllDomain-valid, AllDomain-any_space, normalize_domain_pattern-IsPattern,
}
use vela_dns.Rules.{
  Library, normalize_domain_pattern, Kind, domain, full, keyword, regexp, kind_name, kind_of, typed,
  typed_domain, typed_option, normalize_typed, rule_parts, normalize_rule,
}

-- The parts of a rule that is written with its type.
rule_parts-typed : (k : Kind) (p : Bytes) → rule_parts (typed k p) ≡ (some k, p)
unfolding rule_parts cut
rule_parts-typed domain p = refl
rule_parts-typed full p = refl
rule_parts-typed keyword p = refl
rule_parts-typed regexp p = refl

typed-clean :
    (k : Kind) (p : Bytes)
    → AllDomain p
    → (valid_utf8 (typed k p) ≡ true) × (any_space (typed k p) ≡ false)
unfolding valid_utf8 any_space
typed-clean domain p h = (AllDomain-valid p h, AllDomain-any_space p h)
typed-clean full p h = (AllDomain-valid p h, AllDomain-any_space p h)
typed-clean keyword p h = (AllDomain-valid p h, AllDomain-any_space p h)
typed-clean regexp p h = (AllDomain-valid p h, AllDomain-any_space p h)

-- Cutting at a byte and joining again is the identity.
cut-append : (sep : ℕ) (s a b : Bytes) → cut sep s ≡ some (a, b) → s ≡ a ++ (sep ∷ b)
unfolding cut
cut-append sep [] a b h = cc
cut-append sep (c ∷ cs) a b h = elim (Option-cases (cut sep cs)) [
  | inl e ↦ ground arith
  | inr ((a', b'), e) ↦ ground (arith, cut-append sep cs a' b' e)
]

-- A rule that normalizeRule returns: it has a type, and it is returned unchanged.
pub record IsNormal (lib : Library) (rule : Bytes) : Type 0 where
  pub kind : Kind
  pub pattern : Bytes
  pub typed_as : rule ≡ typed kind pattern
  pub again : normalize_rule lib rule ≡ some rule
  pub no_space : any_space rule ≡ false

normalize_rule-typed :
    (lib : Library) (k : Kind) (p : Bytes)
    → valid_utf8 (typed k p) ≡ true
    → any_space (typed k p) ≡ false
    → is_empty p ≡ false
    → normalize_rule lib (typed k p) ≡ normalize_typed lib (some k) p
unfolding normalize_rule
normalize_rule-typed lib k p v s e = rw (rule_parts-typed k p, v, s, e) refl

regexp_kept :
    (long compiles : Bool) (pattern rule : Bytes)
    → (if long then none else if compiles then some (typed regexp pattern) else none) ≡ some rule
    → typed regexp pattern ≡ rule
regexp_kept true compiles pattern rule h = cc
regexp_kept false true pattern rule h = cc
regexp_kept false false pattern rule h = cc

rule_checks :
    (bad spaced empty : Bool) (o : Option Bytes) (rule : Bytes)
    → (if bad || spaced then none else if empty then none else o) ≡ some rule
    → (bad ≡ false) × (spaced ≡ false) × (empty ≡ false) × (o ≡ some rule)
rule_checks bad spaced empty o rule h = ground arith

only_regexp :
    (a b c d : Bool)
    → (if a
        then some domain
        else if b
        then some full
        else if c
        then some keyword
        else if d
        then some regexp
        else none)
      ≡ some regexp
    → d ≡ true
only_regexp a b c d h = ground arith

kind_of-regexp : (typ : Bytes) → kind_of typ ≡ some regexp → typ ≡ kind_name regexp
unfolding kind_of
kind_of-regexp typ h = equal→eq typ (kind_name regexp) (
    only_regexp (equal typ (kind_name domain)) (equal typ (kind_name full))
      (equal typ (kind_name keyword)) (equal typ (kind_name regexp)) h)

rule_parts-regexp :
    (line pattern : Bytes) → rule_parts line ≡ (some regexp, pattern) → line ≡ typed regexp pattern
unfolding rule_parts
rule_parts-regexp line pattern h = elim (Option-cases (cut b':' line)) [
  | inl e ↦ ground arith
  | inr ((typ, p), e) ↦ cut-append b':' line typ p e ∙ ground (arith, kind_of-regexp typ)
]

typed-some :
    (k : Kind) (o : Option Bytes) (rule : Bytes)
    → typed_option k o ≡ some rule
    → (p : Bytes) × (o ≡ some p) × (rule ≡ typed k p)
typed-some k none rule h = cc
typed-some k (some p) rule h = (p, refl, cc)

-- What holds of a rule of one of the three domain kinds.
domain-IsNormal :
    (lib : Library) (k : Kind) (pattern rule : Bytes)
    → ((p : Bytes) → normalize_typed lib (some k) p ≡ typed_domain lib k p)
    → typed_domain lib k pattern ≡ some rule
    → IsNormal lib rule
domain-IsNormal lib k pattern rule same h =
    let (p, e, r) = typed-some k (normalize_domain_pattern lib pattern) rule h in
    let good = normalize_domain_pattern-IsPattern lib pattern p e in
    let (valid, spaceless) = typed-clean k p good.chars in
    subst (IsNormal lib) (sym r) (record {
      kind = k;
      pattern = p;
      typed_as = refl;
      again =
          normalize_rule-typed lib k p valid spaceless good.not_empty
          ∙ same p
          ∙ ap (typed_option k) good.again;
      no_space = spaceless;
    })

kind-IsNormal :
    (lib : Library) (line pattern rule : Bytes) (k : Option Kind)
    → rule_parts line ≡ (k, pattern)
    → any_space line ≡ false
    → normalize_rule lib line ≡ some rule
    → normalize_typed lib k pattern ≡ some rule
    → IsNormal lib rule
unfolding normalize_typed
kind-IsNormal lib line pattern rule none e s n h = cc
kind-IsNormal lib line pattern rule (some domain) e s n h =
    domain-IsNormal lib domain pattern rule (λ p. refl) h
kind-IsNormal lib line pattern rule (some full) e s n h =
    domain-IsNormal lib full pattern rule (λ p. refl) h
kind-IsNormal lib line pattern rule (some keyword) e s n h =
    domain-IsNormal lib keyword pattern rule (λ p. refl) h
kind-IsNormal lib line pattern rule (some regexp) e s n h =
    let same : line ≡ rule = rule_parts-regexp line pattern e ∙ regexp_kept _ _ _ _ h in
    record {
      kind = regexp;
      pattern = pattern;
      typed_as = sym (regexp_kept _ _ _ _ h);
      again = subst (λ l. normalize_rule lib l ≡ some rule) same n;
      no_space = subst (λ l. any_space l ≡ false) same s;
    }

-- A rule that normalizeRule returns has a type, has no white space, and is returned unchanged.
pub normalize_rule-IsNormal :
    (lib : Library) (line rule : Bytes) → normalize_rule lib line ≡ some rule → IsNormal lib rule
unfolding normalize_rule
normalize_rule-IsNormal lib line rule h =
    let (k, pattern) = rule_parts line in
    let (v, s, e, o) =
      rule_checks (not (valid_utf8 line)) (any_space line) (is_empty (rule_parts line).1)
        (normalize_typed lib (rule_parts line).0 (rule_parts line).1) rule h in
    kind-IsNormal lib line (rule_parts line).1 rule (rule_parts line).0 refl s h o
