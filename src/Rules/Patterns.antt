-- ===== src/Rules/Patterns.antt =====
-- The patterns that normalizeDomainPattern returns: it returns them unchanged.
use vela_dns.Base.{
  ℕ, ◌≡◌, refl, sym, ap, ◌∙◌, subst, Bool, true, false, ◌&&◌, ◌||◌, not, ltb, ◌==◌, if◌then◌else◌,
  none, some, List, [], ◌∷◌, map, arith, length, Bool-cases, inl, inr,
}
use vela_dns.Text.{
  is_empty, all_bytes, Bytes, is_ascii_space, space_width, any_space, valid_from, lower_byte,
  is_ascii, to_lower, trim_suffix, prepend, split,
}
use vela_dns.Rules.{Library, is_label_char, is_label, all_labels, normalize_domain_pattern}

abbrev is_domain_char : ℕ → Bool
is_domain_char c = is_label_char c || c == b'.'

pub AllDomain : Bytes → Type 0
AllDomain p = all_bytes is_domain_char p ≡ true

domain_byte :
    (c : ℕ)
    → is_domain_char c ≡ true
    → (ltb c 0x80 ≡ true) × (lower_byte c ≡ c) × (is_ascii_space c ≡ false)
domain_byte c h = ground arith

no_space_byte : (c : ℕ) (s : Bytes) → is_domain_char c ≡ true → space_width (c ∷ s) ≡ 0
unfolding space_width
no_space_byte c s h = ground arith

valid_from_ascii :
    (c lo hi : ℕ) (s : Bytes)
    → ltb c 0x80 ≡ true
    → valid_from 0 lo hi (c ∷ s) ≡ valid_from 0 0x80 0xbf s
unfolding valid_from
valid_from_ascii c lo hi s h = ground arith

all_split :
    (p : ℕ → Bool) (c : ℕ) (cs : Bytes)
    → all_bytes p (c ∷ cs) ≡ true
    → (p c ≡ true) × (all_bytes p cs ≡ true)
all_split p c cs h = ground arith

AllDomain-is_ascii : (p : Bytes) → AllDomain p → is_ascii p ≡ true
unfolding is_ascii AllDomain
AllDomain-is_ascii [] h = refl
AllDomain-is_ascii (c ∷ cs) h =
    let (a, b) = all_split is_domain_char c cs h in
    rw ((domain_byte c a).0) (AllDomain-is_ascii cs b)

AllDomain-lower : (p : Bytes) → AllDomain p → map lower_byte p ≡ p
unfolding AllDomain
AllDomain-lower [] h = refl
AllDomain-lower (c ∷ cs) h =
    let (a, b) = all_split is_domain_char c cs h in
    ap (λ x. x ∷ map lower_byte cs) (domain_byte c a).1 ∙ ap (◌∷◌ c) (AllDomain-lower cs b)

pub AllDomain-any_space : (p : Bytes) → AllDomain p → any_space p ≡ false
unfolding any_space AllDomain
AllDomain-any_space [] h = refl
AllDomain-any_space (c ∷ cs) h =
    let (a, b) = all_split is_domain_char c cs h in
    rw (no_space_byte c cs a) (AllDomain-any_space cs b)

pub AllDomain-valid : (p : Bytes) → AllDomain p → valid_from 0 0x80 0xbf p ≡ true
unfolding AllDomain
AllDomain-valid [] h = unfold valid_from in refl
AllDomain-valid (c ∷ cs) h =
    let (a, b) = all_split is_domain_char c cs h in
    valid_from_ascii c 0x80 0xbf cs (domain_byte c a).0 ∙ AllDomain-valid cs b

abbrev all_chars : List Bytes → Bool
all_chars [] = true
all_chars (l ∷ ls) = all_bytes is_label_char l && all_chars ls

abbrev all_full : List Bytes → Bool
all_full [] = true
all_full (l ∷ ls) = not (is_empty l) && all_full ls

abbrev tail_full : List Bytes → Bool
tail_full [] = true
tail_full (l ∷ ls) = all_full ls

label_parts :
    (l : Bytes) → is_label l ≡ true → (is_empty l ≡ false) × (all_bytes is_label_char l ≡ true)
unfolding is_label
label_parts l h = ground arith

all_labels_parts :
    (ls : List Bytes) → all_labels ls ≡ true → (all_chars ls ≡ true) × (all_full ls ≡ true)
all_labels_parts [] h = (refl, refl)
all_labels_parts (l ∷ ls) h = ground (arith, label_parts l, all_labels_parts ls)

all_chars-prepend :
    (c : ℕ) (ls : List Bytes)
    → all_chars (prepend c ls) ≡ true
    → (is_label_char c ≡ true) × (all_chars ls ≡ true)
all_chars-prepend c [] h = ground arith
all_chars-prepend c (l ∷ ls) h = ground arith

tail_full-prepend : (c : ℕ) (ls : List Bytes) → tail_full (prepend c ls) ≡ tail_full ls
tail_full-prepend c [] = refl
tail_full-prepend c (l ∷ ls) = refl

all_full-tail : (ls : List Bytes) → all_full ls ≡ true → tail_full ls ≡ true
all_full-tail [] h = refl
all_full-tail (l ∷ ls) h = ground arith

split_sep : (c : ℕ) (cs : Bytes) → (c == b'.') ≡ true → split b'.' (c ∷ cs) ≡ [] ∷ split b'.' cs
unfolding split
split_sep c cs h = rw h refl

split_char :
    (c : ℕ) (cs : Bytes) → (c == b'.') ≡ false → split b'.' (c ∷ cs) ≡ prepend c (split b'.' cs)
unfolding split
split_char c cs h = rw h refl

-- The bytes of a text are those of its labels, and dots.
split-AllDomain : (p : Bytes) → all_chars (split b'.' p) ≡ true → AllDomain p
unfolding AllDomain
split-AllDomain [] h = refl
split-AllDomain (c ∷ cs) h = elim (Bool-cases (c == b'.')) [
  | inl dot ↦ ground (arith, split-AllDomain cs (rw (split_sep c cs dot) at h))
  | inr char ↦
      let (a, b) = all_chars-prepend c (split b'.' cs) (rw (split_char c cs char) at h) in
      ground (arith, split-AllDomain cs b)
]

tail_full-split :
    (c : ℕ) (cs : Bytes) → tail_full (split b'.' (c ∷ cs)) ≡ true → tail_full (split b'.' cs) ≡ true
tail_full-split c cs h = elim (Bool-cases (c == b'.')) [
  | inl dot ↦ all_full-tail (split b'.' cs) (rw (split_sep c cs dot) at h)
  | inr char ↦ sym (tail_full-prepend c (split b'.' cs)) ∙ (rw (split_char c cs char) at h)
]

-- A text whose last label is not empty does not end in a dot.
split-trim_suffix : (p : Bytes) → tail_full (split b'.' p) ≡ true → trim_suffix b'.' p ≡ p
unfolding trim_suffix
split-trim_suffix [] h = refl
split-trim_suffix (c ∷ []) h = unfold split in ground arith
split-trim_suffix (c ∷ d ∷ r) h =
    ap (◌∷◌ c) (split-trim_suffix (d ∷ r) (tail_full-split c (d ∷ r) h))

-- A pattern that normalizeDomainPattern returns.
pub record IsPattern (lib : Library) (p : Bytes) : Type 0 where
  pub again : normalize_domain_pattern lib p ≡ some p
  pub chars : AllDomain p
  pub not_empty : is_empty p ≡ false

IsPattern-parts :
    (lib : Library) (p : Bytes)
    → (is_empty p ≡ false)
    → (ltb 253 (length p) ≡ false)
    → (lib.is_ip p ≡ false)
    → all_labels (split b'.' p) ≡ true
    → IsPattern lib p
unfolding normalize_domain_pattern to_lower
IsPattern-parts lib p e l i a =
    let (letters, filled) = all_labels_parts (split b'.' p) a in
    let d = split-AllDomain p letters in
    let t = split-trim_suffix p (all_full-tail (split b'.' p) filled) in
    record {
      again = rw (AllDomain-is_ascii p d, AllDomain-lower p d, t, e, l, i, a) refl;
      chars = d;
      not_empty = e;
    }

passed_checks :
    (empty long ip labels : Bool) (q p : Bytes)
    → (if empty || long || ip then none else if labels then some q else none) ≡ some p
    → (empty ≡ false) × (long ≡ false) × (ip ≡ false) × (labels ≡ true) × (q ≡ p)
passed_checks empty long ip labels q p h = ground arith

pub normalize_domain_pattern-IsPattern :
    (lib : Library) (pattern p : Bytes)
    → normalize_domain_pattern lib pattern ≡ some p
    → IsPattern lib p
unfolding normalize_domain_pattern
normalize_domain_pattern-IsPattern lib pattern p h =
    let (e, l, i, a, same) =
      passed_checks _ _ _ _ (trim_suffix b'.' (to_lower lib.lower_other pattern)) p h in
    subst (IsPattern lib) same (IsPattern-parts lib _ e l i a)
