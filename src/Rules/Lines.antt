-- ===== src/Rules/Lines.antt =====
-- Reading back what was written: a normal rule on a line of its own is accepted as it is.
use vela_dns.Base.{
  ℕ, suc, ◌≡◌, refl, sym, ap, subst, Bool, true, false, ◌||◌, not, ◌==◌, Option, none, some, List,
  [], ◌∷◌, ◌++◌, take, append_assoc, arith, get_or, length, All,
}
use vela_dns.Text.{
  is_empty, all_bytes, Bytes, is_ascii_space, any_space, trim_space, trim_suffix, split, join,
}
use vela_dns.Text.Laws.{trim_space_id, no_space, any_space-suffix}
use vela_dns.Rules.{
  Library, Kind, domain, full, keyword, regexp, typed, comment_from, inline_comment_index,
  strip_comment, skipped, accepted, read_line, count, no_rules, read_lines, cleaned,
}
use vela_dns.Rules.Normal.{IsNormal}

abbrev solid : ℕ → Bool
solid c = not (is_ascii_space c)

any_space-solid : (s : Bytes) → any_space s ≡ false → all_bytes solid s ≡ true
any_space-solid [] h = refl
any_space-solid (c ∷ cs) h =
    ground (arith, no_space (c ∷ cs) h, any_space-solid cs (any_space-suffix (c ∷ []) cs h))

trim_suffix-solid : (s : Bytes) → all_bytes solid s ≡ true → trim_suffix b'\r' s ≡ s
unfolding trim_suffix
trim_suffix-solid [] h = refl
trim_suffix-solid (c ∷ []) h = ground arith
trim_suffix-solid (c ∷ d ∷ r) h = ap (◌∷◌ c) (trim_suffix-solid (d ∷ r) (ground arith))

comment_from-solid :
    (previous index : ℕ) (s : Bytes)
    → solid previous ≡ true
    → all_bytes solid s ≡ true
    → comment_from previous index s ≡ none
unfolding comment_from
comment_from-solid previous index [] p h = refl
comment_from-solid previous index (c ∷ cs) p h = ground (arith, comment_from-solid c (suc index) cs)

strip_comment-solid : (s : Bytes) → all_bytes solid s ≡ true → strip_comment s ≡ s
unfolding inline_comment_index
strip_comment-solid [] h = refl
strip_comment-solid (c ∷ cs) h =
    ap (λ (o : Option ℕ). elim o [ some i ↦ trim_space (take i (c ∷ cs)) | none ↦ c ∷ cs ])
      (comment_from-solid c 1 cs (ground arith) (ground arith))

-- A rule begins with the letter of its type.
typed_start :
    (k : Kind) (p : Bytes) → (is_empty (typed k p) || get_or (typed k p) 0 0 == b'#') ≡ false
typed_start domain p = refl
typed_start full p = refl
typed_start keyword p = refl
typed_start regexp p = refl

module _ (lib : Library) where
  read_line_normal : (rule : Bytes) → IsNormal lib rule → read_line lib rule ≡ accepted rule
  unfolding read_line
  read_line_normal rule n =
      let s = any_space-solid rule n.no_space in
      let start =
        subst (λ r. (is_empty r || get_or r 0 0 == b'#') ≡ false) (sym n.typed_as)
          (typed_start n.kind n.pattern) in
      rw
        (
          trim_suffix-solid rule s,
          trim_space_id rule n.no_space,
          start,
          strip_comment-solid rule s,
          n.again,
        )
        refl

  read_line_nil : read_line lib [] ≡ skipped
  unfolding read_line trim_suffix trim_space
  read_line_nil = refl

  pub read_lines_normal :
      (rules : List Bytes)
      → All (IsNormal lib) rules
      → read_lines lib (rules ++ ([] ∷ []))
        ≡ record { rules = rules; meaningful = length rules; rejections = 0 }
  unfolding read_lines
  read_lines_normal [] h = ap (λ v. count v no_rules) read_line_nil
  read_lines_normal (r ∷ rs) (n, h) = rw (read_line_normal r n, read_lines_normal rs h) refl

split_line :
    (l rest : Bytes)
    → all_bytes solid l ≡ true
    → split b'\n' (l ++ (b'\n' ∷ rest)) ≡ l ∷ split b'\n' rest
unfolding split
split_line [] rest h = refl
split_line (c ∷ cs) rest h = ground (arith, split_line cs rest)

pub cleaned-cons : (r : Bytes) (rs : List Bytes) → cleaned (r ∷ rs) ≡ r ++ (b'\n' ∷ cleaned rs)
unfolding cleaned join
cleaned-cons r [] = refl
cleaned-cons r (s ∷ rs) = append_assoc r _ _

pub split-cleaned :
    (lib : Library) (rules : List Bytes)
    → All (IsNormal lib) rules
    → split b'\n' (cleaned rules) ≡ rules ++ ([] ∷ [])
split-cleaned lib [] h = unfold cleaned split in refl
split-cleaned lib (r ∷ rs) (n, h) =
    rw
      (
        cleaned-cons r rs,
        split_line r (cleaned rs) (any_space-solid r n.no_space),
        split-cleaned lib rs h,
      )
      refl
