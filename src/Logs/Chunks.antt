-- ===== src/Logs/Chunks.antt =====
-- A child's log comes out the same however the pipe cuts it into pieces.
use vela_dns.Base.{
  ℕ, zero, suc, ◌<◌, ◌≡◌, refl, sym, ap, ◌∙◌, subst, Bool, true, false, ◌==◌, if◌then◌else◌, none,
  some, List, [], ◌∷◌, ◌++◌, append-nil, append_assoc, length, arith, Bool-cases, Option-cases, inl,
  inr, if-keeps, ◌⊎◌,
}
use vela_dns.Text.{Bytes, cut}
use vela_dns.Logs.Writer.{Written, drain, write}

cut_end :
    (c : ℕ) (cs l r : Bytes)
    → (c == b'\n') ≡ true
    → cut b'\n' (c ∷ cs) ≡ some (l, r)
    → (c ≡ b'\n') × (l ≡ []) × (r ≡ cs)
unfolding cut
cut_end c cs l r end h = ground arith

cut_char :
    (c : ℕ) (cs l r : Bytes)
    → (c == b'\n') ≡ false
    → cut b'\n' (c ∷ cs) ≡ some (l, r)
    → (k : Bytes) × (cut b'\n' cs ≡ some (k, r)) × (l ≡ c ∷ k)
unfolding cut
cut_char c cs l r char h = elim (Option-cases (cut b'\n' cs)) [
  | inl e ↦ ground arith
  | inr ((k, s), e) ↦ (k, ground arith, ground arith)
]

cut-length : (p l r : Bytes) → cut b'\n' p ≡ some (l, r) → length r < length p
unfolding cut
cut-length [] l r h = cc
cut-length (c ∷ cs) l r h = elim (Bool-cases (c == b'\n')) [
  | inl end ↦ let (a, b, e) = cut_end c cs l r end h in rw e (omega arith)
  | inr char ↦
      let (k, e, a) = cut_char c cs l r char h in let shorter = cut-length cs k r e in omega arith
]

module _ {W : Type 0} (emit : Bytes → W → W × Bool) where
  abbrev Out : Type 0
  Out = Written emit

  -- What a writer does that takes one byte at a time: `line` is what it has of the current line.
  unfoldable pub feed : Bytes → Bytes → W → Written emit
  feed line [] w = (line, w, true)
  feed line (c ∷ cs) w =
      let (w', ok) = emit (line ++ (c ∷ [])) w in
      let sent = feed [] cs w' in
      let more = feed (line ++ (c ∷ [])) cs w in
      if c == b'\n' then (if ok then sent else (cs, w', false)) else more

  -- Goes on with more bytes, or keeps them where the write has failed.
  abbrev pub continue : Bytes → Out → Out
  continue q (rest, w, true) = feed rest q w
  continue q (rest, w, false) = (rest ++ q, w, false)

  continue-if :
      (q : Bytes) (b : Bool) (x y : Out)
      → continue q (if b then x else y) ≡ (if b then continue q x else continue q y)
  continue-if q true x y = refl
  continue-if q false x y = refl

  feed-append : (line a q : Bytes) (w : W) → feed line (a ++ q) w ≡ continue q (feed line a w)
  unfolding feed
  feed-append line [] q w = refl
  feed-append line (c ∷ cs) q w = elim (Bool-cases (c == b'\n')) [
    | inl end ↦ elim (Bool-cases (emit (line ++ (c ∷ [])) w).1) [
      | inl ok ↦ rw (end, ok) (feed-append [] cs q (emit (line ++ (c ∷ [])) w).0)
      | inr failed ↦ rw (end, failed) refl
    ]
    | inr char ↦ rw char (feed-append (line ++ (c ∷ [])) cs q w)
  ]

  feed-none : (line p : Bytes) (w : W) → cut b'\n' p ≡ none → feed line p w ≡ (line ++ p, w, true)
  unfolding feed cut
  feed-none line [] w h = ap (λ l. (l, w, true)) (sym (append-nil line))
  feed-none line (c ∷ cs) w h = elim (Bool-cases (c == b'\n')) [
    | inl end ↦ ground arith
    | inr char ↦ rw char (
        feed-none (line ++ (c ∷ [])) cs w (ground arith)
        ∙ ap (λ l. (l, w, true)) (append_assoc line (c ∷ []) cs))
  ]

  abbrev emitted : Bytes → Bytes → W → Out
  emitted line rest w =
      let (w', ok) = emit line w in
      let more = feed [] rest w' in if ok then more else (rest, w', false)

  feed-some :
      (line p l r : Bytes) (w : W)
      → cut b'\n' p ≡ some (l, r)
      → feed line p w ≡ emitted (line ++ (l ++ (b'\n' ∷ []))) r w
  unfolding feed cut
  feed-some line [] l r w h = cc
  feed-some line (c ∷ cs) l r w h = elim (Bool-cases (c == b'\n')) [
    | inl end ↦ let (a, b, e) = cut_end c cs l r end h in rw (a, b, e) refl
    | inr char ↦
        let (k, e, a) = cut_char c cs l r char h in
        rw (char, a)
          (feed-some (line ++ (c ∷ [])) cs k r w e
            ∙ ap (λ x. emitted x r w) (append_assoc line (c ∷ []) (k ++ (b'\n' ∷ []))))
  ]

  -- The loop of Write does what the writer does that takes one byte at a time.
  drain-feed : (fuel : ℕ) (p : Bytes) (w : W) → length p < fuel → drain emit fuel p w ≡ feed [] p w
  unfolding drain
  drain-feed zero p w h = ground arith
  drain-feed (suc fuel) p w h = elim (Option-cases (cut b'\n' p)) [
    | inl e ↦ rw (drain, e) (sym (feed-none [] p w e))
    | inr ((l, r), e) ↦
        let shorter = cut-length p l r e in
        rw (drain, e, drain-feed fuel r (emit (l ++ (b'\n' ∷ [])) w).0 (omega arith))
          (sym (feed-some [] p l r w e))
  ]

  write-feed : (p pending : Bytes) (w : W) → write emit p pending w ≡ feed [] (pending ++ p) w
  unfolding write
  write-feed p pending w = drain-feed (suc (length (pending ++ p))) (pending ++ p) w (omega arith)

  -- A text without the end of a line passes through.
  IsPartial : Bytes → Type 0
  IsPartial p = cut b'\n' p ≡ none

  -- What a call that succeeds leaves pending.
  LeavesPartial : Out → Type 0
  LeavesPartial (rest, w, true) = IsPartial rest
  LeavesPartial (rest, w, false) = Unit

  IsPartial-append :
      (line : Bytes) (c : ℕ) → (c == b'\n') ≡ false → IsPartial line → IsPartial (line ++ (c ∷ []))
  unfolding IsPartial cut
  IsPartial-append [] c char n = rw char refl
  IsPartial-append (d ∷ ds) c char n = elim (Bool-cases (d == b'\n')) [
    | inl end ↦ ground arith
    | inr other ↦ ground (arith, IsPartial-append ds c char)
  ]

  feed-LeavesPartial : (line p : Bytes) (w : W) → IsPartial line → LeavesPartial (feed line p w)
  unfolding feed LeavesPartial
  feed-LeavesPartial line [] w n = n
  feed-LeavesPartial line (c ∷ cs) w n =
      if-keeps LeavesPartial (c == b'\n')
        (λ end.
          if-keeps LeavesPartial (emit (line ++ (c ∷ [])) w).1
            (λ ok.
              feed-LeavesPartial [] cs (emit (line ++ (c ∷ [])) w).0 (unfold IsPartial cut in refl))
            (λ failed. tt))
        (λ char. feed-LeavesPartial (line ++ (c ∷ [])) cs w (IsPartial-append line c char n))

  abbrev pub go_on : (Bytes → W → Written emit) → Written emit → Written emit
  go_on next (rest, w, true) = next rest w
  go_on next (rest, w, false) = (rest, w, false)

  -- Pieces that the process writes one after the other, up to the first write that fails.
  unfoldable pub write_all : List Bytes → Bytes → W → Written emit
  unfolding write
  write_all [] pending w = (pending, w, true)
  write_all (p ∷ ps) pending w = go_on (write_all ps) (write emit p pending w)

  abbrev pub concat : List Bytes → Bytes
  concat [] = []
  concat (p ∷ ps) = p ++ concat ps

  -- Two ends of a log: the same, or both with a write that failed, after the same lines.
  pub IsSameEnd : Written emit → Written emit → Type 0
  IsSameEnd x y = (x ≡ y) ⊎ ((x.1 ≡ y.1) × (x.2 ≡ false) × (y.2 ≡ false))

  feed-partial : (rest q : Bytes) (w : W) → IsPartial rest → feed [] (rest ++ q) w ≡ feed rest q w
  unfolding IsPartial
  feed-partial rest q w n = feed-append [] rest q w ∙ ap (continue q) (feed-none [] rest w n)

  step-IsSameEnd :
      (ps : List Bytes) (o : Out)
      → ((rest : Bytes) (w : W)
          → IsPartial rest
          → IsSameEnd (write_all ps rest w) (feed [] (rest ++ concat ps) w))
      → LeavesPartial o
      → IsSameEnd (go_on (write_all ps) o) (continue (concat ps) o)
  unfolding LeavesPartial IsSameEnd
  step-IsSameEnd ps (rest, w, true) h n =
      subst (IsSameEnd (write_all ps rest w)) (feed-partial rest (concat ps) w n) (h rest w n)
  step-IsSameEnd ps (rest, w, false) h n = inr (refl, refl, refl)

  write_all-feed :
      (ps : List Bytes) (pending : Bytes) (w : W)
      → IsPartial pending
      → IsSameEnd (write_all ps pending w) (feed [] (pending ++ concat ps) w)
  unfolding write_all
  write_all-feed [] pending w n =
      unfold IsSameEnd IsPartial in
      inl (sym (feed-none [] pending w n) ∙ ap (λ p. feed [] p w) (sym (append-nil pending)))
  write_all-feed (p ∷ ps) pending w n =
      subst (IsSameEnd (go_on (write_all ps) (write emit p pending w)))
        (ap (continue (concat ps)) (write-feed p pending w)
          ∙ (sym (feed-append [] (pending ++ p) (concat ps) w)
              ∙ ap (λ q. feed [] q w) (append_assoc pending p (concat ps))))
        (step-IsSameEnd ps (write emit p pending w) (write_all-feed ps) (
          subst LeavesPartial (sym (write-feed p pending w))
            (feed-LeavesPartial [] (pending ++ p) w (unfold IsPartial cut in refl))))

  -- However the log of a process is cut into pieces, writing the pieces one after the other ends as
  -- writing them at once does: the same lines have gone to the deduper and out, in the same order,
  -- both succeed with the same bytes pending or both fail, provided that what was pending before
  -- holds no end of a line.
  pub write_all-write :
      (ps : List Bytes) (pending : Bytes) (w : W)
      → cut b'\n' pending ≡ none
      → IsSameEnd (write_all ps pending w) (write emit (concat ps) pending w)
  write_all-write ps pending w n =
      subst (IsSameEnd (write_all ps pending w)) (sym (write-feed (concat ps) pending w))
        (write_all-feed ps pending w (unfold IsPartial in n))
