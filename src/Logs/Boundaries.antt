-- ===== src/Logs/Boundaries.antt =====
-- What the deduper leaves out: the lines of a query whose failure a boundary line has told of.
use Prim.Native.String.{String}
use text.Mathlib.Text.{◌==◌}
use text.Mathlib.TextEquality.{eq_iff}
use vela_dns.Base.{
  ℕ, ◌-◌, ◌≤◌, ◌<◌, ◌≡◌, ◌⊎◌, inl, inr, refl, sym, ap, subst, ◌∙◌, Bool, true, false, not, ◌&&◌,
  ltb, leb, Option, none, some, List, [], ◌∷◌, arith, All, Bool-cases, Option-cases, if-keeps,
}
use vela_dns.Base.Dict.{Dict, find, store, find-store}
use vela_dns.Text.{Bytes, codes, contains}
use vela_dns.Logs.Expiry.{IsUnique, store-IsUnique, expire_missing, expire-IsUnique, find-expire}
use vela_dns.Logs.{
  Deduper, new_deduper, dedupe_window, expire, is_boundary, is_internal, is_startup_info,
  is_deadline, suppress_query, suppress,
}

-- The state and the line that `suppress` was asked about, one after the other.
pub record Logged : Type 0 where
  pub time : ℕ
  pub line : Bytes

module _ (query_id : Bytes → Option String) where
  abbrev is_of : String → Bytes → Bool
  is_of id line = elim (query_id line) [ some q ↦ q == id | none ↦ false ]

  unfoldable pub after : List Logged → Deduper → Deduper
  unfolding suppress
  after [] d = d
  after (l ∷ ls) d = after ls (suppress query_id l.time l.line d).0

  -- That a query's boundary at `t` is still known, or out of the window by now.
  IsKnown : String → ℕ → ℕ → Dict ℕ → Type 0
  IsKnown id t now m = (find id m ≡ some t) ⊎ ((find id m ≡ none) × (dedupe_window < now - t))

  -- A later line that is no boundary of the query.
  pub record IsLater (id : String) (now : ℕ) (l : Logged) : Type 0 where
    pub earlier : l.time ≤ now
    pub other : (is_boundary l.line && is_of id l.line) ≡ false

  expire-IsKnown :
      (id : String) (t now later : ℕ) (m : Dict ℕ)
      → now ≤ later
      → IsUnique m
      → IsKnown id t later m
      → IsKnown id t later (expire now m)
  unfolding IsKnown
  expire-IsKnown id t now later m b u (inl e) = elim (Bool-cases (ltb dedupe_window (now - t))) [
    | inl old ↦ inr (find-expire now id m u ∙ ground arith, ground arith)
    | inr recent ↦ inl (find-expire now id m u ∙ ground arith)
  ]
  expire-IsKnown id t now later m b u (inr (e, old)) = inr (expire_missing now id m e, old)

  suppress_query-IsUnique :
      (id : String) (now : ℕ) (line : Bytes) (d : Deduper)
      → IsUnique d.boundaries
      → IsUnique (suppress_query id now line d).0.boundaries
  unfolding suppress_query
  suppress_query-IsUnique id now line d u =
      let kept = expire-IsUnique now d.boundaries u in
      if-keeps (λ (o : Deduper × Bool). IsUnique o.0.boundaries) (is_boundary line)
        (λ b. store-IsUnique id now (expire now d.boundaries) kept)
        (λ n.
          if-keeps (λ (o : Deduper × Bool). IsUnique o.0.boundaries) (not (is_internal line))
            (λ b. kept) (λ i. kept))

  stored :
      (q id : String) (t now later : ℕ) (m : Dict ℕ)
      → (q == id) ≡ false
      → IsKnown id t later m
      → IsKnown id t later (store q now m)
  unfolding IsKnown
  stored q id t now later m other (inl e) = inl (find-store q id now m ∙ rw other e)
  stored q id t now later m other (inr (e, old)) = inr (find-store q id now m ∙ rw other e, old)

  suppress_query-IsKnown :
      (q id : String) (t now later : ℕ) (line : Bytes) (d : Deduper)
      → now ≤ later
      → (is_boundary line && q == id) ≡ false
      → IsUnique d.boundaries
      → IsKnown id t later d.boundaries
      → IsKnown id t later (suppress_query q now line d).0.boundaries
  unfolding suppress_query
  suppress_query-IsKnown q id t now later line d b o u k =
      let kept = expire-IsKnown id t now later d.boundaries b u k in
      if-keeps (λ (o : Deduper × Bool). IsKnown id t later o.0.boundaries) (is_boundary line)
        (λ bound. stored q id t now later (expire now d.boundaries) (ground arith) kept)
        (λ n.
          if-keeps (λ (o : Deduper × Bool). IsKnown id t later o.0.boundaries)
            (not (is_internal line)) (λ b. kept) (λ i. kept))

  -- The properties of the map that each line keeps.
  suppress-keeps :
      (P : Dict ℕ → Type 0) (now : ℕ) (line : Bytes) (d : Deduper)
      → ((q : String) → query_id line ≡ some q → P (suppress_query q now line d).0.boundaries)
      → P d.boundaries
      → P (suppress query_id now line d).0.boundaries
  unfolding suppress
  suppress-keeps P now line d h p =
      if-keeps (λ (o : Deduper × Bool). P o.0.boundaries) (is_startup_info d line) (λ b. p)
        (λ n.
          if-keeps (λ (o : Deduper × Bool). P o.0.boundaries) (not (is_deadline d line)) (λ b. p)
            (λ deadline. elim (Option-cases (query_id line)) [
              | inl e ↦ rw e p
              | inr (q, e) ↦ rw e (h q e)
            ]))

  suppress-IsUnique :
      (l : Logged) (d : Deduper)
      → IsUnique d.boundaries
      → IsUnique (suppress query_id l.time l.line d).0.boundaries
  suppress-IsUnique l d u =
      suppress-keeps IsUnique l.time l.line d (λ q e. suppress_query-IsUnique q l.time l.line d u) u

  suppress-IsKnown :
      (id : String) (t now : ℕ) (l : Logged) (d : Deduper)
      → IsLater id now l
      → IsUnique d.boundaries
      → IsKnown id t now d.boundaries
      → IsKnown id t now (suppress query_id l.time l.line d).0.boundaries
  suppress-IsKnown id t now l d h u k =
      suppress-keeps (IsKnown id t now) l.time l.line d
        (λ q e.
          suppress_query-IsKnown q id t l.time now l.line d h.earlier (ground (arith, h.other)) u k)
        k

  suppress-child :
      (l : Logged) (d : Deduper) → (suppress query_id l.time l.line d).0.child ≡ d.child
  unfolding suppress suppress_query
  suppress-child l d = ground arith

  -- What a state has that Write's deduper can be in.
  record IsMosdns (d : Deduper) : Type 0 where
    child : d.child ≡ "mosdns"
    unique : IsUnique d.boundaries

  suppress-IsMosdns :
      (l : Logged) (d : Deduper) → IsMosdns d → IsMosdns (suppress query_id l.time l.line d).0
  suppress-IsMosdns l d s = record {
    child = suppress-child l d ∙ s.child;
    unique = suppress-IsUnique l d s.unique;
  }

  after-IsMosdns : (ls : List Logged) (d : Deduper) → IsMosdns d → IsMosdns (after ls d)
  unfolding after
  after-IsMosdns [] d s = s
  after-IsMosdns (l ∷ ls) d s = after-IsMosdns ls _ (suppress-IsMosdns l d s)

  after-IsKnown :
      (id : String) (t now : ℕ) (ls : List Logged) (d : Deduper)
      → All (IsLater id now) ls
      → IsMosdns d
      → IsKnown id t now d.boundaries
      → IsKnown id t now (after ls d).boundaries
  unfolding after
  after-IsKnown id t now [] d h s k = k
  after-IsKnown id t now (l ∷ ls) d (h, hs) s k =
      after-IsKnown id t now ls _ hs (suppress-IsMosdns l d s)
        (suppress-IsKnown id t now l d h s.unique k)

  -- A line of the query `id` that is past its deadline.
  pub record IsAbout (id : String) (line : Bytes) : Type 0 where
    pub deadline : contains (codes "context deadline exceeded") line ≡ true
    pub query : query_id line ≡ some id

  mosdns_line :
      (line : Bytes) (d : Deduper)
      → IsMosdns d
      → contains (codes "context deadline exceeded") line ≡ true
      → (is_startup_info d line ≡ false) × (is_deadline d line ≡ true)
  mosdns_line line d s h =
      let unbound : (d.child == "unbound") ≡ false =
        subst (λ c. (c == "unbound") ≡ false) (sym s.child) refl in
      let recursive : (d.child == "unbound_recursive") ≡ false =
        subst (λ c. (c == "unbound_recursive") ≡ false) (sym s.child) refl in
      let mosdns : (d.child == "mosdns") ≡ true =
        subst (λ c. (c == "mosdns") ≡ true) (sym s.child) refl in
      (ground arith, rw (mosdns, h) refl)

  deadline_line :
      (id : String) (now : ℕ) (line : Bytes) (d : Deduper)
      → IsMosdns d
      → IsAbout id line
      → suppress query_id now line d ≡ suppress_query id now line d
  unfolding suppress
  deadline_line id now line d s a =
      let (startup, deadline) = mosdns_line line d s a.deadline in
      rw (startup, deadline, a.query) refl

  recorded :
      (id : String) (t now : ℕ) (line : Bytes) (d : Deduper)
      → is_boundary line ≡ true
      → IsKnown id t now (suppress_query id t line d).0.boundaries
  unfolding suppress_query IsKnown
  recorded id t now line d b =
      rw b (inl (find-store id id t (expire t d.boundaries) ∙ rw ((eq_iff id id).1 refl) refl))

  known-recent :
      (id : String) (t now : ℕ) (line : Bytes) (d : Deduper)
      → IsUnique d.boundaries
      → IsKnown id t now d.boundaries
      → is_boundary line ≡ false
      → is_internal line ≡ true
      → (suppress_query id now line d).1 ≡ leb (now - t) dedupe_window
  unfolding suppress_query IsKnown
  known-recent id t now line d u (inl e) b i =
      rw (b, i, find-expire now id d.boundaries u, e) (ground arith)
  known-recent id t now line d u (inr (e, old)) b i =
      rw (b, i, find-expire now id d.boundaries u, e) (ground arith)

  -- In the log of mosdns, whatever was logged before, once a line has told at `t` that a query is
  -- past its deadline at the boundary, an internal line that tells the same of that query is left
  -- out exactly up to the end of the window after `t`, whatever lines stand between the two, if
  -- these are not later than the internal line and none of them is a boundary line of that query.
  pub suppress-boundary :
      (id : String) (t now : ℕ) (boundary internal : Bytes) (startup : Bool)
      (before between : List Logged)
      → IsAbout id boundary
      → is_boundary boundary ≡ true
      → IsAbout id internal
      → is_boundary internal ≡ false
      → is_internal internal ≡ true
      → All (IsLater id now) between
      → let d = after before (new_deduper "mosdns" startup) in
        let d' = after between (suppress query_id t boundary d).0 in
        (suppress query_id now internal d').1 ≡ leb (now - t) dedupe_window
  suppress-boundary id t now boundary internal startup before between ab b ai nb i h =
      let d = after before (new_deduper "mosdns" startup) in
      let s : IsMosdns d =
        after-IsMosdns before (new_deduper "mosdns" startup)
          (record { child = refl; unique = unfold IsUnique in tt }) in
      let s' = suppress-IsMosdns (record { time = t; line = boundary }) d s in
      let known =
        subst (λ (o : Deduper × Bool). IsKnown id t now o.0.boundaries)
          (sym (deadline_line id t boundary d s ab)) (recorded id t now boundary d b) in
      let last = after-IsMosdns between _ s' in
      ap (λ (o : Deduper × Bool). o.1) (deadline_line id now internal _ last ai)
      ∙ known-recent id t now internal _ last.unique (after-IsKnown id t now between _ h s' known)
          nb i
