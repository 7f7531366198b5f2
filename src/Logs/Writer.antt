-- ===== src/Logs/Writer.antt =====
-- childLogWriter of cmd/veladns/process.go: Write and Flush. `emit` is what they do with a line: the
-- deduper's answer, and where it does not leave the line out, the write of it. It gives the new state
-- of what is behind the writer, and whether the write succeeded.
use vela_dns.Base.{
  ℕ, zero, suc, Bool, true, false, if◌then◌else◌, none, some, [], ◌∷◌, ◌++◌, length,
}
use vela_dns.Text.{Bytes, cut}

-- emit made of its two parts
abbrev pub deduped :
    {D W : Type 0}
    → (Bytes → D → D × Bool)
    → (Bytes → W → W × Bool)
    → Bytes
    → D × W
    → (D × W) × Bool
deduped suppress write_line line (d, w) =
    let (d', left_out) = suppress line d in
    let (w', ok) = write_line line w in if left_out then ((d', w), true) else ((d', w'), ok)

module _ {W : Type 0} (emit : Bytes → W → W × Bool) where
  -- What is pending and the state behind the writer, and whether the call succeeded.
  abbrev pub Written : Type 0
  Written = Bytes × W × Bool

  -- The loop of Write.
  unfoldable pub drain : ℕ → Bytes → W → Written
  unfolding cut
  drain zero pending w = (pending, w, true)
  drain (suc fuel) pending w = elim (cut b'\n' pending) [
    | none ↦ (pending, w, true)
    | some (line, rest) ↦
        let (w', ok) = emit (line ++ (b'\n' ∷ [])) w in
        let more = drain fuel rest w' in if ok then more else (rest, w', false)
  ]

  -- Each round of the loop takes at least the end of a line off.
  unfoldable pub write : Bytes → Bytes → W → Written
  unfolding drain
  write p pending w = drain (suc (length (pending ++ p))) (pending ++ p) w

  unfoldable pub flush : Bytes → W → Written
  flush [] w = ([], w, true)
  flush (c ∷ cs) w = let (w', ok) = emit (c ∷ cs) w in ([], w', ok)
