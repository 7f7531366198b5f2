-- ===== src/Cancel/Laws.antt =====
-- The log core leaves out the expected cancellations, counts them, and passes on all else.
use Prim.Native.String.{String}
use text.Mathlib.Text.{◌==◌}
use vela_dns.Base.{
  ℕ, suc, ◌+◌, ◌≡◌, refl, ◌∙◌, Bool, true, false, ◌&&◌, if◌then◌else◌, Option, none, some, List, [],
  ◌∷◌, arith,
}
use vela_dns.Text.{Bytes}
use vela_dns.Cancel.{
  Stage, cancellation_stage, has_expected_cancellation, Entry, Events, same_stage, increment,
  write_stage, write_entry,
}

module _ {W : Type 0} (lower : Bytes → Bytes) (core_write : Entry → W → W × Bool) where
  -- Entries that several listeners write one after the other.
  unfoldable pub write_all : List (String × Entry) → Events → W → Events × W
  unfolding write_entry
  write_all [] events w = (events, w)
  write_all ((listener, e) ∷ es) events w =
      let (events', w', ok) = write_entry lower core_write listener e events w in
      write_all es events' w'

  -- The stage at which an entry tells of an expected cancellation.
  unfoldable pub suppressed_at : Entry → Option Stage
  suppressed_at e =
      if has_expected_cancellation lower e.fields then cancellation_stage e.message else none

  abbrev passed_more : Option Stage → Entry → List Entry → List Entry
  passed_more none e es = e ∷ es
  passed_more (some stage) e es = es

  -- The entries that are passed on, in their order.
  unfoldable pub passed : List (String × Entry) → List Entry
  passed [] = []
  passed ((listener, e) ∷ es) = passed_more (suppressed_at e) e (passed es)

  abbrev pub write_core : List Entry → W → W
  write_core [] w = w
  write_core (e ∷ es) w = write_core es (core_write e w).0

  abbrev counts_at : String → Stage → String → Option Stage → ℕ
  counts_at l s listener none = 0
  counts_at l s listener (some stage) = if l == listener && same_stage s stage then 1 else 0

  -- How many entries of a listener tell of an expected cancellation at a stage.
  unfoldable pub suppressed : String → Stage → List (String × Entry) → ℕ
  suppressed l s [] = 0
  suppressed l s ((listener, e) ∷ es) = counts_at l s listener (suppressed_at e) + suppressed l s es

  abbrev pub settled : Option Stage → String → Entry → Events → W → Events × W × Bool
  settled none listener e events w = (events, (core_write e w).0, (core_write e w).1)
  settled (some stage) listener e events w = (increment listener stage events, w, true)

  pub write_entry-settled :
      (listener : String) (e : Entry) (events : Events) (w : W)
      → write_entry lower core_write listener e events w
        ≡ settled (suppressed_at e) listener e events w
  unfolding write_entry suppressed_at
  write_entry-settled listener e events w =
      by_stage (cancellation_stage e.message) (has_expected_cancellation lower e.fields) refl
    where
      by_stage :
          (o : Option Stage) (b : Bool)
          → has_expected_cancellation lower e.fields ≡ b
          → write_stage lower core_write listener o e events w
            ≡ settled (if b then o else none) listener e events w
      by_stage none true q = refl
      by_stage none false q = refl
      by_stage (some stage) true q = rw q refl
      by_stage (some stage) false q = rw q refl

  -- What several writes make of the log and of the counters.
  pub record IsWritten (es : List (String × Entry)) (events : Events) (w : W) (o : Events × W)
      : Type 0 where
    pub log : o.1 ≡ write_core (passed es) w
    pub counted : (l : String) (s : Stage) → o.0 l s ≡ events l s + suppressed l s es

  shifted : (b : Bool) (n m : ℕ) → (if b then suc n else n) + m ≡ n + ((if b then 1 else 0) + m)
  shifted true n m = omega arith
  shifted false n m = omega arith

  added :
      (o : Option Stage) (listener l : String) (s : Stage) (e : Entry) (events : Events) (w : W)
      (n : ℕ)
      → (settled o listener e events w).0 l s + n ≡ events l s + (counts_at l s listener o + n)
  added none listener l s e events w n = omega arith
  added (some stage) listener l s e events w n =
      shifted (l == listener && same_stage s stage) (events l s) n

  past :
      (o : Option Stage) (listener : String) (e : Entry) (es : List Entry) (events : Events) (w : W)
      → write_core es (settled o listener e events w).1 ≡ write_core (passed_more o e es) w
  past none listener e es events w = refl
  past (some stage) listener e es events w = refl

  -- The log core leaves out exactly the entries that tell of an expected cancellation at one of its
  -- two stages: what is behind it is written all the other entries, in their order and nothing
  -- more, and each counter grows by the number of entries of its listener and stage that are left
  -- out.
  pub write_all-IsWritten :
      (es : List (String × Entry)) (events : Events) (w : W)
      → IsWritten es events w (write_all es events w)
  unfolding write_all passed suppressed
  write_all-IsWritten [] events w = record { log = refl; counted = λ l s. omega arith }
  write_all-IsWritten ((listener, e) ∷ es) events w = rw (write_entry-settled listener e events w) (
      let h =
        write_all-IsWritten es (settled (suppressed_at e) listener e events w).0
          (settled (suppressed_at e) listener e events w).1 in
      record {
        log = h.log ∙ past (suppressed_at e) listener e (passed es) events w;
        counted = λ l s.
            h.counted l s ∙ added (suppressed_at e) listener l s e events w (suppressed l s es);
      })
