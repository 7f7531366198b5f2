-- ===== src/Circuit/Threshold.antt =====
-- Failures of ordinary queries in a row, with no success between them.
use vela_dns.Base.{
  ℕ, suc, ◌+◌, ◌<◌, ◌≡◌, refl, ◌∙◌, List, [], ◌∷◌, arith, length, ap, inl, inr, Bool-cases, zero,
  ◌-◌, ◌*◌, ◌^◌, get_or, if◌then◌else◌, ltb, ltb→lt, false,
}
use Prim.Native.Nat.{min}
use native.Mathlib.Nat.{add-zero}
use vela_dns.Base.Int64.{two64}
use vela_dns.Circuit.{add_duration}
use vela_dns.Circuit.Events.{Event, failed, run, IsConfigured, initial}
use vela_dns.Circuit.Phases.{closed, opened, Policy, policy, phase, lose, reopen}
use vela_dns.Circuit.Refinement.{moves, run-refines}

-- The failures of ordinary queries at these times.
abbrev pub failures : (ℕ → ℕ → ℕ) → List ℕ → List Event
failures jitter [] = []
failures jitter (now ∷ later) = failed jitter now (record { probe = false }) ∷ failures jitter later

length-failures :
    (jitter : ℕ → ℕ → ℕ) (times : List ℕ) → length (failures jitter times) ≡ length times
length-failures jitter [] = refl
length-failures jitter (now ∷ later) = ap suc (length-failures jitter later)

module _ (s : Policy) (jitter : ℕ → ℕ → ℕ) where
  lose_below :
      (now k : ℕ) → suc k < s.threshold → lose s jitter now false (closed k) ≡ closed (suc k)
  lose_below now k h = ground arith

  lose_at :
      (now k : ℕ) → suc k ≡ s.threshold → lose s jitter now false (closed k) ≡ reopen s jitter now 0
  lose_at now k h = ground arith

  moves_below :
      (times : List ℕ) (k : ℕ)
      → k + length times < s.threshold
      → moves s (failures jitter times) (closed k) ≡ closed (k + length times)
  moves_below [] k h = rw add-zero
  moves_below (now ∷ later) k h =
      ap (moves s (failures jitter later)) (lose_below now k (omega arith))
      ∙ moves_below later (suc k) (omega arith)
      ∙ ap closed (omega arith)

  moves_opened :
      (times : List ℕ) (n t : ℕ) → moves s (failures jitter times) (opened n t) ≡ opened n t
  moves_opened [] n t = refl
  moves_opened (now ∷ later) n t = moves_opened later n t

  -- The failure that reaches the threshold opens the machine, and those after it change nothing.
  moves_reach :
      (times : List ℕ) (k i : ℕ)
      → suc k + i ≡ s.threshold
      → i < length times
      → moves s (failures jitter times) (closed k) ≡ reopen s jitter (get_or times i 0) 0
  moves_reach [] k i e l = absurd (omega arith)
  moves_reach (now ∷ later) k zero e l =
      ap (moves s (failures jitter later)) (lose_at now k (omega arith)) ∙ moves_opened later 1 _
  moves_reach (now ∷ later) k (suc i) e l =
      ap (moves s (failures jitter later)) (lose_below now k (omega arith))
      ∙ moves_reach later (suc k) i (omega arith) (omega arith)

  moves_failures :
      (times : List ℕ)
      → 0 < s.threshold
      → moves s (failures jitter times) (closed 0) ≡ (
          if ltb (length times) s.threshold
          then closed (length times)
          else reopen s jitter (get_or times (s.threshold - 1) 0) 0)
  moves_failures times p = elim (Bool-cases (ltb (length times) s.threshold)) [
    | inl below ↦
        let l : length times < s.threshold = ltb→lt (length times) s.threshold below in
        rw below (moves_below times 0 (omega arith) ∙ ap closed (omega arith))
    | inr at ↦ rw at (moves_reach times 0 (s.threshold - 1) (omega arith) (ground arith))
  ]

-- Failures of ordinary queries in a row, fewer than 2^64, take a circuit that starts with settings
-- that are in range to this phase:
-- below the threshold it is closed with all of them counted; from the threshold on it has opened
-- once, at the time of the failure that reached the threshold, and the later ones do not matter.
pub failures-phase :
    (threshold first maximum : ℕ) (jitter : ℕ → ℕ → ℕ) (times : List ℕ)
    → IsConfigured (initial threshold first maximum)
    → length times < two64
    → phase (run (failures jitter times) (initial threshold first maximum)) ≡ (
        if ltb (length times) threshold
        then closed (length times)
        else opened 1 (
            add_duration
              (get_or times (threshold - 1) 0)
              (jitter (min maximum (first * 2 ^ 0)) maximum)))
unfolding initial
failures-phase threshold first maximum jitter times k b =
    run-refines (failures jitter times) threshold first maximum k
      (rw (length-failures jitter times) b)
    ∙ moves_failures (policy (initial threshold first maximum)) jitter times k.threshold_pos
