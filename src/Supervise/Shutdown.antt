-- ===== src/Supervise/Shutdown.antt =====
-- The end of the children: the branch of superviseChild of cmd/veladns/process.go that stops a child
-- when the context ends, with the signals of process_unix.go and process_windows.go, and the wait of
-- main for all of them. A `Child` says how long its end takes after a signal; a child may end by
-- itself from a request to terminate, or never. Times are in nanoseconds.
use Prim.Native.Nat.{min, max}
use vela_dns.Base.{
  Bool-cases, subst, sym, ℕ, ◌+◌, ◌≤◌, ◌≡◌, refl, Bool, if◌then◌else◌, ltb, ◌==◌, not, inl, inr,
  ◌*◌, Option, none, some, List, [], ◌∷◌, All, arith,
}
use vela_dns.Backoff.{second}

pub data Platform : Type 0 where
  unix windows : Platform

pub data Signal : Type 0 where
  term kill : Signal

-- What is sent to the group of the child, under Unix, or to the child.
abbrev pub terminate_unix : Signal
terminate_unix = term

abbrev pub kill_unix : Signal
kill_unix = kill

abbrev pub terminate_windows : Signal
terminate_windows = kill

abbrev pub kill_windows : Signal
kill_windows = kill

abbrev pub terminate_process : Platform → Signal
terminate_process unix = terminate_unix
terminate_process windows = terminate_windows

abbrev pub kill_process : Platform → Signal
kill_process unix = kill_unix
kill_process windows = kill_windows

abbrev pub shutdown_grace : ℕ
shutdown_grace = 5 * second

pub record Child : Type 0 where
  pub term_end : Option ℕ
  pub kill_end : ℕ

-- How long the child's end takes after a signal, if it ends.
abbrev pub ends_after : Child → Signal → Option ℕ
ends_after c term = c.term_end
ends_after c kill = some c.kill_end

-- The signals with their times, and the time at which the loop has seen the child's end.
pub record Stopped : Type 0 where
  pub signals : List (ℕ × Signal)
  pub ended_at : ℕ

module _ (platform : Platform) where
  abbrev pub request : ℕ → ℕ × Signal
  request at = (at, terminate_process platform)

  -- The end that a first signal leads to, if it comes before the end from the second.
  abbrev pub earlier : Option ℕ → ℕ → ℕ
  earlier (some d) e = min d e
  earlier none e = e

  abbrev pub forced : ℕ → Child → Stopped
  forced at c = record {
    signals = request at ∷ (at + shutdown_grace, kill_process platform) ∷ [];
    ended_at =
        at + earlier (ends_after c (terminate_process platform)) (shutdown_grace + c.kill_end);
  }

  -- A child's end against the timer; where both are at hand, `timer_wins` says which is taken.
  abbrev pub in_grace : Bool → ℕ → Bool
  in_grace timer_wins d = if d == shutdown_grace then not timer_wins else ltb d shutdown_grace

  -- The loop has waited for an end that is taken before the timer, however long that takes.
  abbrev pub stop_on : Bool → ℕ → Child → Option ℕ → Stopped
  stop_on timer_wins at c none = forced at c
  stop_on timer_wins at c (some d) =
      if in_grace timer_wins d
      then record { signals = request at ∷ []; ended_at = at + d }
      else forced at c

  unfoldable pub stop : Bool → ℕ → Child → Stopped
  stop timer_wins at c = stop_on timer_wins at c (ends_after c (terminate_process platform))

  -- main stops all children at once, and waits for the last.
  unfoldable pub stop_all : ℕ → List (Bool × Child) → List Stopped
  unfolding stop
  stop_all at [] = []
  stop_all at ((timer_wins, c) ∷ cs) = stop timer_wins at c ∷ stop_all at cs

  unfoldable pub wait_all : ℕ → List Stopped → ℕ
  wait_all at [] = at
  wait_all at (s ∷ stopped) = max s.ended_at (wait_all at stopped)

  -- The kernel takes at most `most` to end a child that is killed.
  abbrev pub IsKilledBy : ℕ → Bool × Child → Type 0
  IsKilledBy most (timer_wins, c) = c.kill_end ≤ most

  abbrev first_end : Bool × Child → Option ℕ
  first_end (timer_wins, c) = ends_after c (terminate_process platform)

  -- What is sent to a child whose first end takes this long: the request at once, and a kill when
  -- the time is over. Where the child ends just then, the kill may be sent or not.
  pub data IsAsked (at : ℕ) (first : Option ℕ) (s : Stopped) : Type 0 where
    heeds :
        (d : ℕ)
        → first ≡ some d
        → d ≤ shutdown_grace
        → s.signals ≡ request at ∷ []
        → s.ended_at ≡ at + d
        → IsAsked at first s
    overdue :
        ((d : ℕ) → first ≡ some d → shutdown_grace ≤ d)
        → s.signals ≡ request at ∷ (at + shutdown_grace, kill) ∷ []
        → IsAsked at first s

  -- A child's end: no later than the request or the kill leads to, after what it is sent.
  pub record IsEnded (at most : ℕ) (p : Bool × Child) (s : Stopped) : Type 0 where
    pub later : at ≤ s.ended_at
    pub prompt : s.ended_at ≤ at + earlier (first_end p) (shutdown_grace + most)
    pub asked : IsAsked at (first_end p) s

  kills : kill_process platform ≡ kill
  kills = by_platform platform
    where
      by_platform : (p : Platform) → kill_process p ≡ kill
      by_platform unix = refl
      by_platform windows = refl

  forced-prompt :
      (at most end : ℕ) (first : Option ℕ)
      → end ≤ most
      → at + earlier first (shutdown_grace + end) ≤ at + earlier first (shutdown_grace + most)
  forced-prompt at most end none k = omega (arith, k)
  forced-prompt at most end (some d) k = omega (arith, k)

  later_than : (at : ℕ) (n : ℕ) → at ≤ at + n
  later_than at n = omega arith

  forced-IsEnded :
      (timer_wins : Bool) (at most : ℕ) (c : Child)
      → c.kill_end ≤ most
      → ((d : ℕ) → first_end (timer_wins, c) ≡ some d → shutdown_grace ≤ d)
      → IsEnded at most (timer_wins, c) (forced at c)
  forced-IsEnded timer_wins at most c k late = record {
    later = later_than at _;
    prompt = forced-prompt at most c.kill_end (first_end (timer_wins, c)) k;
    asked = overdue late (rw kills refl);
  }

  stop_on-IsEnded :
      (timer_wins : Bool) (at most : ℕ) (c : Child) (first : Option ℕ)
      → first_end (timer_wins, c) ≡ first
      → c.kill_end ≤ most
      → IsEnded at most (timer_wins, c) (stop_on timer_wins at c first)
  stop_on-IsEnded timer_wins at most c none e k =
      forced-IsEnded timer_wins at most c k (λ d e'. absurd (cc))
  stop_on-IsEnded timer_wins at most c (some d) e k = elim (Bool-cases (in_grace timer_wins d)) [
    | inl early ↦
        let soon : d ≤ shutdown_grace = ground arith in
        let within : at + d ≤ at + earlier (some d) (shutdown_grace + most) = omega (arith, soon) in
        rw early (record {
          later = later_than at d;
          prompt =
              subst (λ first. at + d ≤ at + earlier first (shutdown_grace + most)) (sym e) within;
          asked = heeds d e soon refl refl;
        })
    | inr late ↦
        let overdue_at : (d' : ℕ) → first_end (timer_wins, c) ≡ some d' → shutdown_grace ≤ d' =
          λ d' e'. ground arith in
        rw late (forced-IsEnded timer_wins at most c k overdue_at)
  ]

  pub stop-IsEnded :
      (timer_wins : Bool) (at most : ℕ) (c : Child)
      → c.kill_end ≤ most
      → IsEnded at most (timer_wins, c) (stop timer_wins at c)
  unfolding stop
  stop-IsEnded timer_wins at most c k =
      stop_on-IsEnded timer_wins at most c (first_end (timer_wins, c)) refl k

  -- Each child with its end.
  abbrev pub AllEnded : ℕ → ℕ → List (Bool × Child) → Type 0
  AllEnded at most cs = All (λ p. IsEnded at most p (stop p.0 at p.1)) cs

  stop_all-AllEnded :
      (at most : ℕ) (cs : List (Bool × Child)) → All (IsKilledBy most) cs → AllEnded at most cs
  stop_all-AllEnded at most [] h = tt
  stop_all-AllEnded at most ((timer_wins, c) ∷ cs) (k, ks) =
      (stop-IsEnded timer_wins at most c k, stop_all-AllEnded at most cs ks)

  -- The end of the wait: not before the end of a child, and soon.
  pub record IsOver (at most : ℕ) (stopped : List Stopped) : Type 0 where
    pub bounded : wait_all at stopped ≤ at + shutdown_grace + most
    pub waited : All (λ s. s.ended_at ≤ wait_all at stopped) stopped

  raised :
      (m n : ℕ) (stopped : List Stopped)
      → m ≤ n
      → All (λ s. s.ended_at ≤ m) stopped
      → All (λ s. s.ended_at ≤ n) stopped
  raised m n [] h k = tt
  raised m n (s ∷ stopped) h (k, ks) = (omega (arith, h, k), raised m n stopped h ks)

  bounded_by : (first : Option ℕ) (n : ℕ) → earlier first n ≤ n
  bounded_by none n = omega arith
  bounded_by (some d) n = omega arith

  wait_all-IsOver :
      (at most : ℕ) (cs : List (Bool × Child))
      → AllEnded at most cs
      → IsOver at most (stop_all at cs)
  unfolding wait_all stop_all
  wait_all-IsOver at most [] h = record { bounded = omega arith; waited = tt }
  wait_all-IsOver at most (p ∷ cs) (h, hs) =
      let rest = wait_all-IsOver at most cs hs in
      let bound = rest.bounded in
      let own = h.prompt in
      let s = stop p.0 at p.1 in
      let later = wait_all at (stop_all at cs) in
      record {
        bounded = omega (arith, own, bound, bounded_by (first_end p) (shutdown_grace + most));
        waited = (
          omega arith,
          raised later (max s.ended_at later) (stop_all at cs) (omega arith) rest.waited,
        );
      }

  -- What holds after the context has ended at `at`.
  pub record IsShutDown (at most : ℕ) (cs : List (Bool × Child)) : Type 0 where
    pub over : IsOver at most (stop_all at cs)
    pub each : AllEnded at most cs

  -- Where the kernel takes at most `most` to end a killed child, the wait of main for its children
  -- ends within the five seconds of grace and `most`, when all have ended. Each is sent the request
  -- to terminate at once. A child that ends from it in less than five seconds is sent nothing else
  -- and has ended when it does; one that takes longer, or never ends from it, is sent a kill when the
  -- five seconds are over (with exactly five seconds it is one or the other); and each ends no
  -- later than the one or the other leads to.
  pub stop_all-IsShutDown :
      (at most : ℕ) (cs : List (Bool × Child)) → All (IsKilledBy most) cs → IsShutDown at most cs
  stop_all-IsShutDown at most cs h =
      let each = stop_all-AllEnded at most cs h in
      record { over = wait_all-IsOver at most cs each; each = each }
