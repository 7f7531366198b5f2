-- ===== src/Decisions/Laws.antt =====
-- What the counters of decisions count.
use vela_dns.Base.{ℕ, ◌+◌, ◌≡◌, refl, Bool, true, false, if◌then◌else◌, List, [], ◌∷◌, arith}
use vela_dns.Text.{Bytes, equal, is_empty, trim_space}
use vela_dns.Cancel.Server.{already}
use vela_dns.Decisions.{no_name, Counts, Result, err, ok, quick_setup, exec}

-- A setup of an executable from its text, where the vector is registered already, or an Exec of an
-- executable that was set up from it.
pub data Step : Type 0 where
  set_up executed : Bytes → Step

abbrev pub counts_after : Result → Counts → Counts
counts_after (err e) counts = counts
counts_after (ok decision counts') counts = counts'

-- An Exec of an executable that could not be set up does not happen.
abbrev pub executed_as : Result → Counts → Counts
executed_as (err e) counts = counts
executed_as (ok decision counts') counts = exec decision counts

unfoldable pub run : List Step → Counts → Counts
run [] counts = counts
run (set_up raw ∷ steps) counts =
    run steps (counts_after (quick_setup (already true) raw counts) counts)
run (executed raw ∷ steps) counts =
    run steps (executed_as (quick_setup (already true) raw counts) counts)

-- How many steps are Execs with this decision.
abbrev pub tally : Bytes → List Step → ℕ
tally name [] = 0
tally name (set_up raw ∷ steps) = tally name steps
tally name (executed raw ∷ steps) =
    (if is_empty (trim_space raw) then 0 else if equal name (trim_space raw) then 1 else 0)
    + tally name steps

set_up_same :
    (raw : Bytes) (counts : Counts)
    → counts_after (quick_setup (already true) raw counts) counts ≡ counts
unfolding quick_setup
set_up_same raw counts = by_name (is_empty (trim_space raw))
  where
    by_name :
        (b : Bool)
        → counts_after (if b then err no_name else ok (trim_space raw) counts) counts ≡ counts
    by_name true = refl
    by_name false = refl

executed_one :
    (raw name : Bytes) (counts : Counts)
    → executed_as (quick_setup (already true) raw counts) counts name
      ≡ (if is_empty (trim_space raw) then 0 else if equal name (trim_space raw) then 1 else 0)
        + counts name
unfolding quick_setup exec
executed_one raw name counts =
    by_name (is_empty (trim_space raw)) (equal name (trim_space raw)) refl
  where
    by_name :
        (b c : Bool)
        → equal name (trim_space raw) ≡ c
        → executed_as (if b then err no_name else ok (trim_space raw) counts) counts name
          ≡ (if b then 0 else if c then 1 else 0) + counts name
    by_name true c e = omega arith
    by_name false true e = rw e (omega arith)
    by_name false false e = rw e (omega arith)

-- Setups share the counters and change none of them, and each counter grows by the number of Execs
-- of executables whose text, less the space around it, is its decision.
pub run-tally :
    (steps : List Step) (counts : Counts) (name : Bytes)
    → run steps counts name ≡ counts name + tally name steps
unfolding run
run-tally [] counts name = omega arith
run-tally (set_up raw ∷ steps) counts name =
    rw (set_up_same raw counts) (run-tally steps counts name)
run-tally (executed raw ∷ steps) counts name =
    let one = executed_one raw name counts in
    let rest = run-tally steps (executed_as (quick_setup (already true) raw counts) counts) name in
    omega (arith, one, rest)
