-- ===== src/Decisions.antt =====
-- internal/decisionplugin/decision.go: the counters of routing decisions, in a vector that all
-- executables share. What the registry says of the vector is a `Registered`, as for the TCP server.
pub mod Laws
mod Tests
use vela_dns.Base.{
  ℕ, zero, suc, Bool, true, false, if◌then◌else◌, Option, none, some, List, [], ◌∷◌,
}
use vela_dns.Text.{Bytes, equal, is_empty, trim_space}
use vela_dns.Cancel.Server.{Registered, taken, already, refused}

-- The counters of the vector, by decision.
abbrev pub Counts : Type 0
Counts = Bytes → ℕ

pub data Error : Type 0 where
  no_name register_failed incompatible : Error

-- An executable with the name of its decision, and the vector of the registry; or an error.
pub data Result : Type 0 where
  err : Error → Result
  ok : Bytes → Counts → Result

abbrev pub new_counts : Counts
new_counts = λ name. 0

abbrev pub decision_counter : Registered → Bytes → Counts → Result
decision_counter taken decision counts = ok decision new_counts
decision_counter (already true) decision counts = ok decision counts
decision_counter (already false) decision counts = err incompatible
decision_counter refused decision counts = err register_failed

unfoldable pub quick_setup : Registered → Bytes → Counts → Result
unfolding trim_space
quick_setup registered raw counts =
    if is_empty (trim_space raw)
    then err no_name
    else decision_counter registered (trim_space raw) counts

-- Exec of an executable with this decision.
unfoldable pub exec : Bytes → Counts → Counts
unfolding equal
exec decision counts = λ name. if equal name decision then suc (counts name) else counts name
