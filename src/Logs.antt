-- ===== src/Logs.antt =====
-- The logs of the child processes: childLogWriter and childLogDeduper of cmd/veladns/process.go. A
-- log is a list of bytes. The regular expression of the query number is the argument `query_id`,
-- which gives the group that it finds in a line; the time of a call is an argument, in nanoseconds.
pub mod Writer
pub mod Chunks
pub mod Expiry
pub mod Boundaries
mod Tests
use Prim.Native.String.{String}
use text.Mathlib.Text.{◌==◌}
use vela_dns.Base.{
  ℕ, ◌-◌, ◌*◌, Bool, true, false, not, ◌&&◌, ◌||◌, ltb, leb, if◌then◌else◌, Option, none, some,
  List, [], ◌∷◌, ◌++◌,
}
use vela_dns.Base.Dict.{Dict, find, store}
use vela_dns.Backoff.{second}
use vela_dns.Text.{Bytes, codes, contains}

abbrev pub dedupe_window : ℕ
dedupe_window = 10 * second

pub record Deduper : Type 0 where
  pub child : String
  pub suppress_startup_info : Bool
  pub boundaries : Dict ℕ

abbrev pub new_deduper : String → Bool → Deduper
new_deduper child suppress_startup_info = record {
  child = child;
  suppress_startup_info = suppress_startup_info;
  boundaries = [];
}

-- The loop that deletes what is older than the window.
unfoldable pub expire : ℕ → Dict ℕ → Dict ℕ
expire now [] = []
expire now ((id, at) ∷ m) =
    let rest = expire now m in if ltb dedupe_window (now - at) then rest else (id, at) ∷ rest

abbrev pub is_boundary : Bytes → Bool
is_boundary line =
    contains (codes "\tmain_tcp\tentry err\t") line
    || contains (codes "\tmain_udp\tentry err\t") line

abbrev pub is_internal : Bytes → Bool
is_internal line =
    contains (codes "\tclassify_lookup\tsecondary error\t") line
    || contains (codes "\tforward_unbound\tupstream error\t") line
    || contains (codes "\trecursive_unbound\tupstream error\t") line

abbrev pub is_startup_info : Deduper → Bytes → Bool
is_startup_info d line =
    d.suppress_startup_info
    && (d.child == "unbound" || d.child == "unbound_recursive")
    && contains (codes " info: start of service (unbound ") line

abbrev pub is_deadline : Deduper → Bytes → Bool
is_deadline d line = d.child == "mosdns" && contains (codes "context deadline exceeded") line

abbrev pub is_recent : ℕ → Option ℕ → Bool
is_recent now none = false
is_recent now (some at) = leb (now - at) dedupe_window

-- The part of suppress under the lock.
unfoldable pub suppress_query : String → ℕ → Bytes → Deduper → Deduper × Bool
unfolding expire find
suppress_query id now line d =
    let kept = expire now d.boundaries in
    if is_boundary line
    then (record d { boundaries = store id now kept }, false)
    else if not (is_internal line)
    then (record d { boundaries = kept }, false)
    else (record d { boundaries = kept }, is_recent now (find id kept))

-- The new state, and whether the line is left out.
unfoldable pub suppress : (Bytes → Option String) → ℕ → Bytes → Deduper → Deduper × Bool
unfolding suppress_query
suppress query_id now line d =
    if is_startup_info d line
    then (d, true)
    else if not (is_deadline d line)
    then (d, false)
    else elim (query_id line) [ some id ↦ suppress_query id now line d | none ↦ (d, false) ]
