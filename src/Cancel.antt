-- ===== src/Cancel.antt =====
-- Queries that their clients give up: internal/cancelclassify/cancel.go, the log core that keeps
-- them out of the warnings, in internal/tcpserverplugin/server.go, and the counters of queries in
-- internal/requestmetricsplugin/collector.go. An error is its text and what errors.Is says of it;
-- `lower` is strings.ToLower outside of ASCII. Counters are numbers.
pub mod Laws
pub mod Queries
pub mod Server
pub mod Logger
pub mod Serving
mod Tests
use Prim.Native.String.{String}
use text.Mathlib.Text.{◌==◌}
use vela_dns.Base.{
  ℕ, suc, ◌+◌, ◌-◌, Bool, true, false, not, ◌&&◌, ◌||◌, if◌then◌else◌, Option, none, some, List, [],
  ◌∷◌,
}
use vela_dns.Text.{Bytes, codes, equal, contains, to_lower}

pub record Error : Type 0 where
  pub message : Bytes
  pub is_canceled : Bool
  pub is_closed : Bool

abbrev pub expected_fragments : List Bytes
expected_fragments =
    codes "context canceled"
    ∷ codes "connection ctx canceled"
    ∷ codes "use of closed network connection"
    ∷ codes "broken pipe"
    ∷ codes "connection reset by peer"
    ∷ []

unfoldable pub contains_any : List Bytes → Bytes → Bool
unfolding contains
contains_any [] message = false
contains_any (fragment ∷ fragments) message =
    contains fragment message || contains_any fragments message

unfoldable pub expected : (Bytes → Bytes) → Option Error → Bool
unfolding contains_any to_lower
expected lower none = false
expected lower (some e) =
    if e.is_canceled || e.is_closed
    then true
    else contains_any expected_fragments (to_lower lower e.message)

pub data Stage : Type 0 where
  entry write : Stage

unfoldable pub cancellation_stage : Bytes → Option Stage
unfolding equal
cancellation_stage message =
    if equal message (codes "entry err")
    then some entry
    else if equal message (codes "failed to write response")
    then some write
    else none

-- A field of a log entry: whether its type is ErrorType, and the error that it holds.
pub record Field : Type 0 where
  pub is_error_type : Bool
  pub error : Option Error

unfoldable pub has_expected_cancellation : (Bytes → Bytes) → List Field → Bool
unfolding expected
has_expected_cancellation lower [] = false
has_expected_cancellation lower (field ∷ fields) =
    (field.is_error_type && expected lower field.error) || has_expected_cancellation lower fields

pub record Entry : Type 0 where
  pub message : Bytes
  pub fields : List Field

-- events, the vector that the listeners share: a counter for each listener and stage.
abbrev pub Events : Type 0
Events = String → Stage → ℕ

abbrev pub same_stage : Stage → Stage → Bool
same_stage entry entry = true
same_stage write write = true
same_stage entry write = false
same_stage write entry = false

abbrev pub increment : String → Stage → Events → Events
increment listener stage events =
    λ l s. if l == listener && same_stage s stage then suc (events l s) else events l s

module _ {W : Type 0} (lower : Bytes → Bytes) (core_write : Entry → W → W × Bool) where
  -- What a Write makes of the counters and of what is behind the core, and whether it succeeded.
  abbrev pub write_stage : String → Option Stage → Entry → Events → W → Events × W × Bool
  write_stage listener none e events w = let (w', ok) = core_write e w in (events, w', ok)
  write_stage listener (some stage) e events w =
      let (w', ok) = core_write e w in
      if has_expected_cancellation lower e.fields
      then (increment listener stage events, w, true)
      else (events, w', ok)

  unfoldable pub write_entry : String → Entry → Events → W → Events × W × Bool
  unfolding cancellation_stage has_expected_cancellation
  write_entry listener e events w = write_stage listener (cancellation_stage e.message) e events w
