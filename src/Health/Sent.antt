-- ===== src/Health/Sent.antt =====
-- sendStateLoop and sendState of cmd/veladns/state.go, together with readLoop of
-- internal/supervisorplugin/plugin.go and the health check. A tick is one pass of the loop: what the
-- operating system answers in it, the supervisor's state, and when the plugin reads the message if
-- it is sent.
use vela_dns.Base.{ℕ, Bool, not, ◌&&◌, if◌then◌else◌, Option, none, some, List, [], ◌∷◌}
use vela_dns.Text.{Bytes}
use vela_dns.Wire.{Snapshot}
use vela_dns.Runtime.{RuntimeState, snapshot}
use vela_dns.Health.{Plugin, read_message}

pub record Tick : Type 0 where
  pub at : ℕ
  pub state : RuntimeState
  pub resolves : Bool
  pub dials : Bool
  pub writes : Bool
  pub read_at : ℕ
  pub canceled : Bool

abbrev pub arrives : Tick → Bool
arrives t = t.resolves && (t.dials && t.writes)

module _ (encode : Snapshot → Option Bytes) where
  -- The message, if it comes to the plugin.
  unfoldable pub send_state : Tick → Option Bytes
  send_state t = elim (encode (snapshot t.at t.state)) [
    | none ↦ none
    | some payload ↦
        if not t.resolves
        then none
        else if not t.dials
        then none
        else if t.writes
        then some payload
        else none
  ]

  abbrev pub followed_by : ℕ → Option Bytes → List (ℕ × Bytes) → List (ℕ × Bytes)
  followed_by time none messages = messages
  followed_by time (some message) messages = (time, message) ∷ messages

  -- The messages with the times at which they are read.
  unfoldable pub send_state_loop : List Tick → List (ℕ × Bytes)
  unfolding send_state
  send_state_loop [] = []
  send_state_loop (t ∷ ts) =
      let rest = send_state_loop ts in
      followed_by t.read_at (send_state t) (if t.canceled then [] else rest)

-- The loop of readLoop.
unfoldable pub read_loop : (Bytes → Option Snapshot) → List (ℕ × Bytes) → Plugin → Plugin
unfolding read_message
read_loop decode [] p = p
read_loop decode ((now, message) ∷ messages) p =
    read_loop decode messages (read_message decode now message p)
