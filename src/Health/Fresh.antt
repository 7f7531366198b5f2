-- ===== src/Health/Fresh.antt =====
-- The health check on the state that the supervisor sends each second, where some of the messages are
-- lost.
use vela_dns.Base.{
  ℕ, ◌+◌, ◌-◌, ◌*◌, ◌≤◌, ◌≡◌, refl, sym, ap, ◌∙◌, subst, Bool, true, false, ◌||◌, ltb,
  if◌then◌else◌, Bool-cases, inl, inr, Option, none, some, List, [], ◌∷◌, arith,
}
use vela_dns.Backoff.{second}
use vela_dns.Text.{Bytes}
use vela_dns.Wire.{Snapshot}
use vela_dns.Runtime.{unix_epoch, snapshot}
use vela_dns.Health.{Plugin, read_message, ready, not_ready, check_supervisor_health}
use vela_dns.Health.Reported.{is_missing, snapshot-checked}
use vela_dns.Health.Sent.{Tick, arrives, send_state, followed_by, send_state_loop, read_loop}

-- The time of the last tick, the last tick whose message arrives, and the ticks since then.
abbrev pub last_time : ℕ → List Tick → ℕ
last_time time [] = time
last_time time (t ∷ ts) = last_time t.at ts

abbrev pub last_sent : Option Tick → List Tick → Option Tick
last_sent o [] = o
last_sent o (t ∷ ts) = last_sent (if arrives t then some t else o) ts

abbrev pub misses : ℕ → List Tick → ℕ
misses n [] = n
misses n (t ∷ ts) = misses (if arrives t then 0 else n + 1) ts

module _ (P : Tick → Type 0) where
  -- Each tick is at most a second after the one before, a message is not read before it is sent, and
  -- the context has not ended.
  abbrev pub IsSteady : ℕ → List Tick → Type 0
  IsSteady time [] = Unit {0}
  IsSteady time (t ∷ ts) =
      (t.at ≤ time + second) × (t.at ≤ t.read_at) × (t.canceled ≡ false) × P t × IsSteady t.at ts

  IsFresh : ℕ → ℕ → Option Tick → Type 0
  IsFresh time n none = Unit {0}
  IsFresh time n (some t) = (time ≤ t.read_at + n * second) × P t

  IsFresh-next :
      (t : Tick) (time n : ℕ) (o : Option Tick)
      → t.at ≤ time + second
      → t.at ≤ t.read_at
      → P t
      → IsFresh time n o
      → IsFresh t.at (if arrives t then 0 else n + 1) (if arrives t then some t else o)
  unfolding IsFresh
  IsFresh-next t time n o near read own h = elim (Bool-cases (arrives t)) [
    | inl e ↦ rw e (omega (arith, read), own)
    | inr e ↦ rw e (missed o h)
  ]
    where
      missed : (o : Option Tick) → IsFresh time n o → IsFresh t.at (n + 1) o
      missed none h = tt
      missed (some u) (h, old) = (omega (arith, near, h), old)

  last-IsFresh :
      (ts : List Tick) (time n : ℕ) (o : Option Tick)
      → IsSteady time ts
      → IsFresh time n o
      → IsFresh (last_time time ts) (misses n ts) (last_sent o ts)
  last-IsFresh [] time n o steady h = h
  last-IsFresh (t ∷ ts) time n o (near, read, going, own, steady) h =
      last-IsFresh ts t.at _ _ steady (IsFresh-next t time n o near read own h)

-- The plugin that has last heard of this tick.
abbrev received : Plugin → Option Tick → Plugin
received p none = p
received p (some t) = record { snapshot = snapshot t.at t.state; received_at = t.read_at }

module _ (encode : Snapshot → Option Bytes) (decode : Bytes → Option Snapshot) where
  -- The state of this tick, at a second after 1970 or later, is one that json.Marshal writes and
  -- json.Unmarshal reads.
  pub record IsWritable (t : Tick) : Type 0 where
    pub dated : unix_epoch + second ≤ t.at
    pub payload : Bytes
    pub written : encode (snapshot t.at t.state) ≡ some payload
    pub read : decode payload ≡ some (snapshot t.at t.state)

  send_state-arrives :
      (t : Tick) (h : IsWritable t)
      → send_state encode t ≡ (if arrives t then some h.payload else none)
  unfolding send_state
  send_state-arrives t h = rw (send_state, h.written) (ground arith)

  read-received :
      (t : Tick) (h : IsWritable t) (p : Plugin)
      → read_message decode t.read_at h.payload p ≡ received p (some t)
  unfolding read_message
  read-received t h p = rw (read_message, h.read) refl

  read_one :
      (t : Tick) (h : IsWritable t) (b : Bool) (p : Plugin) (o : Option Tick)
      (messages : List (ℕ × Bytes))
      → read_loop decode
          (followed_by encode t.read_at (if b then some h.payload else none) messages)
          (received p o)
        ≡ read_loop decode messages (received p (if b then some t else o))
  unfolding read_loop
  read_one t h true p o messages = ap (read_loop decode messages) (read-received t h (received p o))
  read_one t h false p o messages = refl

  goes_on :
      (b : Bool) (messages : List (ℕ × Bytes)) → b ≡ false → (if b then [] else messages) ≡ messages
  goes_on b messages h = rw h refl

  read_loop-received :
      (ts : List Tick) (time : ℕ) (p : Plugin) (o : Option Tick)
      → IsSteady IsWritable time ts
      → read_loop decode (send_state_loop encode ts) (received p o) ≡ received p (last_sent o ts)
  unfolding read_loop send_state_loop
  read_loop-received [] time p o steady = refl
  read_loop-received (t ∷ ts) time p o (near, read, going, h, steady) =
      let messages = send_state_loop encode ts in
      ap
        (λ m.
          read_loop decode (followed_by encode t.read_at m (if t.canceled then [] else messages))
            (received p o))
        (send_state-arrives t h)
      ∙ ap
          (λ more.
            read_loop decode
              (followed_by encode t.read_at (if arrives t then some h.payload else none) more)
              (received p o))
          (goes_on t.canceled messages going)
      ∙ read_one t h (arrives t) p o messages
      ∙ read_loop-received ts t.at p (if arrives t then some t else o) steady

  in_time : (passed : ℕ) → passed ≤ 5 * second → ltb (5 * second) passed ≡ false
  in_time passed h = ground arith

  -- While the context lasts: where the ticks come at most a second apart, and no more than the last
  -- four were lost, the health check at most a second after the last tick does not refuse because the
  -- state is stale: it refuses exactly if mosdns or the bridge is enabled and not up in the state of
  -- the last tick that arrived. The states are taken a second after 1970 or later, json.Unmarshal
  -- reads what json.Marshal writes of them, no message is read before it is sent, and the check is not
  -- before that last message is read.
  pub read_loop-checked :
      (first : ℕ) (ts : List Tick) (p : Plugin) (t : Tick) (now : ℕ)
      → IsSteady IsWritable first ts
      → last_sent none ts ≡ some t
      → misses 0 ts ≤ 4
      → t.read_at ≤ now
      → now ≤ last_time first ts + second
      → check_supervisor_health (some (ready now (read_loop decode (send_state_loop encode ts) p)))
        ≡ (if is_missing "mosdns" t.state || is_missing "doh_bridge" t.state
            then some not_ready
            else none)
  unfolding IsFresh
  read_loop-checked first ts p t now steady e few after soon =
      let (late, h) : IsFresh IsWritable (last_time first ts) (misses 0 ts) (some t) =
        subst (IsFresh IsWritable (last_time first ts) (misses 0 ts)) e
          (last-IsFresh IsWritable ts first 0 none steady tt) in
      let passed : ℕ = now - t.read_at in
      let plugin : read_message decode t.read_at h.payload p
          ≡ read_loop decode (send_state_loop encode ts) p =
        read-received t h p
        ∙ ap (received p) (sym e)
        ∙ sym (read_loop-received ts first p none steady) in
      let there : t.read_at + passed ≡ now = omega (arith, after) in
      let small : passed ≤ 5 * second = omega (arith, late, few, soon) in
      ap (λ q. check_supervisor_health (some (ready now q))) (sym plugin)
      ∙ ap
          (λ n.
            check_supervisor_health (some (ready n (read_message decode t.read_at h.payload p))))
          (sym there)
      ∙ snapshot-checked (λ s. h.payload) decode t.at t.read_at passed t.state p h.read h.dated
          (omega (arith, small))
      ∙ ap
          (λ v.
            if v || is_missing "mosdns" t.state || is_missing "doh_bridge" t.state
            then some not_ready
            else none)
          (in_time passed small)
