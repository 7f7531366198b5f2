-- ===== src/Cancel/Tests.antt =====
-- Two log entries, four queries and a listener, on which the theorems are applied.
use Prim.Native.String.{String}
use vela_dns.Base.{ℕ, ◌≡◌, refl, Bool, true, false, Option, none, some, List, [], ◌∷◌}
use vela_dns.Text.{Bytes, codes, has_prefix}
use vela_dns.Cancel.{Error, entry, expected, Entry, Events}
use vela_dns.Cancel.Laws.{write_all, IsWritten, write_all-IsWritten}
use vela_dns.Cancel.Queries.{
  History, none_yet, started, ended, Outcome, new_collector, fresh, IsCounted, outcomes, after,
  after-IsCounted,
}
use vela_dns.Cancel.Server.{Host, Args, Listener, taken, init_plugin, ok}

abbrev same : Bytes → Bytes
same text = text

abbrev reset : Error
reset = record {
  message = codes "read tcp: Connection Reset by peer";
  is_canceled = false;
  is_closed = false;
}

abbrev refusal : Error
refusal = record { message = codes "no upstream"; is_canceled = false; is_closed = false }

abbrev entry_of : String → Error → Entry
entry_of message e = record {
  message = codes message;
  fields = record { is_error_type = true; error = some e } ∷ [];
}

abbrev entries : List (String × Entry)
entries =
    ("tcp_53", entry_of "entry err" reset)
    ∷ ("tcp_53", entry_of "entry err" refusal)
    ∷ ("tcp_53", entry_of "started" reset)
    ∷ []

abbrev append : Entry → List Entry → List Entry × Bool
append e log = (e ∷ log, true)

abbrev no_events : Events
no_events = λ listener stage. 0

expected-reset : expected same (some reset) ≡ true
unfolding expected
expected-reset = refl

unexpected_refusal : expected same (some refusal) ≡ false
unfolding expected
unexpected_refusal = refl

counted_reset : (write_all same append entries no_events []).0 "tcp_53" entry ≡ 1
unfolding write_all
counted_reset = refl

write_all-IsWritten_example :
    IsWritten same append entries no_events [] (write_all same append entries no_events [])
write_all-IsWritten_example = write_all-IsWritten same append entries no_events []

abbrev outcome_of : Option Error → Option ℕ → Outcome
outcome_of e ms = record { error = e; latency = ms }

-- Three queries overlap, and one of them is still running.
abbrev history : History 1
history = ended (outcome_of (some reset) none) (
    started (
      ended (outcome_of none (some 12))
        (started (ended (outcome_of (some refusal) (some 3)) (started (started none_yet))))))

after-IsCounted_example : IsCounted same 1 (outcomes history) (after same fresh history)
unfolding new_collector
after-IsCounted_example = after-IsCounted same true (codes "all") fresh refl history

abbrev host : Host
host = record {
  has_entry = λ tag. true;
  registered = taken;
  load_cert = λ cert key. true;
  can_listen = λ network address. true;
}

abbrev args : Args
args = record {
  entry = codes "main";
  listen = [];
  cert = codes "cert.pem";
  key = codes "key.pem";
  idle_timeout = 0;
}

abbrev listener : Listener
listener = record {
  network = codes "tcp";
  address = codes "127.0.0.1:53";
  tls = true;
  idle_timeout = 10;
}

listener_starts : init_plugin host args ≡ ok listener
unfolding init_plugin has_prefix
listener_starts = refl
