-- ===== src/Cancel/Server.antt =====
-- initPlugin and cancellationCounter of internal/tcpserverplugin/server.go. What the libraries
-- answer is a `Host`: the plugins by their tags, the metrics registry, the certificate loader and
-- the sockets. An idle timeout that is not positive is 0.
use vela_dns.Base.{ℕ, ◌≤◌, ◌≡◌, ◌≢◌, Bool, true, false, not, ◌||◌, ◌==◌, if◌then◌else◌, arith}
use vela_dns.Text.{Bytes, codes, is_empty, has_prefix}

-- What Register says of the vector: it is taken, a collector stands in its place, which is a
-- vector of counters or is not, or another error.
pub data Registered : Type 0 where
  taken : Registered
  already : Bool → Registered
  refused : Registered

pub record Host : Type 0 where
  pub has_entry : Bytes → Bool
  pub registered : Registered
  pub load_cert : Bytes → Bytes → Bool
  pub can_listen : Bytes → Bytes → Bool

pub record Args : Type 0 where
  pub entry : Bytes
  pub listen : Bytes
  pub cert : Bytes
  pub key : Bytes
  pub idle_timeout : ℕ

pub data Error : Type 0 where
  no_entry register_metric incompatible_collector read_certificate cannot_listen : Error

pub record Listener : Type 0 where
  pub network : Bytes
  pub address : Bytes
  pub tls : Bool
  pub idle_timeout : ℕ

pub data Result (A : Type 0) : Type 0 where
  err : Error → Result A
  ok : A → Result A

-- `guard` stops with its error where its test fails.
abbrev guard : Bool → Error → Result (Unit {0})
guard false reason = err reason
guard true reason = ok tt

infixl 5 ◌>>=◌ ◌>>◌
abbrev ◌>>=◌ : {A B : Type 0} → Result A → (A → Result B) → Result B
err reason >>= go = err reason
ok found >>= go = go found

abbrev ◌>>◌ : {B : Type 0} → Result (Unit {0}) → Result B → Result B
check >> then_do = check >>= λ passed. then_do

abbrev pub cancellation_counter : Registered → Result (Unit {0})
cancellation_counter taken = ok tt
cancellation_counter (already is_counter_vec) = guard is_counter_vec incompatible_collector
cancellation_counter refused = err register_metric

abbrev pub with_defaults : Args → Args
with_defaults args = record args {
  listen = if is_empty args.listen then codes "127.0.0.1:53" else args.listen;
  idle_timeout = if args.idle_timeout == 0 then 10 else args.idle_timeout;
}

abbrev pub network_of : Bytes → Bytes
network_of listen = if has_prefix listen (codes "@") then codes "unix" else codes "tcp"

abbrev pub wants_tls : Args → Bool
wants_tls args = not (is_empty args.key) || not (is_empty args.cert)

unfoldable pub init_plugin : Host → Args → Result Listener
init_plugin host given =
    let args = with_defaults given in
    do
      guard (host.has_entry args.entry) no_entry
      cancellation_counter host.registered
      guard (not (wants_tls args) || host.load_cert args.cert args.key) read_certificate
      guard (host.can_listen (network_of args.listen) args.listen) cannot_listen
      ok (record {
        network = network_of args.listen;
        address = args.listen;
        tls = wants_tls args;
        idle_timeout = args.idle_timeout;
      })

-- What holds of a listener that was started with these arguments.
pub record IsServed (host : Host) (args : Args) (l : Listener) : Type 0 where
  pub entry : host.has_entry args.entry ≡ true
  pub counted : (host.registered ≢ refused) × (host.registered ≢ already false)
  pub bound : host.can_listen l.network l.address ≡ true
  pub secured : l.tls ≡ true → host.load_cert args.cert args.key ≡ true
  pub plain : l.tls ≡ false → (is_empty args.key ≡ true) × (is_empty args.cert ≡ true)
  pub unix : l.network ≡ codes "unix" → has_prefix l.address (codes "@") ≡ true
  pub address : is_empty args.listen ≡ false → l.address ≡ args.listen
  pub idle : 1 ≤ l.idle_timeout

-- Where the plugin starts, its entry is found, the counter of its cancellations is the registry's
-- vector of counters, its address is bound, over TLS where a key or a certificate is given, which
-- then has been read, and only there, on a Unix socket only where the address starts with "@", and
-- connections have an idle timeout of a second at least.
pub init_plugin-IsServed :
    (host : Host) (args : Args) (l : Listener) → init_plugin host args ≡ ok l → IsServed host args l
unfolding init_plugin
init_plugin-IsServed host args l h = record {
  entry = ground arith;
  counted = ground arith;
  bound = ground arith;
  secured = ground arith;
  plain = ground arith;
  unix = ground arith;
  address = ground arith;
  idle = ground arith;
}
