-- ===== src/Config.antt =====
-- The configuration of the supervisor: loadConfig, envDefault and parseForwardEndpoint of
-- cmd/veladns/config.go, and net.JoinHostPort, which it calls. The environment is an argument; a
-- variable that is not set reads as the empty text. The preparation of the files is in the children.
pub mod Endpoints
pub mod Loaded
pub mod Files
pub mod Prepare
pub mod Kept
pub mod Rendered
pub mod Prepared
pub mod Samples
mod Tests
use Prim.Native.String.{String}
use vela_dns.Base.{
  ℕ, zero, suc, ◌+◌, Bool, true, false, not, ◌&&◌, ◌||◌, leb, ◌==◌, if◌then◌else◌, Option, none,
  some, List, [], ◌∷◌, ◌++◌,
}
use vela_dns.Base.Int64.{slt}
use vela_dns.Text.{Bytes, codes, equal, is_empty, all_bytes, cut}
use vela_dns.Text.Decimal.{itoa, atoi}

pub record Config : Type 0 where
  pub auto_forward_raw : Bytes
  pub auto_enabled : Bool
  pub auto_dns : Bytes
  pub log_level : Bytes
  pub unbound_log : Bytes

pub data ConfigError : Type 0 where
  bad_level too_many_colons empty_host bad_host no_integer bad_port : ConfigError

pub data Result (A : Type 0) : Type 0 where
  ok : A → Result A
  err : ConfigError → Result A

-- strings.Count of one byte
unfoldable pub count_byte : ℕ → Bytes → ℕ
count_byte b [] = 0
count_byte b (c ∷ cs) = (if c == b then 1 else 0) + count_byte b cs

-- The class of the regular expression safeHost.
abbrev pub is_host_char : ℕ → Bool
is_host_char c =
    (leb b'A' c && leb c b'Z')
    || (leb b'a' c && leb c b'z')
    || (leb b'0' c && leb c b'9')
    || c == b'.'
    || c == b'_'
    || c == b'-'

abbrev pub is_safe_host : Bytes → Bool
is_safe_host host = not (is_empty host) && all_bytes is_host_char host

-- The switch on the number of colons: the host and the port, which is 53 where none is given.
unfoldable pub host_and_port : Bytes → Option (Bytes × Bytes)
unfolding count_byte cut
host_and_port value =
    if count_byte b':' value == 0
    then some (value, codes "53")
    else if count_byte b':' value == 1
    then cut b':' value
    else none

abbrev pub check_port : Bytes → Option ℕ → Result (Bytes × Bytes)
check_port host none = err no_integer
check_port host (some number) =
    if slt number 1 || slt 65535 number then err bad_port else ok (host, itoa number)

abbrev pub check_endpoint : Option (Bytes × Bytes) → Result (Bytes × Bytes)
check_endpoint none = err too_many_colons
check_endpoint (some (host, port)) =
    if is_empty host
    then err empty_host
    else if not (is_safe_host host)
    then err bad_host
    else check_port host (atoi port)

unfoldable pub parse_forward_endpoint : Bytes → Result (Bytes × Bytes)
unfolding host_and_port slt
parse_forward_endpoint value = check_endpoint (host_and_port value)

-- net.JoinHostPort: a host with a colon is put in brackets
unfoldable pub join_host_port : Bytes → Bytes → Bytes
unfolding count_byte
join_host_port host port =
    if count_byte b':' host == 0
    then host ++ (b':' ∷ port)
    else (b'[' ∷ host) ++ (b']' ∷ b':' ∷ port)

unfoldable pub env_default : (String → Bytes) → String → Bytes → Bytes
env_default getenv name fallback = if is_empty (getenv name) then fallback else getenv name

-- The switch on the log level: the verbosity of Unbound.
unfoldable pub unbound_verbosity : Bytes → Option Bytes
unfolding equal
unbound_verbosity level =
    if equal level (codes "debug")
    then some (codes "3")
    else if equal level (codes "info")
    then some (codes "2")
    else if equal level (codes "warn")
    then some (codes "0")
    else if equal level (codes "error")
    then some (codes "0")
    else none

abbrev pub with_endpoint : Config → Result (Bytes × Bytes) → Result Config
with_endpoint cfg (err e) = err e
with_endpoint cfg (ok (host, port)) =
    ok (record cfg { auto_enabled = true; auto_dns = join_host_port host port })

abbrev pub load_forward : Config → Result Config
load_forward cfg =
    if equal cfg.auto_forward_raw (codes "no")
    then ok cfg
    else with_endpoint cfg (parse_forward_endpoint cfg.auto_forward_raw)

abbrev pub load_levels : Bytes → Bytes → Option Bytes → Result Config
load_levels raw level none = err bad_level
load_levels raw level (some verbosity) = load_forward (record {
  auto_forward_raw = raw;
  auto_enabled = false;
  auto_dns = [];
  log_level = level;
  unbound_log = verbosity;
})

unfoldable pub load_config : (String → Bytes) → Result Config
unfolding env_default unbound_verbosity parse_forward_endpoint join_host_port equal
load_config getenv =
    let raw = env_default getenv "AUTO_FORWARD" (codes "no") in
    let level = env_default getenv "LOG_LEVEL" (codes "warn") in
    load_levels raw level (unbound_verbosity level)
