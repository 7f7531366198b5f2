-- ===== src/Doh/Dialling.antt =====
-- Where an upstream is dialled: resolveDoHAddresses, and the DialContext of
-- newDoHUpstreamWithResolver, of cmd/veladns/dohbridge.go. The counter of the dials is a uint64.
use Prim.Native.String.{String}
use vela_dns.Base.{ℕ, ◌+◌, ◌-◌, ◌%◌, not, ◌==◌, ltb, if◌then◌else◌, List, [], ◌∷◌, length, get_or}
use vela_dns.Base.Int64.{two63, two64, wrap}
use vela_dns.Doh.Exchange.{Call, value, fault}
use vela_dns.Doh.Startup.{rcode_success}

-- A record of an answer: an address, or another one.
pub data Record : Type 0 where
  address_record : String → Record
  other_record : Record

pub record Response : Type 0 where
  pub rcode : ℕ
  pub answer : List Record

pub data DialError : Type 0 where
  bootstrap_failed bootstrap_returned : ℕ → DialError
  no_ipv4_address no_dial_address : DialError

pub data Resolution : Type 0 where
  unresolved : DialError → Resolution
  resolved : List String → Resolution

unfoldable pub addresses_of : List Record → List String
addresses_of [] = []
addresses_of (address_record a ∷ answer) = a ∷ addresses_of answer
addresses_of (other_record ∷ answer) = addresses_of answer

abbrev pub some_address : List String → Resolution
some_address [] = unresolved no_ipv4_address
some_address (a ∷ addresses) = resolved (a ∷ addresses)

unfoldable pub resolve_doh_addresses : Call Response → Resolution
unfolding addresses_of
resolve_doh_addresses (fault e) = unresolved (bootstrap_failed e)
resolve_doh_addresses (value response) =
    if not (response.rcode == rcode_success)
    then unresolved (bootstrap_returned response.rcode)
    else some_address (addresses_of response.answer)

-- What DialContext does: it dials an address, it gives up before that, or the index is negative.
pub data Dialled : Type 0 where
  to : String → Dialled
  failed : DialError → Dialled
  out_of_range : Dialled

-- int(x) % n as an index, of a text of n addresses: above 2^63 the remainder is not positive.
abbrev pub dial_at : ℕ → List String → Dialled
dial_at x ips =
    if ltb x two63
    then to (get_or ips (x % length ips) "")
    else if (two64 - x) % length ips == 0
    then to (get_or ips 0 "")
    else out_of_range

-- The counter after the dial, and the dial.
unfoldable pub dial_context : Resolution → ℕ → ℕ × Dialled
dial_context (unresolved e) next = (next, failed e)
dial_context (resolved []) next = (next, failed no_dial_address)
dial_context (resolved (ip ∷ ips)) next = (wrap (next + 1), dial_at next (ip ∷ ips))
