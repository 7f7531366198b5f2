-- ===== src/Logs/Tests.antt =====
-- Runs of the logs of the child processes at fixed inputs.
use Prim.Native.String.{String}
use vela_dns.Base.{
  ◌*◌, ◌-◌, ◌≡◌, refl, true, false, Bool, Option, none, some, List, [], ◌∷◌, arith, leb,
  if◌then◌else◌,
}
use vela_dns.Backoff.{second}
use vela_dns.Text.{Bytes, codes, contains, has_prefix, cut}
use vela_dns.Logs.{new_deduper, dedupe_window, is_boundary, is_internal, suppress}
use vela_dns.Logs.Boundaries.{Logged, after, IsLater, IsAbout, suppress-boundary}
use vela_dns.Logs.Writer.{write}
use vela_dns.Logs.Chunks.{write_all, IsSameEnd, write_all-write}

-- A destination that keeps the lines and refuses those that begin with an exclamation mark.
abbrev keep : Bytes → List Bytes → List Bytes × Bool
keep line ls = if has_prefix (codes "!") line then (ls, false) else (line ∷ ls, true)

abbrev pieces : List Bytes
pieces = codes "on" ∷ codes "e\ntwo\nth" ∷ codes "ree" ∷ []

pieces-written :
    write_all keep pieces [] [] ≡ (codes "three", codes "two\n" ∷ codes "one\n" ∷ [], true)
unfolding write_all has_prefix
pieces-written = refl

refused : write keep (codes "one\n!\ntwo\n") [] [] ≡ (codes "two\n", codes "one\n" ∷ [], false)
unfolding write has_prefix
refused = refl

nothing_pending : cut b'\n' (codes "th") ≡ none
unfolding cut
nothing_pending = refl

write_all-write_example :
    IsSameEnd keep
      (write_all keep pieces (codes "th") [])
      (write keep (codes "one\ntwo\nthree") (codes "th") [])
write_all-write_example = write_all-write keep pieces (codes "th") [] nothing_pending

abbrev query_id : Bytes → Option String
query_id line = if contains (codes "\"uqid\": 7") line then some "7" else none

abbrev boundary : Bytes
boundary = codes "warn\tmain_udp\tentry err\t{\"uqid\": 7} context deadline exceeded"

abbrev internal : Bytes
internal = codes "warn\tforward_unbound\tupstream error\t{\"uqid\": 7} context deadline exceeded"

boundary-IsAbout : IsAbout query_id "7" boundary
unfolding contains
boundary-IsAbout = record { deadline = refl; query = refl }

internal-IsAbout : IsAbout query_id "7" internal
unfolding contains
internal-IsAbout = record { deadline = refl; query = refl }

boundary-bound : is_boundary boundary ≡ true
unfolding contains
boundary-bound = refl

internal-free : is_boundary internal ≡ false
unfolding contains
internal-free = refl

internal-inside : is_internal internal ≡ true
unfolding contains
internal-inside = refl

abbrev again : Logged
again = record { time = 5 * second; line = internal }

again-IsLater : IsLater query_id "7" (10 * second) again
unfolding contains
again-IsLater = record { earlier = omega arith; other = refl }

suppress-boundary_example :
    (suppress query_id (10 * second) internal (
      after query_id
        (again ∷ [])
        (suppress query_id second boundary (after query_id [] (new_deduper "mosdns" true))).0)).1
    ≡ leb (10 * second - second) dedupe_window
suppress-boundary_example =
    suppress-boundary query_id "7" second (10 * second) boundary internal true [] (again ∷ [])
      boundary-IsAbout boundary-bound internal-IsAbout internal-free internal-inside
      (again-IsLater, tt)
