-- ===== src/Lib.antt =====
-- VelaDNS is a DNS service made of a supervisor process (cmd/veladns), which starts and restarts the
-- DNS server MosDNS and two Unbound resolvers, answers encrypted-DNS queries itself, and reports the
-- state of all of them; and of plugins that run inside MosDNS (internal/): a circuit breaker in front
-- of the forwarded path, the hand-written rule files, the page that shows the supervisor's state, the
-- TCP listener and counters. This library models the parts that keep state or decide, and proves them.
--
-- The parts, and the files that model them:
-- - Circuit: the circuit breaker, internal/circuitplugin/circuit.go. `acquire`, `succeed` and `fail`
--   are the methods of `circuit`; Circuit.Query is Plugin.Exec with attemptOnce, Circuit.Settings is
--   initPlugin. Circuit.Phases is the machine of closed, open and half-open phases that the counters
--   stand for, Circuit.Refinement relates the two. A lock makes each call one step, and calls of
--   queries in flight come in any order: Circuit.Events has the sequences. Circuit.Registered is
--   initPlugin as a whole, with Close; Registry is the metrics registry that it registers with.
-- - Backoff: the three delays that double and are spread at random: exponentialDelay and jitterDelay
--   of the circuit, restartDelay of cmd/veladns/process.go, jitterDoHBackoff of
--   cmd/veladns/dohbridge.go.
-- - Rules: internal/rulesplugin/rulesplugin.go. Rules has sanitizeRules with normalizeRule and
--   normalizeDomainPattern, Rules.Reload has reload, restoreOrClear, buildMatcher and
--   writeFileAtomic, Rules.Watch has newRuleFile and the loop of watch over the messages that it
--   receives, and Rules.Closing Close. Text has the functions of Go's strings, bytes, strconv and
--   unicode/utf8 that are called.
-- - Doh: cmd/veladns/dohbridge.go. Doh has the backoff of an upstream, Doh.Exchange one exchange
--   with it, Doh.DialCache and Doh.Dialling its addresses, Doh.Startup the choice of the upstreams
--   with their probes, Doh.Bridge the loop over resolvers, and Doh.Service that loop over the
--   exchanges, with the state that they share. Doh.Started is startDoHBridge, which puts them together,
--   and Doh.Life what its goroutines do after it, step by step.
-- - Wire and Runtime: internal/statewire/state.go and cmd/veladns/state.go, the state that the
--   supervisor keeps and sends, which the exchanges of Doh count in. Runtime.Interleaved has the calls
--   of all goroutines as one sequence.
-- - Health: the receiving side of that state, internal/supervisorplugin/plugin.go, its status pages
--   and, in Health.Metrics, its metrics, and cmd/veladns/healthcheck.go, which reads the pages.
--   Health.Listening is its initPlugin and Close. Health.Sent is sendStateLoop of state.go with the
--   loop that receives, and Health.Reported, Health.Fresh and Health.Crashed follow a state from the
--   supervisor and its children to the check.
-- - Supervise: superviseChild of cmd/veladns/process.go, round by round, on the state of Runtime.
--   Supervise.Traces has its updates among the calls of others, and Supervise.Shutdown the end of a
--   child with the signals of process_unix.go and process_windows.go.
-- - Waiting: waitForTCP of the same file, pass by pass.
-- - Logs: childLogWriter and childLogDeduper of the same file.
-- - Config: cmd/veladns/config.go. Config has loadConfig with parseForwardEndpoint, Config.Files the
--   operations on files, Config.Prepare prepareRuntime, which fills in the templates of the children.
-- - Cancel: internal/cancelclassify/cancel.go, the log core of internal/tcpserverplugin/server.go,
--   whose initPlugin is Cancel.Server, with Cancel.Serving for the end of its listener, and whose
--   loggers are Cancel.Logger, and internal/requestmetricsplugin/collector.go in Cancel.Queries.
-- - Decisions: internal/decisionplugin/decision.go.
-- - Program: cmd/veladns/main.go, which puts Config, the bridge, Waiting, the health check and the
--   children together, and cmd/veladns/logger.go; Program.Bootstrap is bootstrapLogLevel of
--   cmd/mosdns/main.go.
-- - Base: shared names, tests, lists, Go's int64 and its maps.
--
-- Conventions. Texts are lists of bytes; a time is in nanoseconds since the zero time of Go, and a
-- duration is a signed 64-bit number kept as its value modulo 2^64, compared by `slt` and `sle`.
-- Counters wrap at 2^64, and the theorems on runs of a breaker bound the number of calls below that.
-- Random numbers, the clock, the file system, the HTTP and DNS libraries, the regular expression
-- compiler, the IP parser, MosDNS's matcher, Prometheus's registry, unbound-checkconf and the JSON
-- decoder are arguments. Four functions run on fuel: the loop that doubles a delay on its step, since
-- it counts the step down; the loop of childLogWriter.Write on one more than the bytes pending, since
-- each round takes at least one byte off; strconv.Itoa on its number, since each digit divides it;
-- and waitForTCP on one pass for each 100 ms of its timeout and two more, since each pass waits so
-- long. Backoff.Laws, Logs.Chunks, Text.Decimal.Laws and Waiting.Laws show that they reach the end.
-- All other loops are on the structure of a list.
--
-- Not modelled: what the operating system and the libraries do with the sockets, listeners, HTTP
-- connections and processes that the program asks for, beyond their answers; modes and owners of
-- files; most log lines; the subcommand and the call of MosDNS in cmd/mosdns/main.go; and the
-- templates, scripts and images of the deployment, which are not part of the Go program.
pub mod Base
pub mod Backoff
pub mod Circuit
pub mod Waiting
pub mod Wire
pub mod Registry
pub mod Runtime
pub mod Doh
pub mod Text
pub mod Rules
pub mod Health
pub mod Logs
pub mod Supervise
pub mod Config
pub mod Cancel
pub mod Decisions
pub mod Program
