-- ===== src/Lib.antt =====
-- claude-plane: a verification library of the Go server that runs jobs in terminal sessions on remote
-- agents, and of the components around those runs.
--
-- The parts. A job is a graph of steps; a run of it is driven by a DAGRunner, which launches steps
-- whose dependencies have settled, lets one step at a time use a session key, retries failed steps after
-- a delay and reports the end of the run. A step runs in a session on an agent. Agents connect by a
-- stream, which the stream registry (by token) and the connection manager (by pointer) track; requests to
-- an agent wait in the request broker; events go over the bus; terminal output goes to browsers through
-- the session registry, and text into sessions through the injection queue. The Orchestrator creates,
-- retries, repairs and cancels runs, and validates jobs before. The agent records a session's output and
-- tells when it is idle; the server splits the output into searchable lines. Events go to webhooks, and
-- a bridge filters those of GitHub. Revoked tokens, notification rates and reconnection delays are
-- decided by time.
--
-- Which file models what (paths from the repository's root):
-- - Orchestrator/Types, Effects, Runner, Runner/Ready, Runner/Events: DAGRunner of
--   internal/server/orchestrator/dag_runner.go, a method as a function on the record Runner; calls of the
--   store, the publisher and the executor are the log `effects`. Orchestrator/System: a run as a step
--   relation, in which completions, retry timers and cancellation interleave at the lock's sections.
-- - Orchestrator/Rebuild: the runner of a retried run, rebuildAndStartRun of
--   internal/server/orchestrator/orchestrator.go.
-- - Orchestrator/Dag and Orchestrator/Config: ValidateDAG and ValidateJobSteps of dag_runner.go.
-- - Orchestrator/Service and Orchestrator/Service/Requests: the Orchestrator of orchestrator.go; a request
--   is cut at the sections that hold its mutex, and Orchestrator/Service/Served is the step relation of
--   these sections.
-- - Broker: internal/server/broker/broker.go. Streams: internal/server/grpc/stream_registry.go.
-- - Connmgr: internal/server/connmgr/manager.go, with agents as pointers and methods cut at their locks.
-- - Events: internal/server/event/bus.go, with channels that outlive their subscriber.
-- - Gates: internal/server/auth/blocklist.go, internal/server/notify/ratelimit.go and
--   internal/agent/backoff.go.
-- - Sessions/Registry, Sessions/Injection: internal/server/session/registry.go and injection_queue.go.
-- - Agent/Scrollback, Agent/Noise, Agent/Idle: internal/agent/scrollback.go and idle_detector.go.
-- - Ingest: internal/server/ingest/content.go. Webhooks: internal/server/event/webhook_delivery.go,
--   with PendingDeliveries of internal/server/store/webhooks.go; Webhooks/Polls has one row with its two
--   goroutines, Webhooks/Schedule the polls of the retry loop with their times.
-- - Filters: internal/bridge/connector/github/filters.go. Logs/Writer and
--   Logs/Broadcaster: internal/server/logging/tee_handler.go. Bridge: internal/bridge/state/state.go,
--   cut at its two locks.
-- - Base: Boolean tests, Go maps as association lists, lists and integers that all of them share.
-- - Tests: runs at concrete inputs.
--
-- Conventions. A map's order is one order in which `range` visits it. What the store, a clock, a random
-- source or another process answers is an argument. Times and counters are natural numbers; 64-bit
-- wrap-around is written out for stream tokens and for the reconnection delay, and left out for the small
-- counters of a run and the counters of dropped messages. processReadyDependents is recursion on fuel, the
-- number of entries of the map of steps plus one: each entry of the work queue but the first is a step
-- that has just been marked as skipped, which happens once to a step. The loop of ValidateDAG has the
-- number of entries of inDegree plus one, and each round takes another node; RetryStep's search has the
-- number of edges plus two, and each round but the first takes another end of an edge. The loops over
-- bytes (reading a recording, escape sequences, lines of output) have the number of bytes left, plus one
-- where a last round finds the end, and each round consumes a byte.
--
-- Not modelled: SQL, HTTP, gRPC, processes and terminals, files, logging, the web interface; the durations
-- of delays and timeouts of runs, sessions and detectors, which are time between two steps; errors that
-- the code only logs; the regular expressions that strip output and resolve references.
pub mod Base
pub mod Orchestrator
pub mod Broker
pub mod Connmgr
pub mod Streams
pub mod Events
pub mod Gates
pub mod Sessions
pub mod Agent
pub mod Ingest
pub mod Webhooks
pub mod Filters
pub mod Logs
pub mod Bridge
mod Tests
