-- ===== src/Lib.antt =====
-- RDispatch: a model of the notification service and the theorems about it.
--
-- A request comes in at the gateway (internal/gateway/rest.go), which queues it by priority
-- (internal/gateway/priority/queue.go). A goroutine of the gateway (cmd/gateway-api/main.go,
-- drainQueue) pops the items and publishes them to NATS. The delivery worker
-- (internal/delivery/worker.go) fetches them, sends each through every channel
-- (internal/delivery/channels) with retries (pkg/retry/retry.go), and puts what fails into the dead
-- letter queue (pkg/dlq/dlq.go). Statistics (internal/analytics/analytics.go) and probes
-- (pkg/health/health.go) stand beside them, and so do logging, metrics and traces (pkg/observability).
--
-- Which module models what:
--   Common        what all share: Boolean tests, Go slices as lists, calls that may panic (Run), int and
--                 int64, float64 as a record of operations with the laws of IEEE 754 that are used,
--                 texts, and JSON values with the interface Codec, a Marshal and an Unmarshal.
--   Mutex         sync.Mutex of the standard library: goroutines whose calls hold one lock, each call a
--                 program of single accesses to the memory that the lock guards.
--   Encoding      encoding/json of the standard library: Marshal of a map with its keys in order and its
--                 escapes, Unmarshal of any text into a map, both with UTF-8. It is an instance of Codec.
--   Priority      internal/gateway/priority/queue.go. Level and Item; Queue has the heap operations
--                 siftUp, siftDown, less, Push, pop, TryPop and Len as functions on the slice; Wait has
--                 the blocking Pop with its helper goroutine as a step relation for one consumer. Locked has
--                 Push, TryPop and Len under the mutex, one access to the slice at a time.
--   Dlq           pkg/dlq/dlq.go: Memory with NewMemory, Push, Len, Messages and Drain, on lists; Slices has
--                 them on slices of arrays that callers share.
--   Retry         pkg/retry/retry.go: the configuration with its options, Do and addJitter.
--   Delivery      internal/delivery: the notification, the channels log, webhook, slack and telegram, and
--                 the worker with handleMessage and Run.
--   Gateway       internal/gateway/rest.go: the handlers in Rest, the routes and sequences of calls in
--                 Router; and drainQueue of cmd/gateway-api/main.go: in Loop with the Pop it waits in and
--                 its pushers, one step of a goroutine at a time, and in Drainer a round at a time.
--   Analytics     internal/analytics/analytics.go: Stats with its recorders, Snapshot and
--                 Handler.
--   Health        pkg/health/health.go: the readiness flag and the two probes; Serving has ListenAndServe
--                 with its goroutine and the server of net/http, one action of either at a time.
--   Config        pkg/config/config.go: bindStructKeys, Load and MustLoad.
--   Nats          pkg/natsutil/natsutil.go: Connect and EnsureStream.
--   Postgres      pkg/postgres/postgres.go: DSN and NewPool; pkg/postgres/migrate.go: Migrate.
--   Observability pkg/observability: NewLogger and MustLogger, the constructors of metrics, InitTracer.
--   Startup       cmd/delivery-worker/main.go: the registration of the channels and the life of the
--                 process; run of cmd/gateway-api/main.go, its start in Gateway, and its HTTP server,
--                 readiness and shutdown in Shutdown, one action at a time; main of both, in Main; and
--                 the defaults of internal/gateway/config.go.
--   System        the gateway, the stream of NATS and the worker together: calls, rounds of drainQueue,
--                 messages and restarts as steps of one relation, in any order; Arrived has encoding/json
--                 in both processes.
--   Examples      runs on concrete inputs, and each theorem applied to one.
--
-- State and steps. A method that holds its mutex from beginning to end is a function from the old state
-- to the new one; Priority.Locked compares that with goroutines whose single accesses interleave. What
-- other goroutines, the network, the clock, the context and the random source do is an argument, so that
-- a theorem covers every behaviour of theirs. A call ends as `done`, as `panic` (an index out of range, a
-- bad capacity), or as `out_of_fuel`, which is the model's own.
--
-- Fuel. siftUp has one round more than its index, since the index falls in each round; siftDown has one
-- round more than items, since the index grows and stays within the slice; a client that empties a
-- queue has one round more than items. That this is enough is part of the theorems: they state that the
-- call is `done`. Do has as many rounds as attempts, which is the bound of its own loop. The loops of
-- drainQueue and Run have no bound; they go through a list of rounds, of any length.
--
-- Numbers. Indices, lengths and attempts are far below 2 ^ 63, and are numbers without a bound; the
-- counters of the statistics wrap at 2 ^ 64.
--
-- The stream. JetStream is the record Stream with the laws of IsWorkQueue: a payload is held until it is
-- acknowledged or older than the stream allows. A Publish that fails may or may not have stored its
-- payload, and a message whose acknowledgement is lost is delivered again; both are steps of their own.
--
-- Not modelled: what is logged, which has no effect on the state; the tags that chi's middleware adds
-- to a request; generated code. HMAC-SHA256, HTTP clients, chi, NATS, pgx, goose, viper, zap,
-- Prometheus and OpenTelemetry are parameters; the laws that are asked of them are hypotheses, and
-- each holds for an instance in Examples. A signal is the end of a context. Encoding does not limit
-- how deep a value nests, and keeps a number as the text it is written with; a theorem about a Codec
-- holds for any other one too.
mod Common
pub mod Mutex
pub mod Encoding
pub mod Priority
pub mod Dlq
pub mod Retry
pub mod Delivery
pub mod Gateway
pub mod Analytics
pub mod Health
pub mod Nats
pub mod Postgres
pub mod Config
pub mod Startup
pub mod Observability
pub mod System
mod Examples
