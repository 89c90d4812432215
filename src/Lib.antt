-- ===== src/Lib.antt =====
-- Verification of RunMesh, a distributed workflow engine in Go.
--
-- A control plane accepts workflows (a DAG of tasks) and starts runs of them; a scheduler moves tasks
-- that are due to a message queue; workers lease, run and report tasks over gRPC. All of them share
-- one PostgreSQL database, and every change of a run or a task is one SQL transaction. The development
-- models the tables and the transactions, and the validation of DAGs.
--
-- - Base: names of the libraries, tests on numbers and texts, errors as values (Base/Results), Go's
--   int (Base/Int), its strings.TrimSpace and len on texts (Base/Strings), and SQL's SELECT, EXISTS
--   and UPDATE on lists of rows (Base/Tables).
-- - Workflow: internal/workflow. Workflow/State is state.go (`can_transition` is the map `transitions`,
--   `retry_delay` is RetryDelay, in nanoseconds), Workflow/Model is model.go, Workflow/Dag is
--   ValidateDAG of dag.go. A Go map is the list of its entries, in the order of one iteration.
--   Workflow/Dag/Steps, Acyclic, Cyclic, Fuel, Checks and Valid are proofs about it. The depth-first
--   search runs on fuel: one more than the number of tasks, which bounds the grey keys on the stack.
-- - Store: internal/storage. Store/Db has the tables of migrations/*.up.sql as records of lists.
--   Store/Leases and Store/Outcomes have LeaseTask, StartTask, HeartbeatTask, CompleteTask and FailTask
--   of worker.go; Store/DeadLetter has its replay and tenant checks; Store/CreateRun and Store/Runs
--   have
--   CreateRun, CancelRun and RetryRun of postgres.go, Store/Definitions the workflows and their
--   versions, Store/Reads the queries of runs and events; Store/ApiKeys, Store/Artifacts and
--   Store/Workers have api_keys.go, artifacts.go and the worker heartbeats. Each function maps the
--   tables to a result and the new tables; an error is a rollback. Store/Errors is `isUnique`;
--   Store/Idempotency and Store/Once are proofs, Store/Examples runs. `Env` is what a transaction
--   takes from outside: the database's now(), the process's clock, the trace, and the source of
--   random UUIDs.
-- - Scheduler: internal/scheduler/scheduler.go, the release of retries, the recovery of expired leases
--   and the dispatch of ready tasks (Scheduler/Tick), the schedules and the whole tick
--   (Scheduler/Schedules), and the outbox publisher (Scheduler/Outbox, with its order in
--   Scheduler/Order; Scheduler/Drain has its loop, whose fuel counts rounds). The cron parser, the publisher, what other processes do to the outbox meanwhile,
--   and the rows that FOR UPDATE SKIP LOCKED passes over are arguments.
-- - Lifecycle: proofs over all of these. Lifecycle/Effects says what a committed transaction has
--   changed; Lifecycle/Step has the transactions on existing tasks as a step relation, and Lifecycle/Advance, Invariant,
--   Fencing, Ending and Stuck have the properties. Lifecycle/Invariant/Ordering and Completion are about
--   the order of the tasks and the end of a run, Lifecycle/Creation shows both of a run that is
--   created, and Lifecycle/Creation/Growth joins the creation of runs to the steps. Lifecycle/Examples (on the database of
--   Lifecycle/Samples) and Workflow/Dag/Examples run them at concrete inputs.
-- - Auth: internal/auth/auth.go. Auth/Tokens has the API keys' tokens, Auth/Authenticate the three ways
--   to authenticate, on texts as lists of character codes (Auth/Text, which stands for the package
--   strings). The OIDC verifier, `uuid.Parse`, base64 and SHA-256 are arguments; Auth/Keys states what
--   the proofs use of them (`PlatformLaws`). Auth/Keys and Auth/Grants are proofs.
-- - Artifact: internal/artifact/manager.go, with the object store and the presigner as arguments
--   (Artifact/Manager). Artifact/Uploads, Completion and RoundTrip are proofs about uploads.
-- - Api: internal/api/server.go. Api/Response has the responses, `decode` and `handleErr`, Api/Access the
--   wrappers of internal/auth/auth.go, Api/Routes the routes with what they require; Api/Workflows, Runs,
--   Keys, Tasks, Schedules and Artifacts have the handlers. Api/Guards and Api/Invalid are proofs.
-- - Live: internal/live/broker.go (Live/Broker), its calls by the outbox publisher (Live/Notify, which is
--   publishClaimedBatch again, with its notifications), and internal/api/stream.go (Live/Stream). The Redis
--   server and the WebSocket are arguments; Live/Private states what the proofs use of Redis (`Laws`).
--   Live/Tenants, Isolation and Durable are proofs.
-- - RateLimit: internal/ratelimit/limiter.go. The token bucket script (RateLimit/Bucket) takes the numbers
--   of Redis's Lua as an argument; RateLimit/Bounds, a proof, states what it uses of their rounding
--   (`Laws`). RateLimit/Middleware is the handler around the script.
-- - Config: internal/config/config.go (Config/Env, Config/Load) and, in Config/Safe, what a loaded
--   configuration means for the scheduler's publisher and for the rate limiter.
-- - Rpc: internal/rpc/worker.go, the calls that report on a task (Rpc/Worker, with `snapshot` in
--   Rpc/Snapshot), `authorize` and the calls
--   for artifacts (Rpc/Uploads). Rpc/Tenants shows what a caller of another tenant sees, and
--   Rpc/Transports compares the calls with the HTTP handlers.
-- - Worker: sdk/go/client.go (Worker/Client) and cmd/worker-go/main.go (Worker/Execute, Worker/Consume),
--   over an interface of the worker service, the web and Go's packages (Worker/Calls). Worker/Served
--   fills the service with the calls of Rpc. Worker/Rules has rules for calls that may fail,
--   Worker/Phases and Worker/Beside take an execution through them for any invariant of the world, and
--   Worker/Protocol uses them; Worker/Foreign joins the worker with the plane of Worker/Served. A `Course` fixes how the handler of a task runs: the heartbeats in each
--   span between two calls, when its timeout passes, and the timer of examples.slow. The goroutine of the
--   heartbeats and the calls of `Complete` and `Fail` interleave call by call. A call under a context that
--   is done is not sent.
-- - The modules named Examples run the definitions at concrete inputs.
--
-- A UUID and an instant are natural numbers; an id in a path is one already. Not modelled: failures of
-- the database or the network, which roll a transaction back; JSON, which is passed on as text or is an
-- argument when it is decoded; interleaving inside a transaction, each of which is one step here; the
-- loops that repeat a tick on a timer; the Kafka client, the set-up of the Redis client, telemetry, the
-- set-up of the commands and the clients in other languages, which are input and output.
pub mod Base
pub mod Workflow
pub mod Store
pub mod Scheduler
pub mod Lifecycle
pub mod Auth
pub mod Artifact
pub mod Config
pub mod Api
pub mod Worker
pub mod Live
pub mod RateLimit
pub mod Rpc
