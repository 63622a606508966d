-- ===== src/Lib.antt =====
-- A model of the task scheduler, a Go service that stores jobs and their runs in PostgreSQL, hands
-- the runs that fall due to workers over a Redis stream, and executes them with retries, tenant
-- quotas and idempotency records.
--
-- Parts. A watcher (internal/task/watcher.go) scans for pending runs that fall due, marks them
-- queued and enqueues a message for each. A worker (internal/task/worker.go) takes a message,
-- claims a slot for the run within the tenant's limit, executes it, and records success, a retry,
-- or failure with a dead letter; success and failure enqueue the jobs that wait for the run's job.
-- A recurring watcher (internal/task/recurring_watcher.go) creates the run that follows one of a
-- recurring job that has ended, at the time that its rule gives (internal/task/recurrence.go). All
-- three work on runs (internal/task/domain.go) through the repository (internal/task/repo_postgres.go),
-- which calls the generated statements (internal/platform/postgres/sqlc/task.sql.go). The executor
-- that the worker calls is LLMExecutor (internal/task/executor.go), which reserves the cost of its
-- attempts, asks an LLM and validates the answer (internal/task/llm.go), under IdempotentExecutor,
-- which keeps a record of each idempotency key (internal/task/idempotency_postgres.go). Quotas and
-- the daily cost of LLM calls stand in internal/task/repo_quota_postgres.go. Users create, list,
-- follow and cancel jobs and their runs through the service (internal/task/service.go) and its HTTP
-- handlers (internal/task/handler_http.go), or through the tools of an MCP server
-- (internal/task/mcp/tools.go), which acts for one user. Users register and log in
-- (internal/user), and are known by a signed token that a middleware reads (internal/platform/auth).
--
-- Files. Where no other name is given, a Go name in MixedCaps is the same words in snake_case here.
--   Base             Boolean tests, lists and texts on the native numbers, signed numbers
--   Clock            time.Time as nanoseconds since year 1
--   Shared           internal/shared/pagination.go, and in its child Ids internal/shared/ids.go
--   Task/Errors      internal/task/errors.go, internal/user/errors.go, errors.Is and fmt.Errorf
--   Task/Domain      the types of internal/task/domain.go
--   Task/Transitions its functions: NewJobRun, MarkQueued, …, Cancel
--   Task/Lifecycle   the diagram of a run's states, as a relation, against those methods
--   Task/Rows        internal/task/dto_internal.go and internal/platform/postgres/pgtype.go
--   Task/Keys        the idempotency key of a run
--   Sql/Tables       migrations/ and sqlc/models.go: the tables and the loops of the statements
--   Sql/Runs         the statements on job_runs
--   Sql/Records      the statements on the other tables
--   Task/Effect      the world that the package acts on, and the monad of its functions
--   Task/Effect/Keeps  the rules by which a function is checked to keep a property of the tables
--   Task/Repo        internal/task/repo_postgres.go
--   Task/Quotas      internal/task/repo_quota_postgres.go
--   Task/Idempotency internal/task/idempotency_postgres.go
--   Task/Executor    IdempotentExecutor of internal/task/executor.go
--   Task/Llm         its LLMExecutor (Execute, with its rules in Calls, Leaves and Budget), and
--                    internal/task/llm.go: Json is what json.Unmarshal gives, Validate is
--                    ValidateOutput, and Accepts the schema language that it is to check
--   Task/Worker      process and what it calls, of internal/task/worker.go
--   Task/Queue       internal/task/queue_redis.go
--   Task/WorkerLoop  Run and processReclaimed, of internal/task/worker.go
--   Task/FairOrder   fairOrder of internal/task/worker.go
--   Task/Watcher     internal/task/watcher.go
--   Task/Recurrence  internal/task/recurrence.go; Location is time.Location and time.Date; Base/Parse
--                    has what it uses of strings and strconv
--   Task/RecurringWatcher  internal/task/recurring_watcher.go (scanOnce is scan_recurring), with
--                    Sql/Recurring for its statement
--   Task/NewJob      NewJob of internal/task/domain.go
--   Task/Service     internal/task/service.go; Create and scheduleFromInput are in its child Create
--   Task/Dto         internal/task/dto_http.go
--   Task/Http        internal/task/handler_http.go and routes.go
--   Task/System      the steps of the whole program: messages, scans, requests and tools' calls, in
--                    any order
--   Sql/Users        the statements on users, of sqlc/user.sql.go
--   Auth             internal/platform/auth: jwt.go and middleware.go
--   Users            internal/user: Domain, Hasher, Repo, Service and Http are its files
--   Mcp              internal/task/mcp; Mcp/Server is cmd/mcp/main.go and the registry
--   Platform/Config  internal/platform/config/config.go
--   Tests            concrete worlds, and the results at concrete inputs
-- The other child modules hold lemmas and are named for what they prove.
--
-- State. A World holds the tables, the commands sent to the queue, the counters incremented, and an
-- environment, which is a parameter: what the clock, the UUID library, and each call of the
-- database or of the queue answer. A call may succeed, be refused, or have its effect and lose its
-- answer. A transaction that fails leaves the tables as they were. A function of type (T, error) is
-- a function from a world to a result and a world, composed in do blocks in the order of the
-- source; the early returns are its branches.
--
-- Bounds and fuel. The loop of fairOrder has fuel for one round more than there are messages, since
-- a round takes a message while there is one; the loop of bucketsInRange has fuel for the hours of
-- the range and one more; itoa has fuel for more digits than the number has; validateJSONValue has
-- fuel for the depth of the schema and one more. 32-bit columns wrap at 2 ^ 32 and hold bit
-- patterns: the sequence and the attempts of a run read from one are the program's own below 2 ^ 31.
-- Go's int wraps at 2 ^ 64 where rules, pages and costs are computed. A time is a natural number of
-- nanoseconds, so none stands before year 1; a TIMESTAMPTZ column keeps its microseconds. The date of
-- a step of days beyond the calendar is a parameter (Zone.beyond).
--
-- Assumptions. The calls of one handler are not interleaved with those of another: the statement
-- that claims a slot reads a current snapshot, while Sql/Runs gives it the snapshot as an argument
-- of its own. The executor is a parameter of the worker; the theorems that need it ask that it
-- writes no runs and no quotas. The LLM client, encoding/json, the time zone database and the hash
-- of a response are parameters; what a theorem asks of the client stands in its statement. So are
-- bcrypt, golang-jwt, google/uuid, viper, and what unicode.ToLower makes of a character.
--
-- Not modelled: logs, spans, deadlines and cancellation of contexts; the tickers round the two
-- scanOnce; the rendering and the binding of HTTP bodies, the MCP SDK; the
-- start-up code, which only wires libraries together.
pub mod Base
pub mod Clock
pub mod Shared
pub mod Task
pub mod Sql
pub mod Auth
pub mod Users
pub mod Mcp
pub mod Platform
pub mod Tests
