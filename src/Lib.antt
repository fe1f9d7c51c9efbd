-- ===== src/Lib.antt =====
-- The Aegis AI platform's gateway core: the decisions that admit, route, charge and record a chat
-- request, as shallow models of the Go code with their correctness theorems.
--
-- Each part and the code it is about (paths from the repository's root):
--   Budget    internal/budget/budget.go: CostMicroUSD and CanReserve (cost_micro_usd, can_reserve).
--   Request   internal/request/request.go: the state machine (transition), the validation of an
--             input (validate), and the request and response types.
--   Breaker   internal/circuitbreaker/breaker.go: New, Allow, Success, Failure, Release and State
--             as steps of a Breaker record; Breaker.run is any sequence of such calls.
--   Provider  internal/provider/provider.go: what the router and the gateway read of a provider, the
--             classification of its errors, and the token estimate.
--   Routing   internal/routing/router.go: registration and eligibility (Entry), the strategies
--             (Order), Select and HighestPrices (Select), and the outcomes of a lease (Lease). Each
--             entry carries its circuit breaker, its semaphore and its outstanding count; Session
--             is a router with the leases that its callers hold, as a step relation.
--   Auth      internal/auth/apikey.go: ParsePrefix, Verify and RequireScope.
--   Store     internal/persistence/memory.go and the parameters of internal/persistence/store.go: each
--             method is a function on the Memory record; Operations has any sequence of them.
--   Gateway   internal/gateway/service.go: the defaults of NewService, the stream relay of call,
--             waitBackoff and errorCategory (Gateway), and execute over the router and the in-memory
--             store (World, Execute), where Env is what providers, limiter, clock and waits answer.
--   Sql       a PostgreSQL server as the code meets it: statements as functions on the tables, each
--             with an answer that is heard, refused, or lost after it took effect, and transactions.
--   Postgres  internal/persistence/postgres.go: the methods that write requests, attempts and the
--             outbox (Operations); Calls has any sequence of them; Refines compares them with Store.
--   Events    internal/events/event.go: the kinds of events and the validation of an envelope.
--   Evaluation  internal/evaluation/evaluation.go: the four evaluators and the mask.
--   Jobs      internal/persistence/evaluation.go: evaluation jobs, their results and events.
--   Worker    internal/rabbitmq/rabbitmq.go: the topology, NewWorker, process and retry.
--   Audit     internal/persistence/audit.go: ProcessKafkaEvent.
--   RateLimit internal/ratelimit/redis.go: the two scripts over a Redis with expiring counters
--             (allow_script, finish_script), their numbers (Doubles), and Allow and Release.
--   Config    internal/config/config.go: Load.
--   Prelude, Errors, Action   the shared lists, integers, texts, maps, Go error values, and the
--             state and error monad of the store.
--
-- The parts meet as in the code: Routing steps the Breaker of an entry and reads the capabilities of
-- a Provider; the Store moves a record by the transition table of Request and reserves by the arithmetic
-- of Budget; Gateway.Execute prices a request by Budget at the prices of Routing, and runs its attempts
-- on leases of Routing and records of the Store. Postgres moves its rows by the same transition table,
-- and its outbox holds the kinds of Events. The Worker runs the evaluators of Evaluation over a Store
-- interface whose methods are those of Jobs.
--
-- Bounds and numbers: amounts and times are exact integers, and where the code computes in int64 the
-- wrap-around is written out (int64 of Prelude). Times and durations do not saturate. A float64 is an
-- integer in units of 2^-1074, and its arithmetic is an argument (FloatOps). Every loop is
-- structural recursion over a list, but the attempts of execute, which count down from MaxAttempts.
-- The router's outstanding counts do not wrap, since they are bounded by the concurrency; the sum of
-- its weights does, and where it is 0 the selection panics, which ends execute. The numbers of the
-- rate limit's scripts are doubles, exact below 2^53 and rounded from there up to 2^65, more than
-- any sum of two counters (RateLimit.Doubles), and Redis's own counters fail where they leave the range
-- of int64. An int of Go has 64 bits.
--
-- Concurrency: each method of the breaker and of the store holds its mutex throughout, so it is one
-- step, and the theorems on histories hold for every order of steps. Select is one step of a router,
-- although in the code only its parts are atomic, and execute runs without other requests between its
-- own steps. A statement of PostgreSQL, and a transaction with its row locks, is one step.
--
-- Not modelled: the digest and the lookup of API keys, the clock, random identifiers, regular
-- expressions, and the parsers of package strconv and time are arguments. Of the PostgreSQL store the
-- budgets, policies and API keys are left out; of the jobs their listing and the service that submits
-- them. The outbox relay, the loops of Kafka, HTTP, the providers' clients and process glue are
-- not modelled.
mod Prelude
pub mod Errors
pub mod Budget
pub mod Request
pub mod Breaker
pub mod Provider
pub mod Routing
pub mod Action
pub mod Store
pub mod Events
pub mod Sql
pub mod Postgres
pub mod Evaluation
pub mod Jobs
pub mod Worker
pub mod Config
pub mod RateLimit
pub mod Audit
pub mod Gateway
pub mod Auth
