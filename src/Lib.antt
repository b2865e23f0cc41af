-- ===== src/Lib.antt =====
-- The order service of a pick-up point (pvzService): orders are accepted from couriers, handed to
-- clients, taken back and sent back; each change is recorded with its history and, through an
-- outbox, sent to Kafka.
--
-- Parts, and where they are modelled:
--   * Base: shared helpers: native numbers, lists, byte texts with the program's `%d`, sorting.
--   * Domain: internal/domain (Order, Error, Event with the dead letters). `Platform` holds what the
--     code takes from float64 and package time.
--   * Cache/Lru: pkg/cache/lru.go. The map and the linked list are kept apart as in the code; an
--     element is named by a number that stands for its address.
--   * Db: pkg/db. `Tables` are the rows of migrations/*.sql, `Write` what statements do to them,
--     `World` the state that the program acts on, `Client` statements and transactions.
--   * Repository: internal/repository/postgres. Orders (crud.go, getters.go), Outbox, Dlq, and Cached
--     (cached_order_repo.go), with what coherence of the caches means in Cached/Coherent.
--   * App: internal/app. Accept, Issue, ReturnClient, ReturnDelivery are the operations on one order,
--     Queries the reading ones, Paginate the paging, Concurrent the goroutines of a batch. Record and
--     Outcome hold what the operations share, Guards what their conditions demand, Progress when they
--     succeed, Lifecycle the service over time.
--   * Worker: cmd/outbox, the outbox worker and the worker of the dead letters.
--   * WorkerPool: internal/workerpool. `Pool` is the state that the goroutines share, `Thread` where one
--     of them stands, Moves one step of one of them, System all of them in any order. Sound, Requests,
--     Honest, NoDeadlock, Terminates, Settles and Stuck say what holds of it.
--   * Notifier: cmd/notifier/event_handler.go and the loop of internal/infra/kafka/kafka_consumer.go;
--     Telegram is the client of internal/infra/telegram with its attempts.
--   * Grpc: internal/adapter/grpc: util.go and errors.go, Handlers (handler.go), Middleware (mw) with
--     the chain that cmd/pvz/main.go builds.
--   * Cli: internal/adapter/cli: the commands, the prompt that reads them, and the messages of errors, over
--     an `OrderService` that is a parameter.
--   * Metrics: the gauge of orders by status of internal/metrics/provider.go.
--   * Admin: the handlers of internal/infra/admin.go over the caches.
--   * Examples: concrete runs.
--
-- The service calls the cached repository, which calls the repositories, which run statements by the
-- client or in the open transaction. An action takes a `World` and returns a result with the next
-- world; what was done before an error stays done. In a world, `faults` says which of the coming
-- statements fail and with what driver message, `ticks` how far the clock moves at each reading.
-- A failing commit has written nothing. Writes in the open
-- transaction are pending, and only its own statements see them.
--
-- Time is a number of nanoseconds. Where the code subtracts a later instant it gets a negative
-- duration and compares it with a positive one, for which 0 answers the same. Identifiers are below
-- 2^63, and values come back from the database as they were written. UUIDs are fresh numbers, the
-- JSON payload of an event is kept as the event. `Paginate` is in arithmetic modulo 2^64. Loops are
-- structural recursions on lists; the digits of `%d` have fuel of the number's value and one, of
-- which each digit takes one.
--
-- In the worker pool a job is the number of its request; what its function does, when contexts are
-- done and who takes the next step is left open. `PoolInterceptor` is part of that model, and the chain
-- of interceptors takes what it returns. Third-party code is a parameter: the limiter, the generated
-- validation, `multierr.Errors`, the text of a status error, the decoding of JSON.
--
-- Not modelled: logging, tracing, connections; row locks, since one worker runs at a time; two
-- goroutines inside a repository method at once, and so readers between an invalidation and its
-- commit; the read replica, which is the same database; when the goroutine that refreshes the status
-- metrics runs: the service records a metric event. The texts of the Telegram messages; the wiring of the
-- programs, which is I/O around the service; the code generated from
-- api/orders/contract.proto.
pub mod Base
pub mod Domain
pub mod App
pub mod Worker
pub mod WorkerPool
pub mod Notifier
pub mod Grpc
pub mod Cli
pub mod Metrics
pub mod Admin
mod Examples
pub mod Cache
pub mod Db
pub mod Repository
