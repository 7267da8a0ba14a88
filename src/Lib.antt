-- ===== src/Lib.antt =====
-- trading-worker: orders on their way to the broker, and fills on their way back.
--
-- The worker shares the table `orders` with a backend. The executor claims requested and cancelled orders,
-- asks the broker and writes the answer; the tracker books the broker's fills into orders, fills, position
-- books and an outbox, puts aside what it cannot match, tries that again, and publishes the outbox. Broker
-- calls pass a rate limiter. The collector builds one-minute candles out of ticks, shares the symbols
-- among its workers, and archives the candles; the notifier sends what an outbox holds, and the detector raises
-- alerts. Credentials that the broker limits are left alone for a while.
--
-- Which file models what (paths from the root of the repository):
--   Base, Base/*      lists, options, texts as lists of UTF-16 code units, integers, Boolean tests
--   Sql, Sql/*        select and update on a table as a list of rows
--   Scaled, Scaled/*  the fixed-point functions at the end of
--                     src/roles/tracker/service/execution-persistence.service.ts (decimalToScaled,
--                     scaledToDecimal, multiplyScaled, divideScaled)
--   Event             src/shared/event/order-filled.event.ts
--   Order, Order/Ids  src/shared/model/order/, src/shared/persistence/order/order.entity.ts
--   Order/Store       src/shared/persistence/order/order.repository.impl.ts, method by method; Order/Claims
--                     and Order/Selects have its proofs, Order/Tests runs
--   Fill              buildFillAggregate, resolveFillStatus, fillAnomaly, matchesOrderSide,
--                     buildExternalFillId of execution-persistence.service.ts
--   Fill/Db           the tables of the fill path
--   Fill/Book         applyPositionBookFill and findManualPositionBook
--   Fill/Find         findLockedOrderForFill
--   Fill/Write        the rows that ingestExecutionFill and saveUnmatchedFill write
--   Fill/Ingest       ingestExecutionFill
--   Fill/Retry        retryUnmatchedFills
--   Fill/Outbox       findPendingOutbox to countOutboxPermanentFailures, and flushFillOutbox of
--                     src/roles/tracker/service/execution.service.ts
--   Fill/Quantity, Status, Outcome, Once, Aside, Accounts, Ledger, Position, Attempts, Claiming, Backoff,
--   Delivery          proofs about these, named for what they prove; Fill/Samples, Tests, OutboxTests: runs
--   Executor/Placing  src/roles/executor/usecase/pickup-requested-orders.usecase.ts
--   Executor/Cancelling
--                     src/roles/executor/usecase/pickup-cancelling-orders.usecase.ts
--   Executor/Lock     withDistributedAccountLock of both
--   Executor/Pods     the transactions that executor pods commit, in the order they commit them
--   Executor/Keeping, Handed, Closing, Checks, Asked, Calls, Exclusion, Waiting
--                     proofs about these; Executor/Tests: runs
--   Candle            src/roles/collector/service/candle-builder.service.ts and candle.model.ts, with
--                     Candle/Minute, Wellformed, Counting
--   Shards            src/roles/collector/service/collector-shard-assignment.service.ts, with Shards/Hash,
--                     Owner, Partition, Tests
--   Archive/Tasks     src/roles/collector/chart-archive/chart-archive-task.repository.ts, with State, Keys
--   Archive/Rows      the functions on rows at the end of
--                     src/roles/collector/chart-archive/chart-archive-writer.service.ts, with Merge, Groups,
--                     Sums, Derive
--   Archive/Manifests src/roles/collector/chart-archive/chart-archive-manifest.repository.ts, with Queries,
--                     Revisions
--   Archive/Writer    archiveTradeDate, archiveSymbol, archiveBackfillCandles of the same file, with Marks, Closing
--   Notifier          src/roles/notifier: the outbox repository, the dispatch use case and service, with
--                     Notifier/Settling, Replicas
--   SharedLimiter     src/external/brokerage/service/shared-credential-rate-limiter.service.ts, with Leases
--   Credential        src/shared/persistence/collector-credential/collector-credential-limit.repository.impl.ts;
--                     Credential/Cooldown, Source and Choice are src/external/brokerage/credential, with
--                     Calls, Blocking, Excluded, Offers, Turns; Credential/Accounts chooses for an account
--   Collector         src/roles/collector/service: Subscriptions is subscription-planner.service.ts, EmptyRanges
--                     is chart-empty-range.service.ts, with Keeping, Untouched, and Catchup is chart-catchup.service.ts,
--                     with Rows, Targets
--   Detector          src/roles/detector, with Dedup
--   RateLimiter       src/external/brokerage/service/rate-limiter.service.ts, with RateLimiter/Budget, Cap
--
-- How the code is modelled. A transaction is one step from tables to tables; an exception is `none`, after
-- which the tables are as they were. A chain of statements that may throw or return early is a chain of named
-- functions, one for what follows each test. Rows that other transactions lock are a parameter of every
-- select with SKIP LOCKED. What others write during a call of the broker is a parameter, `meanwhile`; the
-- broker, the bus and Redis answer by parameters. Instants are milliseconds; the clock is read once per
-- call. How TypeORM reads `{ column: null }` in a where is a parameter, `null_where`, of which nothing is
-- assumed. Database statements outside transactions are taken to succeed where
-- no answer of theirs is a parameter, and the rows of a RETURNING are what `query` gives, as the code's casts
-- say, except for the archive's tasks, where it may also give a pair of them and their number, as drivers do for
-- an UPDATE: there it is a parameter (`Returning` of Sql). The limits that the tracker's
-- timers pass are positive constants.
--
-- Bounds and fuel. Numbers of the fixed-point code are unbounded, as `bigint` is. `print_fuel` gives each
-- number its own value as fuel, which is enough since a tenth is smaller. The polls of the account lock have
-- fuel 601, one more than the polls that fit into its wait; those for a broker handle are told to have one
-- more than fits. The defaults of the environment variables are the constants used. The limiter counts
-- thousandths of a token and takes a whole rate per second, in place of doubles.
--
-- Not modelled: the broker's HTTP and WebSocket clients, the bus, controllers, configuration and module
-- wiring, which are I/O; the chain of promises by which one process orders its own calls for an account;
-- the calculator, whose averages are in floating point; and, as components of their own, the collector's
-- universe and demand, the archive's calendar, object store and triggers and its writer's lock,
-- recovery and alerts, the notifier's ingestion and templates, and reconciliation. Repository methods with
-- no database attached return at once and are left out too.
pub mod Base
pub mod Scaled
pub mod Sql
pub mod Event
pub mod Order
pub mod Credential
pub mod Detector
pub mod Fill
pub mod Executor
pub mod RateLimiter
pub mod Candle
pub mod Collector
pub mod Shards
pub mod Archive
pub mod Notifier
pub mod SharedLimiter
