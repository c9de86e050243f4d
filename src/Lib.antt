-- ===== src/Lib.antt =====
-- A model of the disbursement service: a Go backend (fiber, gorm over MySQL) that creates, lists,
-- approves, rejects and deletes disbursements, with idempotent creation, an audit trail, and
-- logins by JWT and refresh tokens.
--
-- A request passes the middlewares and the guards of its route (Middlewares.antt, Routes.antt), a
-- handler parses and validates it (Handler.antt and below), a use case decides (Usecase.antt and
-- below), and a repository runs the statements (Repository.antt and below). An error travels back
-- as a value and becomes the response in the global error handler (Errors.antt). Server.antt is
-- that chain as a whole.
--
-- - Entity.antt: internal/domain/entity; the records, the constants, `Normalize`.
-- - Errors.antt: pkg/common/httpresponse/errors.go and the sentinels of the entities; error chains
--   with `errors.Is` and `errors.As`.
-- - Reqctx.antt: pkg/common/reqctx. Utils.antt: pkg/utils. Logger.antt: pkg/logger.
-- - Response.antt: pkg/common/httpresponse/response.go. Legacy.antt: pkg/common/response.
--   Filter.antt: pkg/common/filter.
-- - Repository/Disbursements, Auth, Audit, Health: the files of internal/repository of those names;
--   Repository/Errors has what their methods share.
-- - Usecase/Disbursements and its modules Create, Batch, Status, Query:
--   internal/usecase/disbursements.go, an operation or two in each; Usecase/Dates has
--   `validateDateRange`; Usecase/Auth, Audit, Health: the files of those names.
--   Usecase/Disbursements/Trail follows the audit entries of the operations, beside the lines of
--   the server log that say that an entry failed.
-- - Handler/Disbursements, Auth, Audit, Health: internal/handler.
-- - Middlewares.antt: pkg/middlewares. Routes.antt: internal/routes/routes.go.
-- - Server.antt: pkg/server/fiber.go with the request log and the recovery of pkg/middlewares, the
--   middlewares as functions around a handler; Server/Dispatch: the guards and the handler of a
--   route; Server/Decisions, Senders, Guarded, Routed and Answers have the proofs about them;
--   Server/Hooks: `RegisterHooks`, the hooks interleaved with the goroutine that listens;
--   Server/Lifetime: what holds of every such run.
-- - Wiring.antt: the constructors that cmd/api/server.go hands to fx, by configs/fx.go and
--   internal/routes/module.go; Wiring/Application: when the server's hooks are reached.
-- - Config.antt: configs/viper.go. Database.antt and Database/Stores: pkg/database.
-- - Migrate.antt: cmd/migrate/main.go.
-- - Lifecycle.antt: the abstract specification of a disbursement's life, a step relation whose
--   steps are single statements on the rows. Lifecycle/Runs adds the idempotency keys and a
--   history of events. Requests that run at the same time interleave their statements, so what
--   holds along all runs holds of every interleaving. Lifecycle/Actions takes each use case to
--   its statements, by the rules of Lifecycle/Moves and Rules; Lifecycle/Telling and Replays
--   follow what a replayed answer tells.
--
-- State is explicit: Monad.antt has the `World` (the tables, the host, the server log), and an
-- operation is a function from a world to a result and a world, a Go error being a value. gorm,
-- MySQL, bcrypt, JWT, the validator, JSON, SHA-256, the clock and the random source are fields of
-- `Services` in External.antt; External/Sql.antt states what is assumed of the database, of which
-- `Database` lets any statement fail and `IsReliable` does not, `Admits` inserts what the schema
-- in migrations/0001_init.up.sql lets in, and External/Ordering.antt has what is assumed of
-- `ORDER BY`. External/Memory.antt implements the services on lists, so that the
-- assumptions can hold; the modules below Tests.antt run on it.
--
-- Numbers: `int` and `int64` are integers that wrap at 2 ^ 63 where the code computes with them; a
-- time is an integer of nanoseconds, and the sum of a time and a duration does not wrap. `Create`
-- loops twice, as in the source, on a count of rounds; the loop of `CreateBatch` is recursion on
-- the items, and every function is total.
--
-- What `Listen` and `ShutdownWithContext` return is fiber's choice in Server/Hooks, where a signal
-- may come at any time after the start.
-- The drivers of pkg/database, viper, zap, fx, the file system and fiber's limiter are parameters of the
-- definitions that call them. A handler of the chain may panic at any point, so what is said of every
-- handler holds of one that panics. The limiter may set headers of the response, before it refuses or
-- after the next handlers have returned.
--
-- Not modelled: fiber's router (a request comes with its route, its parsed body and query), the
-- deadlines of fx's hooks and the requests that are open while the server shuts down, the
-- generated documentation (docs), and the fields of log lines, those of the request log excepted.
-- A handler that is cancelled or panics half-way leaves the statements that it has run, each a
-- step of the life cycle.
pub mod Common
pub mod Errors
pub mod Reqctx
pub mod Entity
pub mod External
pub mod Monad
pub mod Utils
pub mod Wiring
pub mod Repository
pub mod Usecase
pub mod Response
pub mod Legacy
pub mod Handler
pub mod Middlewares
pub mod Routes
pub mod Logger
pub mod Filter
pub mod Lifecycle
pub mod Tests
pub mod Server
pub mod Config
pub mod Migrate
pub mod Database
