-- ===== src/Lib.antt =====
-- oms_go: a verification library for the order management service of this repository.
--
-- The program is an HTTP service over PostgreSQL. A request passes internal/auth, is decoded by
-- internal/orders/handler.go and served by the `Service` of internal/orders/service.go. The service
-- validates it (validation.go), adds up its total, asks the state machine (state_machine.go) about a
-- change of status, and calls the `Repository` (repository.go), which runs the statements of
-- internal/db/orders.sql.go inside a transaction and writes an event for each change. A worker moves
-- pending orders to processing by the same service.
--
-- The files:
--   Prelude        tests on naturals, texts by code points (`strings.TrimSpace`, decimal numerals),
--                  integers with 64-bit wrap-around, WHERE, ORDER BY and LIMIT on lists, and `Exec`:
--                  calls that change a state and may fail.
--   Db.Models      the rows of internal/db/models.go. Db.Tables: the three tables and the errors of
--                  pgx. Db.Checks, Db.Inserts, Db.Selects, Db.Updates: one function for each method
--                  of internal/db/orders.sql.go, its SQL over the lists of rows together with the
--                  constraints of db/migrations/000001_init_oms_schema.up.sql. `create_order` is
--                  `CreateOrder`, and so on: names are spelled with underscores.
--   Db.World       what the program meets outside: at every use a clock, a source of uuids, the rows
--                  that others have locked, and the driver, which may fail before or after the
--                  server has done its work. All of these are arbitrary functions of the number of
--                  the use, so a statement about every world is one about every such behaviour.
--   Orders.StateMachine, Orders.Money, Orders.Validation, Orders.Commands
--                  internal/orders/state_machine.go, `calculateTotalCents` of service.go,
--                  validation.go, and the commands of repository.go.
--   Orders.Transaction
--                  `withTx`. Orders.Repository: the methods of repository.go; the function that a
--                  method hands to `withTx` has a name of its own that ends in _body.
--   Orders.Interface, Orders.Service
--                  `serviceRepository` and the methods of service.go, over any repository.
--   Orders.Audit   the specification of the event table. Orders.Lifecycle: the specification of what
--                  may become of an order.
--   Orders.Backend the service over the repository, as cmd/api/main.go puts them together, and
--                  sequences of requests. Orders.Book: the orders as their clients see them, one
--                  entry for an id. Orders.Backend.Spec: what a request may do to the book.
--   Http           requests and answers of net/http.
--   Auth           internal/auth/middleware.go: roles, modes, identities. Auth.Headers: the identities
--                  of the dev mode. Auth.Jwt: the claims of a token, of jwt.go. Auth.Limits:
--                  `maxBytesReadCloser`. Auth.Guards: the handlers that stand before another.
--                  Auth.Startup: `NewIdentityMiddleware`.
--   Orders.Json, Orders.Decoding
--                  internal/orders/json.go and the decoders of validation.go.
--   Orders.Handler internal/orders/handler.go: what is read from a request and written to an answer.
--                  Orders.Handler.Endpoints: the five handlers and their routes.
--   Orders.Worker  internal/orders/worker.go, as a step relation of the loop and its goroutines.
--   Server         the routes behind the middleware over the service and the repository, as
--                  internal/platform/httpserver.go and cmd/api/main.go put them together.
--                  Server.Views, Server.Lists: what a client is shown. Server.Owners: whose orders
--                  a request changes. Server.Listener: `NewHTTPServer`.
--   Platform       internal/platform/config.go. Platform.Variables: single variables of the
--                  environment. Platform.Config: `LoadConfig`.
--   Process        cmd/api/main.go: the step relation of its goroutines, its select and its shutdown over
--                  that of the worker. Process.Start: `main` up to its goroutines.
--   Tests          runs and instances at concrete inputs.
--
-- Every loop of the program but the worker's runs over a list and is structural recursion, so there is
-- no fuel; the worker's loop and the end of the process are relations. Widths: total, price and
-- quantity are integers, with the wrap-around of int64 where the code adds and multiplies, and of int32
-- where the batch size is converted. A uuid is the number of its 16 bytes, a timestamp a number of
-- microseconds, a duration a number of nanoseconds. A text is its code points.
--
-- Parameters: `parse_uuid` for `uuid.Parse`, `parse_addr` for `netip.ParseAddr`, encoding/json (the
-- `Decoder` of a request, the `Json` of a claim), `verify` and `claims_of` for go-oidc, `round_trip`
-- for net/http, `parse_url`, `parse_duration`, `getenv`, and `Texts` for the formats of times, uuids
-- and base64, and `Database` for pgxpool. Nothing is assumed of them, but for four named hypotheses:
-- that a reader delivers what it takes from its content, and gets on as io.Reader asks (`Steady` in
-- Auth.Limits.Reported), that a cursor is written by formats that are read back (`Reads` in
-- Orders.Handler.Cursor), that a verifier leaves the tables alone (Server), and what opens and closes a
-- pool (`PoolLaws` in Process.Start.Prepares).
-- Statements of other connections are not interleaved with a transaction: of concurrency, the model has
-- the rows that SKIP LOCKED passes over, and the goroutines of the worker and of `main`. Of net/http,
-- `Shutdown` and `ListenAndServe` are taken by their documentation (Process).
--
-- Not modelled: how chi matches a path, logging, internal/db/db.go, which passes statements on to pgx,
-- internal/platform/json.go, a copy of internal/orders/json.go that nothing calls; how long
-- `dbPool.Close()` waits at the end of `main`; what CHAR(3) does to a currency that the validation
-- refuses; contexts and their cancellation, other than as a failure of the driver and in the worker's
-- loop; texts that are no valid UTF-8.
pub mod Prelude
pub mod Db
pub mod Auth
pub mod Http
pub mod Orders
pub mod Server
pub mod Platform
pub mod Process
pub mod Tests
