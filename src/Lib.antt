-- ===== src/Lib.antt =====
-- A model of delta-works, a daemon that places orders at trading venues and keeps their state in
-- Postgres.
--
-- The program. A client asks the order service (internal/service/order) to place an order: the pending
-- row is written first, then the venue is asked. What happens to the order arrives as venue events from
-- three sources (the ack of the submit, the private stream, and the reconciliation loop of
-- internal/service/reconcile), in any order and more than once. Each event goes through `ApplyEvent` of
-- the store (internal/adapters/postgres/orders.go): in one transaction the row is locked, the state
-- machine (internal/domain/order/machine.go) decides, and the order row, a transition row, a fill row,
-- the ledger posting (internal/adapters/postgres/ledger.go, internal/domain/ledger/ledger.go) and the
-- outbox rows are written. The relay (internal/service/outbox) hands the outbox rows to the event bus.
--
-- The files, and what they model.
--   Base: names of the library passed on, tests, lists, maps, texts, and sorting by insertion.
--   Decimal: the interface of the decimal library (github.com/shopspring/decimal), with the laws of an
--     ordered group that the code relies on; Decimal.Integers is an instance.
--   Errors: errors by what they wrap, and `errors.Is`.
--   Domain.Instrument.Pairs: the texts of instruments and `ParsePair`.
--   Domain.Instrument, Domain.Order: internal/domain/instrument, money and order, as types.
--   Domain.Order.Machine: machine.go (`rank`, `Terminal`, `Transition`). Machine.Step and
--     Machine.Replay are about one event and about sequences of events.
--   Domain.Ledger: ledger.go (`FIFO.Select`); Ledger.Fifo is about it.
--   Postgres.Schema: the rows of sqlcgen/models.go, the payloads of internal/events.
--   Postgres.Session: what runs against the database: statements, transactions and faults.
--     Session.Laws and Session.Keeps are the rules for what an action leaves alone.
--   Postgres.Queries, Postgres.LedgerQueries: the statements of sqlcgen/*.sql.go.
--   Postgres.LedgerPosting: ledger.go of the adapter; LedgerPosting.Frame says what it leaves alone.
--   Postgres.OrderStore, Postgres.OrderMethods: orders.go of the adapter. OrderStore.Effect,
--     OrderStore.Apply and OrderStore.Invariant are about `ApplyEvent`.
--   Postgres.OutboxStore: outbox.go of the adapter; OutboxStore.Delivery is about it.
--   Postgres.Checkpoints: the checkpoint store of postgres.go and sqlcgen/checkpoints.sql.go, with
--     `int32` as it wraps; Checkpoints.Latest is about what `LastSnapshot` returns.
--   Postgres.Conservation: the lots and their closures; Conservation.Posting is about what a posted fill
--     leaves of them, over Session.Commits, the rules for a transaction whose body fails half-way.
--   Postgres.Soundness: what the tables of orders, transitions and fills have in common; its children are
--     about the changes to the tables and about the operations that make them.
--   Service.Outbox, Service.Orders, Service.Reconcile: the services, each with the modules about it.
--   Service.Stores: the operations of the stores that the services call, as an interface of properties
--     that they keep.
--   Service.Reconcile.Loop: the loop of a venue and the signal of a reconnect.
--   Daemon: the services beside each other (internal/app starts them); Daemon.Soundness and
--     Daemon.Conservation are about the tables that they share.
--   Ctl: the listing of cmd/ctl/order.go; Ctl.Listing is about how it ends and how much it prints,
--     Ctl.Daemon about the daemon that answers it.
--   Questdb: internal/adapters/questdb; Questdb.Writes is about the rows that the server has.
--   Service.Snapshots: internal/service/snapshot; Service.Snapshots.Anchors is about its checkpoints
--     for any stores, Service.Snapshots.Adapters for those of internal/adapters that it is given.
--   Api.Events: internal/api/events.go; Api.Events.Order is about what a client of the stream sees.
--   Api.Snapshots: internal/api/snapshot.go; Api.Snapshots.Latest is about its answers.
--   Api.Orders: internal/api/orders.go: conversions, errors and tokens; Api.Orders.Listing and
--     Api.Orders.Handlers are its handlers, Api.Orders.RoundTrip, Api.Orders.Filters and
--     Api.Orders.Pages are about them.
--   Bus: internal/bus/bus.go. Bus.Accounting, Bus.Ordering and Bus.Progress are about what becomes of an
--     event, about the order of events, and about a subscriber that is given its turns.
--   Domain.Account: internal/domain/account, internal/domain/marketdata and internal/snapshot, as types.
--   Exchange: internal/exchange/registry.go and middleware.go; Exchange.Lookup is about the registry.
--   Config: internal/config/config.go and load.go, with Config.Texts for the functions of `strings`;
--     Config.Validity and Config.Loading are about the checks and about what was loaded.
--   Gct: internal/adapters/gct. Gct.Convert and Gct.ConvertOrders are its conversions, Gct.Adapter the
--     calls, Gct.Stream the websocket; Gct.Known, Gct.Sending, Gct.Outcomes and Gct.Balances are about
--     the statuses it names, what it sends, its answers, and its sums.
--   Examples: a small exchange at which the theorems are applied.
--
-- How the state corresponds. A table is the list of its rows; a session carries the tables, the
-- identity columns, the IDs that `id.New` returns, the time of the database, what was handed to the
-- bus, and the faults that the environment has in store: each statement takes the next one, and either
-- runs, or is refused, or runs and loses its reply. A transaction keeps the writes of its body or none;
-- a COMMIT whose reply is lost keeps them and reports an error, and so does a statement on its own. A Go
-- string type with constants is a data type with one more constructor for any other text. A time is a
-- number of nanoseconds, 0 the zero time; of a time that it is given, the database keeps whole
-- microseconds.
--
-- Parameters. The decimal library, the trading library (gocryptotrader) with its pairs and its float64
-- numbers, the limiter and the circuit breaker, koanf, the files and the home of the user, the coding of
-- page tokens and of JSON, the line sender of the series store, which may flush by itself,
-- `backoff.Retry`, the daemon as a client sees it and the text of an error are arguments. Whether the
-- caller's context is done when an error is inspected, and the time that `time.Now` returns, are
-- arguments too.
--
-- Fuel. The loop of `drain` publishes batch after batch and takes the number of batches as fuel; it
-- says when that ran out; one more batch than there are unpublished rows is enough. The listing of the
-- client takes its pages as fuel; one more than its limit is enough. All other loops go down a list.
--
-- Not modelled: the concurrency inside a transaction (the row lock and the advisory lock put those on one
-- order and on one inventory in a sequence), what passes of the snapshot service do between the steps of
-- each other, the set-up of the trading library and of the database, health checks, the wiring of
-- internal/app but for the snapshot service, the commands of the client that send one request, metrics,
-- logs and timers.
pub mod Base
pub mod Decimal
pub mod Errors
pub mod Domain
pub mod Postgres
pub mod Service
pub mod Api
pub mod Bus
pub mod Config
pub mod Ctl
pub mod Daemon
pub mod Exchange
pub mod Gct
pub mod Questdb
pub mod Examples
