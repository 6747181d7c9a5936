-- ===== src/Lib.antt =====
-- A model of the wallet ledger: a double-entry ledger behind an HTTP service, with transfers in one
-- and two phases, deposits through payment providers, transfers between currencies, and reversals.
--
-- Base holds tests, integers, lists and text. Domain models wallet_ledger/domain: errors and
-- states, `Money` as a whole number of 10 ^ -8 rounded half-even to the decimals of its currency,
-- the aggregates with the double-entry check, and the event bus. Store models wallet_ledger/models:
-- the tables as lists of rows, as one database session sees them. Ledger models
-- wallet_ledger/application/ledger.py: posting, balances from snapshots and deltas, and snapshots;
-- its children hold the invariant `IsValid`, which is that every snapshot is sound and that the
-- settled rows of each currency sum to zero. Accounts, Risk, Transfers, Deposits, Reversals, Fx and
-- Notifications model the services of the same names in wallet_ledger/application (fx with
-- wallet_ledger/infrastructure/fx_rates.py), Balances the cache and its reads
-- (wallet_ledger/infrastructure/cache.py, wallet_ledger/application/balance_query.py), Payments the
-- adapters in wallet_ledger/infrastructure/payments, Idempotency
-- wallet_ledger/infrastructure/idempotency.py, HttpErrors the status table of
-- wallet_ledger/api/errors.py, and Seeds wallet_ledger/seeds.py.
--
-- Wire holds JSON values and the text of decimals. Webhooks models wallet_ledger/api/webhooks.py
-- over Payments and Deposits. Api models the rest of wallet_ledger/api: the schemas, the
-- serialisers, the views over the services, the handlers of errors, and the subscriptions to events
-- that wallet_ledger/__init__.py makes. History is about whole runs: a step is one committed
-- operation of a service, and `Reach` and `Careful` are sequences of steps. Bank is an abstract
-- bank, of which every account has holdings and reservations alone, and whose steps are deeds;
-- Orders reads from each request, and the rows that it names, the deed that it orders; Refining
-- takes a history to a run. Ages is the order in which the table of transactions may change: rows
-- are added under new identifiers, and a status goes from PENDING forward or from SUCCESS to
-- REVERSED; ServiceAges has the deposits and exchanges, Aging the rest, and Closing what stays
-- refused. Tests runs all of this on a small ledger.
--
-- A service is a function of the state that returns what it commits, or an error, which leaves the
-- state as it was: its session is rolled back. A row lock shows nothing to its own session, so a
-- lock reads like a lookup; where an interleaving matters, the read and the write of an operation
-- are separate functions. Events are published after the commit, so an operation returns its event.
-- Identifiers are numbers from a counter, which stands for the freshness of uuid4, and sequence
-- numbers are those of the identity column. Random account numbers, the snapshot threshold
-- SNAPSHOT_EVERY_N_ENTRIES, the answers of the rate service and of payment providers, the JSON
-- parser, the validation library marshmallow, the cast by which the database driver makes a text of
-- a reference that is neither text nor null, and the digests HMAC-SHA256 and SHA-256 are
-- parameters. Loops run over lists, but for the digits of a number, which take fuel: one more than
-- the number, which Wire.Reading shows to be enough, as each step divides the number by ten.
--
-- Not modelled: the 28-digit limit of decimals and the range of the NUMERIC(28, 8) columns, time
-- stamps and the paged list of transactions that they order, the version column of accounts,
-- message texts, routing, health checks, documentation, logging, tracing, settings and migrations.
pub mod Base
pub mod Domain
pub mod Wire
pub mod Store
pub mod Ledger
pub mod Accounts
pub mod Risk
pub mod Transfers
pub mod Payments
pub mod Deposits
pub mod Webhooks
pub mod Reversals
pub mod Fx
pub mod History
pub mod Idempotency
pub mod Balances
pub mod Notifications
pub mod HttpErrors
pub mod Seeds
pub mod Api
pub mod Tests
