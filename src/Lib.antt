-- ===== src/Lib.antt =====
-- LedgerCore: double-entry ledgers over HTTP, in Go, on PostgreSQL. The core is the ledger
-- service: its domain package checks and reverses sets of postings in exact minor units, its
-- store writes them, keeps the balances of the accounts, reserves funds by holds, and answers a
-- request that is repeated under its idempotency key with what it answered before. It publishes
-- an event for what it writes. The reconciliation service keeps a mirror of the posted
-- transactions from these events and matches the rows of external statements with it; the
-- webhooks service delivers the events to the endpoints of the subscribers. The identity service,
-- the console and the SDKs stand around them.
--
-- The parts and the files:
--   * Base: Boolean tests, signed integers over the native numbers, int64 words, texts as lists of
--     bytes, lists, results, insertion sort and stored instants, which the other modules share.
--   * Money (libs/go/money/money.go): Amount, New, ValidateAssetCode, Add, Sub, Neg, IsZero; Decimal
--     has FormatWithExponent and ParseUnits. Money/Arithmetic, Parsing, Printing, Points and
--     RoundTrip are its lemmas and theorems.
--   * Domain (services/ledger-core/internal/domain/domain.go): the entities; Postings has
--     ValidateBalanced, Reversal has Reverse, Nets has PostedNet, PendingNet, Available, SignRaw and
--     RunningBalance, Assets has AssetExponent. Sums, Balanced, Order and Mirror are about them.
--   * Store (services/ledger-core/internal/adapters/postgres/store.go, with app/errors.go,
--     app/events.go, libs/go/pgxutil/pgxutil.go and the migrations): the tables as a record and
--     database transactions as functions on it. Rows has the queries, the insertions and the
--     triggers; Balances the statements on account_balances; Transactions has CreateTransaction,
--     PostTransaction and ReverseTransaction; Holds has CreateHold, CaptureHold, ReleaseHold and
--     GetHold; Accounts has CreateLedger, CreateAccount, GetLedger, GetAccount, GetBalances and
--     GetTransaction. Balances/Effects, Columns, Statements and Apply, Sums, Statuses, Steps,
--     Invariant, Consistency, Replay, Race, DoubleEntry, Reserved, Reserving, Reservations, Ending,
--     Settlement and HoldEnds are about them.
--   * Service (services/ledger-core/internal/app/service.go): the checks of CreateTransaction, and in
--     Service/Holds those of ReverseTransaction, CreateHold, CaptureHold, CreateLedger and
--     CreateAccount, each followed by the call of the store.
--   * Store/Reports (the same store.go, and migration 0006_balance_verifier.sql): VerifyBalances;
--     ReportKeys, Verifier and VerifierSound are about it. Store/TrialBalance has TrialBalance, and its
--     children Totals, Grouped, Balanced, Current and Report are about it.
--   * Recon (services/reconciliation/internal/domain/model.go): the types. Matcher
--     (domain/matcher.go) has MatchNaive; Csv (domain/csv.go) has ParseStatementCSV; Tables
--     (adapters/postgres/store.go) has the statements; Runs (app/service.go) has CreateSource,
--     StartRun and UpdateDiscrepancy, Imports has ImportStatement; Feed
--     (adapters/natsconsumer/consumer.go) has the handler of posted transactions.
--     Matcher/Reference, Rounds, Equivalence, Verdicts and Backing, Survivors, Completion,
--     Judged, Missing, Rerun, Imported, Feed/Delivery and Feed/Posted are about them. Feed/Posted
--     joins the ledger service to the mirror: it starts from the event of Store/Transactions.
--   * Webhooks (services/webhooks/internal/domain/domain.go): filters, backoff, secrets and the
--     types. Tables (adapters/postgres/repo.go and migration
--     0004_maint_functions_drop_system_drain.sql) has the statements on deliveries; Dispatcher
--     (dispatcher/dispatcher.go) has process; Fanout (app/service.go and
--     adapters/natsconsumer/consumer.go) has EnqueueEnvelope and the handler of events;
--     Subscriptions has CreateSubscription, UpdateSubscription, RotateSecret and the sweep of old
--     secrets. Soundness, Lifecycle, Tries and Attempts are about the life of a delivery; Lifecycle has
--     the steps of the service, with any number of workers.
--
-- How the code is modelled. An int64 is an integer, and what Go's arithmetic does past its range
-- is written out by `wrap64`; a BIGINT column refuses what does not fit. Texts are lists of bytes,
-- and strings.ToUpper, ToLower and TrimSpace change and trim ASCII only. Identifiers and instants
-- are numbers, with 0 for the nil uuid. An instant counts nanoseconds, as Go's clock does, and the
-- statements store it as a TIMESTAMPTZ column keeps it: cut to the microsecond (`to_micros`,
-- Base/Instants), in the tables of all three services. The instants of events and of the stored
-- responses are JSON, and an instant of the database's own clock is whatever that clock gives;
-- neither is cut. A Go map is an association list. An error is a value: its class, without its
-- message. Row-level security shows a method the rows of one tenant, so a state of the ledger and
-- of the reconciliation service is the rows of one tenant; the tables of the webhooks service hold
-- those of every tenant. A database transaction that fails leaves the tables as they were; the
-- checks of the deferred triggers stand at its end. A statement fails on the values that its
-- columns, keys and triggers refuse; an outage of the database, which fails any statement, is not
-- modelled. What other database transactions commit between the lookup of an idempotency key and
-- the writes is the argument `others` of CreateTransaction, ReverseTransaction and CreateHold;
-- nothing else commits inside the writes of a method. Arguments stand for code outside the
-- repository and for the world: SHA-256 of the JSON of a request, new and derived uuids, the
-- clock, the messages of a finding, the records that csv.Reader returns, time.Parse, url.Parse,
-- the secret that is drawn, what the POST of a delivery brings, and the rows that another worker
-- has locked. ParseUnits and the printing of numbers run on the length of their text; `decimal`
-- has one unit of fuel more than the number it prints, which is never used up.
--
-- Not modelled: the methods that return pages, statements and summaries, the
-- methods of the application services that only pass their arguments on, HTTP, the publishing of
-- the outboxes, the encryption of webhook secrets at rest, the sending of a delivery and its
-- address guard, the identity service, and the shared libraries for messaging, tokens and logs.
pub mod Base
pub mod Money
pub mod Domain
pub mod Store
pub mod Service
pub mod Recon
pub mod Webhooks
