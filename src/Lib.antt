-- ===== src/Lib.antt =====
-- A verification library for the ZOUSEEKING backend (backend/app): the parts that meter
-- usage, take the payment provider's events, queue reports, run the service-task marketplace, feed the
-- collection of market data, limit rates and resolve a plan's entitlements.
--
-- Usage (backend/app/usage). `class Ledger` of ledger.py is the offline model of the usage contract:
-- per scope, usage kind and period at UTC+8 it counts consumed and reserved units under a limit, and
-- answers a repeated request from its event log. Usage/Errors has its exceptions, Usage/Period
-- `period_bounds`, and Usage/Ledger the class: Data (keys and fingerprints), State (rows, the four
-- dicts, a call as a function from the ledger to a result and the ledger after it), Steps (the checks
-- and steps of a call), Calls (`consume`, `reserve`, `commit`, `release`, `summary`). The proofs are
-- beside them: Invariant, Updates, Outcomes, Endings, History (sequences of calls), Effects and
-- Accounting (what an answer has changed), Replay, Settlement, Kept and Once, Pinning.
--
-- Usage/Postgres is the same contract over tables, `class PostgresLedger` of db_ledger.py. Bucket has
-- the stored period key with `_period_bucket` and `_bucket_bounds`, Data the rows of usage_quotas,
-- usage_events and usage_idempotency, Steps the statements of a transaction and the replay answers,
-- Calls the public methods. The advisory lock and the row locks make a transaction one step, so
-- History is a list of calls. Meter is what the ledger promises apart from its tables: counters, the
-- standing of each reservation, and the steps. Invariant, Recording and Living have the invariant and
-- its keeping, Locking and Viewing what a part of a transaction finds and leaves, Charging and
-- Transitions the operations, Progress that a live reservation can be ended, RoundTrip the period key.
-- A fingerprint is compared by its components, which its JSON text determines; a period key is its
-- numbers. Identifiers that the tables generate are arguments.
--
-- Reports (backend/app/report_worker.py, backend/app/main.py). The durable queue of report jobs and
-- its worker. Reports/Data has the rows of report_generation_outbox, generation_jobs and queries,
-- Reports/Queue the SQL statements as functions on those tables (`claim_next`, `complete_claim`,
-- `record_failure`, `enqueue_report_outbox`), and Reports/Worker one pass (`process_once`) and the
-- requeue branch of `create_or_get_query_job`. Reports/History has sequences of statements, Attempts
-- counts a row's claims, Taking says which row a claim takes, Fencing who may end a claim, Failing how
-- a failure is recorded, Passing how a pass ends. Base/Table is a table as the list of its rows; `now()`, a drawn token and the rows that
-- other transactions have locked are arguments. The acceptance of a payload by `QueryRequest` and how
-- `run_generation_job` ends (it returns, raises or is cancelled), with the tables after it, are arguments of
-- the pass.
--
-- Tasks (backend/app/service_tasks.py). The service-task workflow over its tables. Tasks/Data has the
-- rows, Tasks/Flow the transition table, the organization checks and `apply`, `withdraw` and
-- `complete`, Tasks/Admin `admin_create` and `admin_status`, Tasks/Contact the consents and
-- `confirm_completion`. Base/Txn is a transaction: one that raises leaves the tables as they were. A
-- constraint of supabase/migrations that a write violates raises as well. The proofs: Invariant,
-- Updates and Matching (each kind of write), Lawful (the table TRANSITIONS), Keeping, Governing and
-- Granting (the operations), History (sequences of calls), Completion and Bypass.
--
-- Collection (backend/app/collection). The feeder and the worker of the queue collection_runs.
-- Collection/Runs has the rows and what is read of them, Collection/Scheduler the decisions (`decide`,
-- `decide_all`) and the feed (`fetch_state`, `feed_due`, `run_feed`), Feeding what a feed leaves, and
-- Single that it never feeds a source twice. The decisions take the clock that `_coerce_now` answers.
-- Collection/Worker has the worker's claim (`claim_next`) and how `run_once` records the end of a run,
-- on the columns that it reads and writes; Recording proves when it is recorded.
--
-- RateLimit (backend/app/rate_limit.py). RateLimit/Window has the hourly counters and
-- `consume_shared_rate_limit`, Cap how many requests it admits.
--
-- Entitlements (backend/app/billing/entitlements.py). Entitlements/Limits has the vocabulary and
-- `entitlement_limit`, Normal `normalize_entitlements`. Reference is the limit written from the product's
-- table and the columns of pricing_plans alone, and Agreement compares the two. A metric or a period that
-- the code refuses by ValueError has no value of the types.
--
-- Billing (backend/app/billing). What the provider's webhooks do to the tables of store.py, with the
-- part of service.py that calls it. Billing/Events is the ledger of events (`claim_provider_event`,
-- `process_provider_event`, `mark_provider_event_failed`), Webhook `handle_webhook`, `RetryPolicy` and
-- the plan of an event. Deliveries has the workers and their steps in any order: deliveries, ends,
-- failures and deaths. A transaction is one step, but the claim of a failed event is two, what it reads and
-- its update, as it takes no row lock. The changes that an event makes to other tables are an argument
-- there, and a processing may fail at any time. Exclusive is about an event that has not failed, Marks and
-- Endings about how a row ends, Once about any history, and Overlap about two claims of a failed event.
--
-- Billing/Orders and Refunds are the refund requests, their approval and the refund events; what the
-- provider answers is an argument. Again is about a request that is repeated, Racing about an approval
-- and an event of the same refund. Charges has the rows of payment_orders with what an upsert sets,
-- Grants those of subscriptions and `_sync_membership_entitlement`, Mirror the subscription events,
-- Cancel `request_cancel`, Checkout `_on_checkout_completed` and `_on_invoice_paid`. History is a list
-- of these events; Settling, Frozen and Charged have what each keeps, Regrant what an invoice of a
-- canceled subscription does. A processed event's summary for the audit row, the monthly quotas of a
-- grant, the rows of billing_customers and the reading of texts and numbers from an event's JSON are
-- left out, as are the creation of checkouts and portal sessions and the views of the status.
--
-- Modelling. An exception is a value of the result, and what was written before it stays written. A
-- UUID is a number, as it is only compared; `uuid4()` is an argument of the call. A dict is an
-- association list; an object that the code changes through a reference is written back under its
-- key. The lock of the ledger makes a call one step, so a history is a list of calls. The counters
-- are naturals: that the code's subtraction of reserved units never passes zero is proved with the
-- effects. An instant is wall-clock seconds since year 1 with an offset, and Base/Calendar computes
-- months as `datetime.date` does; its child Months has the lengths of the months. Every recursion is structural; there is no fuel.
--
-- Not modelled: HTTP routes, SQL text and the database driver, file access, rendering, and scripts.
pub mod Base
pub mod Billing
pub mod Collection
pub mod Entitlements
pub mod RateLimit
pub mod Reports
pub mod Tasks
pub mod Usage
