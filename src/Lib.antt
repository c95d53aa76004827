-- ===== src/Lib.antt =====
-- NovaPay's money core, from nova-pay/src: accounts, the double-entry ledger, payments, loans,
-- international transfers, payroll, fraud decisions and the transactional outbox, with the decimal
-- texts that they exchange.
--
-- How the parts interact. A payment takes a slot by idempotency key, passes the account checks and
-- the fraud decision, and posts two lines to the ledger. The ledger checks and writes a header, its
-- lines, the projected balances of the accounts and one outbox row. All of it is one database
-- transaction; the relay publishes the outbox rows later. A loan is paid out and paid back by such a
-- payment inside the loan's own transaction; an international transfer consumes a rate lock and posts
-- four lines to the ledger directly. A payroll batch is funded by a posting from the employer to a
-- clearing account, then paid out item by item, each in a transaction of its own that marks the item
-- and posts to the employee. The fraud decision is made of five rules and committed apart.
--
-- Files and code.
--   Common: results and exceptions, state with exceptions (`Action`; `transaction` rolls back),
--     integers for `bigint`, texts as lists of character codes, maps, and the interface of a table.
--   Decimal: the parsers and printers of four-place amounts of
--     modules/ledger/service/posting.service.ts, modules/accounts/service/accounts.service.ts,
--     modules/loans/utils/loan-money.util.ts and modules/payroll/service/payroll-validation.service.ts.
--     Each regular expression is a matcher in Decimal.Pattern.
--   Accounts: modules/accounts. Service has createAccount, updateAccountStatus and the reads;
--     applyLedgerPostingProjections is Ledger.Projection.
--   Outbox: infrastructure/outbox. Enqueue has enqueueInTransaction; Relay has the claims and marks
--     of outbox.repository.ts and relayPendingBatch of outbox-processor.service.ts. Evolution and
--     Batch have the step relation of the statuses.
--   Ledger: modules/ledger. Lines and Projection have the sums over lines; Posting has post and
--     postWithSharedManager; Reversal has reversal.service.ts. Balance, Netting, Projected and
--     Conservation lead from the balance check to the accounts; Outcome, Atomicity, Replay and
--     Mirror are about whole postings.
--   Payments: modules/payments. Slot has resolveIdempotencySlot, Requests and Orchestrator the rest
--     of payment-orchestrator.service.ts; Gate, Taken, Replay and Money are about whole submissions.
--   Loans: modules/loans. Apply, Disburse and Repay have loan-orchestration.service.ts, Overdue has
--     loan-overdue.service.ts. Lifecycle has the steps of a loan's status, Evolution, Runs,
--     Once, Accounting and Money are about whole operations.
--   Fraud: modules/fraud. Rules and Velocity have the rules of fraud-rule-engine.service.ts, Engine
--     its evaluateAll and side effects; Aggregate and Service have fraud.service.ts,
--     fraud-rule-log.service.ts and the write of risk-decision.repository.ts. Decision is about the
--     aggregation, Evaluation, FailClosed and Records about whole evaluations and resolutions.
--   Fx: modules/fx. Locks has fx.service.ts and fx-provider.service.ts, Sweep has
--     fx-lock-expiry-sweep.service.ts, Transfer has international-transfer-orchestrator.service.ts.
--     Settlement, Lifecycle and Expiry are about whole operations, Runs about sequences of them.
--   Payroll: modules/payroll. Validation has payroll-validation.service.ts; Create, Funding and
--     Payouts have payroll-orchestrator.service.ts with the writes of payroll.service.ts, Finish its
--     finalization. Ready, Items, Ended, PayoutMoney, FundingMoney, Completion and Money
--     are about whole operations.
--   Tests: concrete tables, runs and applications of the theorems.
--
-- State and operations. Names are the source's in snake case. A handler takes the rows it reads and
-- writes and returns its result with the rows after it, also when it throws, so that a caller who
-- catches the exception goes on from there. Identifiers are numbers, since the code only compares
-- and sorts them. The database is not in the repository: tables are parameters with the documented
-- behaviour of a key (`Table`, `TransactionTable`, `RecordTable`, `PaymentTable`, `AccountStore`), and
-- an insert may store, meet a unique violation or fail otherwise. The hash of a command (with the
-- sorting of its keys by canonicalizeForFingerprint), the text of an identifier, the fraud
-- evaluation on the payment path, the commands of Redis, `parseFloat` and the product of two numbers
-- with `toFixed`, the JSON text of a memo, the configured settlement and clearing accounts, the
-- broker and the row locks of other workers are parameters too.
--
-- Bounds and fuel. `bigint` has no bound, so the sums have none. The only fuel is in
-- Common.Text.to_string, which is given one more than the number: a number has no more digits than
-- that. The retries of the relay are its own bound.
--
-- Amounts in columns. A column of type numeric(19,4) gives an amount back with four places: '12.5'
-- is read as '12.5000'. New loans and decisions, repayments and saved payments are found with such a
-- `column` spelling of what was given; that the spelling is of the same number is a law of `LoanTable`
-- and `PaymentTable`. The other tables are modelled to keep the text that was saved.
--
-- Not modelled: failures of queries other than inserts of headers, records, payments and payroll
-- rows; the bound of the numeric(19,4) columns; locks and interleavings inside one transaction; the
-- aborted state of a PostgreSQL transaction after a failed insert; the variable part of messages;
-- logs. The clock is an argument, read once by each operation. The rules of the fraud engine run in
-- one order, since none reads what another writes. The reports, lists and runs of payroll, users,
-- authentication, controllers, timers and infrastructure are not part of this development.

pub mod Common
pub mod Decimal
pub mod Accounts
pub mod Outbox
pub mod Ledger
pub mod Payments
pub mod Loans
pub mod Fraud
pub mod Fx
pub mod Payroll
mod Tests
