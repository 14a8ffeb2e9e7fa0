-- ===== src/Lib.antt =====
-- The accounting core of the finance service, services/sphere-finance: the journal, the
-- accounting periods, the deferral recognition engine, the scheduled reversals, the supplier
-- payments and the trial balance, as functions on one database.
--
-- The program's parts and the files that model them:
--
-- * Database, from services/sphere-finance/src/db/schema.ts and packages/db-core/src. `Schema`
--   has a record for each table that the services below use and a data type for each enum,
--   `Payables` those of the suppliers, their bills and payments, `Store` the database, the caller
--   and what the platform supplies, and `Tx` a transaction: state and exceptions, where what
--   throws leaves no state behind. `with_tenant` is withTenantScoped() of
--   packages/db-core/src/generic-client.ts.
-- * Journal, from services/sphere-finance/src/journal-entries. JournalEntriesService: the checks
--   on lines (`Lines`, `Validity`), the lookups and the numbering (`Lookup`), create(), update()
--   and remove() (`Drafts`), post() and postSystemGeneratedEntry() (`Posting`), reverseInTx()
--   with the two steps that it shares with other services (`Reversal`), and list() and findOne()
--   (`Queries`).
-- * Books proves what the journal keeps. `Shape` and `Entries` say what each operation reads and
--   writes; `Ledger`, `Statements`, `Removal`, `DoubleEntry` and `Reversing` carry double entry;
--   `Counter`, `Numbers`, `Numbering` and `Register` the numbering; `Permanence` and `History`
--   immutability; `Netting`, `Final`, `Linked`, `Appended`, `Success` and `Outcomes` the
--   reversal and the posting.
-- * Periods, from services/sphere-finance/src/accounting-periods. AccountingPeriodsService, with
--   the two database constraints whose errors its create() catches and the one that it does not.
--   `Calendar` and `Refusals` have the proofs; the latter go on to post() and reverseInTx() of
--   the journal.
-- * Deferral, from services/sphere-finance/src/deferral-recognition. `Schedules` has create(),
--   cancel() and findOne(), `Engine` claimAndExecuteOne(), `Processing` processDue(), `Queries`
--   the other reads; `Plan`, `Cancelling`, `Claims`, `Execution`, `Success`, `DrillDown` and
--   `Batch` have the proofs. The engine posts through the journal's
--   postSystemGeneratedEntry() and asks it for the period of a date.
-- * ScheduledReversals, from services/sphere-finance/src/scheduled-reversals. `Schedules` has
--   create(), cancel() and the reads, `Engine` claimAndExecuteOne() and `Processing`
--   processDue(); `Transitions`, `Table`, `Claims`, `Outcomes` and `Batch` have the proofs. The
--   engine locks the original and completes the reversal by the two steps of the journal's
--   `Reversal`, so that a manual reversal and a scheduled one meet on the same row.
-- * Settlement, from services/sphere-finance/src/common/reversal/reversal.util.ts: unsettling the
--   target of an allocation, for any table with the columns of a target (`Settleable`), with the
--   settlement that it undoes, the period of a document's reversal, and the information that a
--   document shows of it.
-- * SupplierPayments, from services/sphere-finance/src/accounts-payable/supplier-payments.
--   SupplierPaymentsService: `Lookup` has its private lookups and checks, `Drafts` create(),
--   update() and remove(), `Bills` the checks, the settlement and the unsettlement of the bills,
--   `Posting` post(), `Allocation` applyAllocation(), `Reversal` reverse(). `Loads`, `Booking`
--   and `Frames` say what the steps read and write, `Balances`, `Payables` and `Keeping` carry
--   the amounts paid of the bills, `Applied` the amount applied of a payment, `Ready`,
--   `Completion` and `Paid` its posting, `Unwinding` the reversal. A payment posts to the journal's
--   tables and reverses by its `Reversal`; a bill is settled by `Settlement`.
-- * GeneralLedger, from services/sphere-finance/src/general-ledger. GeneralLedgerService: `Lines`
--   has the join of the posted lines that its reports read, `TrialBalance` getTrialBalance(), one
--   SQL query and a loop over its rows, and `Balance` getBalance(); `Joins`, `Posted`, `Spans`,
--   `Reconcile` and `Closing` have the proofs, which rest on the double entry of Books.
-- * Service puts the parts that change state together: a request names an operation
--   (`Requests`), `serve` runs it in a transaction of its own, and `serve_all` runs a list of
--   them. `Step` has what a request keeps, `Journals`, `Reversals` and `Payments` show that the
--   operations keep it.
-- * Common has what all share: tests, sums, keys and orders of rows, the statements on one table,
--   integers, decimal text.
-- * Examples has one set of books, and every result at work on it.
--
-- How the code is read:
--
-- * An id is a number. A new id is one that the table does not have (`Platform.new_id`): what
--   defaultRandom() under a primary key supplies. The clock is a parameter too.
-- * A date is a number of which only the order counts: ISO dates sort as their days do.
-- * An amount is a number of minor units without an upper bound: the numbers of JavaScript are
--   exact for integers up to 2^53, which sums of amounts are taken not to reach. Balances
--   and differences of amounts that may be negative are integers (`Common.Int`). Subtraction on ℕ
--   stands in unsettleTarget(), after its test that the amount is not too large, in the columns of
--   the trial balance, which are cut off at zero, and in a message on an outstanding amount.
-- * A query without ORDER BY reads rows in the order of insertion. A row lock has no effect in a
--   model in which transactions run one after the other, which is what the locks are for; the
--   order in which bills are locked is left out with it.
-- * The payments service has a private copy of the journal's allocateJournalNumber(), with the
--   same text. It is read as the journal's.
-- * Ids of journal lines and of audit rows, and creation times that nothing compares, are left
--   out. A message is the reason with the values that it shows.
-- * `decimal` counts its rounds with the number itself, which is enough since each divides by ten.
-- * The order that the database has on the codes of accounts (its collation) is a parameter of
--   the trial balance. Its inner join reads the unique ids of entries.
-- * The CHECK constraints and the references to accounts and tax codes of journal_lines, and the
--   CHECK of accounting_periods that a period ends after it starts, make the insert throw
--   (`internal`), and so does `values([])`, which Drizzle refuses, where the code gives it the
--   rows of a request unguarded. Two lines of an entry never share a number, since the inserts
--   number them.
--
-- Not modelled: the SQL triggers and row-level-security policies (the invariants state what the
-- triggers check), the constraints of the other tables whose errors the code does not catch, routes
-- and roles, and the services for bills, debit notes and receivables, banking, budgets, reports
-- and taxes. A bill is a row that the payments read and settle. In the deferral service, its
-- list() is left out, and in the general ledger getLedger().
pub mod Common
pub mod Database
pub mod Journal
pub mod Books
pub mod Periods
pub mod GeneralLedger
pub mod Deferral
pub mod ScheduledReversals
pub mod Settlement
pub mod SupplierPayments
pub mod Service
pub mod Examples
