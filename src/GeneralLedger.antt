-- ===== src/GeneralLedger.antt =====
-- services/sphere-finance/src/general-ledger/general-ledger.service.ts: the class
-- GeneralLedgerService, which reads the posted lines. `Lines` has the joined lines and their
-- totals, `TrialBalance` getTrialBalance() and `Balance` getBalance(); the others have the proofs.
pub mod Lines
pub mod TrialBalance
pub mod Balance
pub mod Joins
pub mod Posted
pub mod Spans
pub mod Closing
pub mod Reconcile
