-- ===== src/Database/Store.antt =====
-- The database that the services share, its audit trail, and what the platform supplies.
use noryx_platform.Common.{ℕ, ◌≡◌, false, Option, List, contains}
use noryx_platform.Common.Int.{ℤ}
use noryx_platform.Database.Payables.{
  Supplier, ApSettings, SupplierBill, SupplierPayment, SupplierPaymentAllocation,
  PaymentWithAllocations,
}
use noryx_platform.Database.Schema.{
  Reason, LegalEntity, Account, TaxCode, AccountingPeriod, JournalNumberCounter, JournalEntry,
  JournalLine, EntryWithLines, DeferralSchedule, DeferralRecognition, ScheduledReversal,
}
use noryx_platform.Common.Decimal.{Text}

pub data AuditAction : Type 0 where
  create update delete post reverse close execute fail complete cancel : AuditAction

pub data EntityType : Type 0 where
  journal_entry accounting_period deferral_schedule deferral_recognition scheduled_reversal :
      EntityType
  supplier_payment supplier_bill : EntityType

-- `DeferralScheduleWithRecognitions`; the balance is a difference.
pub record ScheduleWithRecognitions : Type 0 where
  pub schedule : DeferralSchedule
  pub recognitions : List DeferralRecognition
  pub remaining_balance_minor : ℤ

-- The JSON snapshots of `beforeState` and `afterState`.
pub data Snapshot : Type 0 where
  entry_with_lines : EntryWithLines → Snapshot
  entry_row : JournalEntry → Snapshot
  period_row : AccountingPeriod → Snapshot
  schedule_row : DeferralSchedule → Snapshot
  schedule_full : ScheduleWithRecognitions → Snapshot
  recognition_row : DeferralRecognition → Snapshot
  reversal_row : ScheduledReversal → Snapshot
  payment_full : PaymentWithAllocations → Snapshot
  bill_row : SupplierBill → Snapshot
  -- The row, and the reason of its cancellation.
  reversal_cancelled : Option ScheduledReversal → Option Text → Snapshot

pub record AuditLog : Type 0 where
  pub tenant_id : ℕ
  pub legal_entity_id : ℕ
  pub actor_user_id : Option ℕ
  pub action : AuditAction
  pub entity_type : EntityType
  pub entity_id : ℕ
  pub before_state : Option Snapshot
  pub after_state : Option Snapshot

pub record Db : Type 0 where
  pub legal_entities : List LegalEntity
  pub chart_of_accounts : List Account
  pub tax_codes : List TaxCode
  pub accounting_periods : List AccountingPeriod
  pub journal_number_counters : List JournalNumberCounter
  pub journal_entries : List JournalEntry
  pub journal_lines : List JournalLine
  pub deferral_schedules : List DeferralSchedule
  pub deferral_recognitions : List DeferralRecognition
  pub scheduled_reversals : List ScheduledReversal
  pub suppliers : List Supplier
  pub ap_settings : List ApSettings
  pub supplier_bills : List SupplierBill
  pub supplier_payments : List SupplierPayment
  pub supplier_payment_allocations : List SupplierPaymentAllocation
  -- The same columns as those of the journal's counters.
  pub ap_payment_number_counters : List JournalNumberCounter
  pub audit_logs : List AuditLog

-- The caller's identity, which every method takes as its first three arguments.
pub record Caller : Type 0 where
  pub tenant_id : ℕ
  pub legal_entity_id : ℕ
  pub actor_user_id : Option ℕ

-- What PostgreSQL and the clock supply: an id that no row of the table has (`defaultRandom`
-- under a primary key), the time, and the day of the time.
pub record Platform : Type 0 where
  pub new_id : List ℕ → ℕ
  pub new_id_fresh : (ids : List ℕ) → contains (new_id ids) ids ≡ false
  pub now : ℕ
  pub today : ℕ

-- What a service throws: the HTTP exception class and the reason.
pub data Failure : Type 0 where
  bad_request not_found conflict unprocessable : Reason → Failure
  -- A non-HTTP error: a 500.
  internal : Reason → Failure
