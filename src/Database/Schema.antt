-- ===== src/Database/Schema.antt =====
-- The row types of db/schema.ts. An id is a number, a date is a number of which only the order
-- is used, an amount is in minor units. Generated ids that nothing reads (of journal lines and
-- audit rows) are left out, and so are the creation
-- times of all rows but those that a trigger compares. A stored message is the reason that it
-- is made from.
use noryx_platform.Common.{ℕ, Bool, Option, List}
use noryx_platform.Common.Decimal.{Text}

pub data EntryStatus : Type 0 where
  draft posted : EntryStatus

pub data PeriodStatus : Type 0 where
  open_period closed : PeriodStatus

pub data TaxDirection : Type 0 where
  input output : TaxDirection

pub record LegalEntity : Type 0 where
  pub id : ℕ
  pub tenant_id : ℕ
  pub currency_code : Text

pub data AccountType : Type 0 where
  asset liability equity revenue expense : AccountType

pub record Account : Type 0 where
  pub id : ℕ
  pub tenant_id : ℕ
  pub legal_entity_id : ℕ
  pub code : Text
  pub name : Text
  pub account_type : AccountType
  pub is_active : Bool

pub record TaxCode : Type 0 where
  pub id : ℕ
  pub tenant_id : ℕ
  pub legal_entity_id : ℕ
  pub is_active : Bool

pub record AccountingPeriod : Type 0 where
  pub id : ℕ
  pub tenant_id : ℕ
  pub legal_entity_id : ℕ
  pub code : Text
  pub start_date : ℕ
  pub end_date : ℕ
  pub status : PeriodStatus
  pub closed_at : Option ℕ
  pub closed_by : Option ℕ
  pub created_at : ℕ
  pub updated_at : ℕ

pub record JournalNumberCounter : Type 0 where
  pub tenant_id : ℕ
  pub legal_entity_id : ℕ
  pub last_assigned_number : ℕ

pub record JournalEntry : Type 0 where
  pub id : ℕ
  pub tenant_id : ℕ
  pub legal_entity_id : ℕ
  pub journal_number : Option Text
  pub status : EntryStatus
  pub transaction_date : ℕ
  pub period_id : Option ℕ
  pub currency_code : Text
  pub memo : Option Text
  pub reversal_of_journal_entry_id : Option ℕ
  pub reversed_by_journal_entry_id : Option ℕ
  pub created_by : Option ℕ
  pub posted_by : Option ℕ
  pub posted_at : Option ℕ
  pub created_at : ℕ
  pub updated_at : ℕ

pub record JournalLine : Type 0 where
  pub tenant_id : ℕ
  pub journal_entry_id : ℕ
  pub line_number : ℕ
  pub account_id : ℕ
  pub debit_minor : ℕ
  pub credit_minor : ℕ
  pub description : Option Text
  pub tax_code_id : Option ℕ
  pub tax_direction : Option TaxDirection

-- `JournalEntryWithLines`
pub record EntryWithLines : Type 0 where
  pub entry : JournalEntry
  pub lines : List JournalLine

-- Why a service refuses, with the values that its message shows.
pub data Reason : Type 0 where
  no_such_row no_legal_entity already_posted cannot_edit_posted cannot_delete_posted : Reason
  too_few_lines not_posted already_reversed is_a_reversal : Reason
  unbalanced : ℕ → ℕ → Reason
  inactive_accounts inactive_tax_codes : List ℕ → Reason
  no_period : ℕ → Reason
  period_closed : Text → ℕ → Reason
  period_overlaps : Text → Reason
  period_conflicts : Reason
  period_already_closed : Text → Reason
  same_accounts : Reason
  sum_mismatch : ℕ → ℕ → Reason
  duplicate_target_date : ℕ → Reason
  schedule_not_active : Reason
  negative_paid : Reason
  constraint_violated no_values : Reason
  unreconciled : ℕ → ℕ → Reason
  already_scheduled schedule_not_scheduled : Reason
  no_supplier no_asset_account no_ap_settings payment_not_posted : Reason
  payment_without_entry payment_reversed duplicate_bill : Reason
  foreign_bills : List ℕ → Reason
  bill_missing bill_not_posted bill_of_other_supplier : ℕ → Reason
  exceeds_outstanding : ℕ → ℕ → Reason
  exceeds_payment : ℕ → ℕ → Reason
  allocation_in_future allocation_before_payment : ℕ → ℕ → Reason

pub data DeferralType : Type 0 where
  expense_recognition revenue_recognition : DeferralType

pub data ScheduleStatus : Type 0 where
  active completed cancelled : ScheduleStatus

pub data RecognitionStatus : Type 0 where
  scheduled executed failed cancelled : RecognitionStatus

pub record DeferralSchedule : Type 0 where
  pub id : ℕ
  pub tenant_id : ℕ
  pub legal_entity_id : ℕ
  pub memo : Text
  pub currency_code : Text
  pub total_amount_minor : ℕ
  pub deferral_type : DeferralType
  pub deferred_account_id : ℕ
  pub recognition_account_id : ℕ
  pub status : ScheduleStatus
  pub created_by : Option ℕ
  pub updated_at : ℕ
  pub cancelled_at : Option ℕ
  pub cancelled_by : Option ℕ
  pub cancellation_reason : Option Text

pub record DeferralRecognition : Type 0 where
  pub id : ℕ
  pub schedule_id : ℕ
  pub tenant_id : ℕ
  pub legal_entity_id : ℕ
  pub sequence_number : ℕ
  pub target_date : ℕ
  pub amount_minor : ℕ
  pub status : RecognitionStatus
  pub resulting_journal_entry_id : Option ℕ
  pub failure_reason : Option Reason
  pub executed_at : Option ℕ
  pub executed_by : Option ℕ
  pub updated_at : ℕ

pub data ScheduledReversalStatus : Type 0 where
  scheduled executed failed cancelled : ScheduledReversalStatus

pub record ScheduledReversal : Type 0 where
  pub id : ℕ
  pub tenant_id : ℕ
  pub legal_entity_id : ℕ
  pub original_journal_entry_id : ℕ
  pub target_date : ℕ
  pub status : ScheduledReversalStatus
  pub resulting_reversal_journal_entry_id : Option ℕ
  pub failure_reason : Option Reason
  pub executed_at : Option ℕ
  pub executed_by : Option ℕ
  pub created_by : Option ℕ
  pub updated_at : ℕ
