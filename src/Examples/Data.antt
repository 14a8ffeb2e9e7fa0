-- ===== src/Examples/Data.antt =====
-- Books with a draft entry, a posted entry, an open period and a deferral schedule.
use noryx_platform.Common.{
  inl, inr, ℕ, ◌≡◌, ◌≤◌, refl, true, false, none, some, List, [], ◌∷◌, ◌+◌, contains,
}
use noryx_platform.Journal.{journal_number_text}
use noryx_platform.Common.Decimal.{pad_start, decimal, codes}
use native.Mathlib.Omega.{arith}
use noryx_platform.Database.{
  Db, Caller, Platform, Account, AccountingPeriod, JournalEntry, JournalLine, DeferralSchedule,
  DeferralRecognition, asset, SupplierBill, PaymentStatus, PaymentMethod, SupplierPayment,
  SupplierPaymentAllocation, draft_document, posted_document, ScheduledReversal,
  ScheduledReversalStatus, open_period, draft, posted, ScheduleStatus, RecognitionStatus,
  expense_recognition,
}
use noryx_platform.Service.Step.{IsBooks}

-- A new id is above all that are in use.
abbrev total : List ℕ → ℕ
total [] = 0
total (a ∷ ids) = a + total ids

pub above_total : (a : ℕ) (ids : List ℕ) → total ids + 1 ≤ a → contains a ids ≡ false
above_total a [] h = refl
above_total a (x ∷ ids) h = ground (arith, above_total a ids)

abbrev pub desk : Platform
desk = record {
  new_id = λ ids. total ids + 1;
  new_id_fresh = λ ids. above_total (total ids + 1) ids (omega arith);
  now = 1000;
  today = 150;
}

abbrev pub clerk : Caller
clerk = record { tenant_id = 1; legal_entity_id = 1; actor_user_id = some 7 }

abbrev pub line : ℕ → ℕ → ℕ → ℕ → ℕ → JournalLine
line entry number account debit credit = record {
  tenant_id = 1;
  journal_entry_id = entry;
  line_number = number;
  account_id = account;
  debit_minor = debit;
  credit_minor = credit;
  description = none;
  tax_code_id = none;
  tax_direction = none;
}

abbrev pub draft_entry : JournalEntry
draft_entry = record {
  id = 1;
  tenant_id = 1;
  legal_entity_id = 1;
  journal_number = none;
  status = draft;
  transaction_date = 150;
  period_id = none;
  currency_code = codes "USD";
  memo = none;
  reversal_of_journal_entry_id = none;
  reversed_by_journal_entry_id = none;
  created_by = some 7;
  posted_by = none;
  posted_at = none;
  created_at = 900;
  updated_at = 900;
}

abbrev pub posted_entry : JournalEntry
posted_entry = record draft_entry {
  id = 2;
  journal_number = some (codes "JE-000001");
  status = posted;
  period_id = some 1;
  posted_by = some 7;
  posted_at = some 950;
}

abbrev pub january : AccountingPeriod
january = record {
  id = 1;
  tenant_id = 1;
  legal_entity_id = 1;
  code = codes "2026-01";
  start_date = 100;
  end_date = 200;
  status = open_period;
  closed_at = none;
  closed_by = none;
  created_at = 800;
  updated_at = 800;
}

abbrev pub rent : DeferralSchedule
rent = record {
  id = 1;
  tenant_id = 1;
  legal_entity_id = 1;
  memo = codes "Rent";
  currency_code = codes "USD";
  total_amount_minor = 100;
  deferral_type = expense_recognition;
  deferred_account_id = 10;
  recognition_account_id = 20;
  status = ScheduleStatus.active;
  created_by = some 7;
  updated_at = 900;
  cancelled_at = none;
  cancelled_by = none;
  cancellation_reason = none;
}

abbrev pub share : ℕ → ℕ → ℕ → DeferralRecognition
share id date amount = record {
  id = id;
  schedule_id = 1;
  tenant_id = 1;
  legal_entity_id = 1;
  sequence_number = id;
  target_date = date;
  amount_minor = amount;
  status = RecognitionStatus.scheduled;
  resulting_journal_entry_id = none;
  failure_reason = none;
  executed_at = none;
  executed_by = none;
  updated_at = 900;
}

-- The posted entry is to be reversed.
abbrev pub accrual : ScheduledReversal
accrual = record {
  id = 1;
  tenant_id = 1;
  legal_entity_id = 1;
  original_journal_entry_id = 2;
  target_date = 145;
  status = ScheduledReversalStatus.scheduled;
  resulting_reversal_journal_entry_id = none;
  failure_reason = none;
  executed_at = none;
  executed_by = none;
  created_by = some 7;
  updated_at = 900;
}

abbrev pub account : ℕ → Account
account id = record {
  id = id;
  tenant_id = 1;
  legal_entity_id = 1;
  code = codes "1000";
  name = codes "Cash";
  account_type = asset;
  is_active = true;
}

abbrev pub bill : ℕ → ℕ → ℕ → SupplierBill
bill id total paid = record {
  id = id;
  tenant_id = 1;
  legal_entity_id = 1;
  supplier_id = 1;
  supplier_bill_number = codes "A-17";
  internal_reference = some (codes "BILL-000001");
  status = posted_document;
  payment_status = PaymentStatus.unpaid;
  bill_date = 110;
  due_date = none;
  currency_code = codes "USD";
  subtotal_minor = total;
  tax_minor = 0;
  total_minor = total;
  paid_minor = paid;
  journal_entry_id = none;
  period_id = some 1;
  memo = none;
}

abbrev pub part_paid_bill : SupplierBill
part_paid_bill = record (bill 2 80 50) { payment_status = PaymentStatus.partially_paid }

abbrev pub draft_payment : SupplierPayment
draft_payment = record {
  id = 1;
  tenant_id = 1;
  legal_entity_id = 1;
  supplier_id = 1;
  internal_reference = none;
  status = draft_document;
  payment_date = 140;
  currency_code = codes "USD";
  payment_amount_minor = 60;
  payment_method = PaymentMethod.cheque;
  bank_cash_account_id = 10;
  reference = none;
  memo = none;
  journal_entry_id = none;
  period_id = none;
  created_by = some 7;
  posted_by = none;
  posted_at = none;
  updated_at = 900;
}

-- A posted payment, whose entry is the posted one.
abbrev pub paid_out : SupplierPayment
paid_out = record draft_payment {
  id = 2;
  internal_reference = some (codes "PAY-000001");
  status = posted_document;
  payment_amount_minor = 70;
  journal_entry_id = some 2;
  period_id = some 1;
}

abbrev pub allocation : ℕ → ℕ → ℕ → SupplierPaymentAllocation
allocation payment bill amount = record {
  tenant_id = 1;
  payment_id = payment;
  bill_id = bill;
  allocated_amount_minor = amount;
  allocation_date = 140;
}

abbrev pub books : Db
books = record {
  legal_entities = record { id = 1; tenant_id = 1; currency_code = codes "USD" } ∷ [];
  chart_of_accounts = account 10 ∷ account 20 ∷ account 30 ∷ [];
  tax_codes = [];
  accounting_periods = january ∷ [];
  journal_number_counters =
      record { tenant_id = 1; legal_entity_id = 1; last_assigned_number = 1 } ∷ [];
  journal_entries = draft_entry ∷ posted_entry ∷ [];
  journal_lines = line 1 1 10 100 0 ∷ line 1 2 20 0 100 ∷ line 2 1 10 70 0 ∷ line 2 2 20 0 70 ∷ [];
  deferral_schedules = rent ∷ [];
  deferral_recognitions = share 1 140 60 ∷ share 2 160 40 ∷ [];
  scheduled_reversals = accrual ∷ [];
  suppliers = record { id = 1; tenant_id = 1; legal_entity_id = 1; is_active = true } ∷ [];
  ap_settings =
      record {
        tenant_id = 1;
        legal_entity_id = 1;
        ap_control_account_id = 30;
        tax_input_account_id = none;
      }
      ∷ [];
  supplier_bills = bill 1 100 0 ∷ part_paid_bill ∷ [];
  supplier_payments = draft_payment ∷ paid_out ∷ [];
  supplier_payment_allocations = allocation 1 1 40 ∷ allocation 2 2 20 ∷ allocation 2 2 30 ∷ [];
  ap_payment_number_counters =
      record { tenant_id = 1; legal_entity_id = 1; last_assigned_number = 1 } ∷ [];
  audit_logs = [];
}

pub books-IsBooks : IsBooks books
unfolding journal_number_text pad_start decimal
books-IsBooks = record {
  sound = record {
    unique = (refl, (refl, tt));
    owned = (refl, (refl, (refl, (refl, tt))));
    balanced = ((λ s. (omega arith, refl)), ((λ s. (omega arith, refl)), tt));
  };
  register = record {
    unique = (refl, (refl, tt));
    drawn = (inl refl, (inr (1, refl, omega arith), tt));
    distinct = (((λ k. let (t, e, e') = k.1 in cc), tt), (tt, tt));
  };
  calendar = (tt, tt);
}
