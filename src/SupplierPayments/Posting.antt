-- ===== src/SupplierPayments/Posting.antt =====
-- post(): the checks, the journal entry, and what it leaves of the payment and the bills.
use noryx_platform.Common.{ℕ, none, some, List, [], ◌∷◌, ◌++◌, map, sum, leb, ◌==◌}
use noryx_platform.Common.Decimal.{Text, codes}
use noryx_platform.Common.Rows.{find, update_where}
use noryx_platform.Database.{
  Caller, Platform, AuditAction, entry_with_lines, payment_full, not_found, conflict, unprocessable,
  internal, no_such_row, already_posted, exceeds_payment, posted_document, ApSettings,
  AccountingPeriod, SupplierBill, SupplierPayment, PaymentWithAllocations, JournalEntry,
  EntryWithLines,
}
use noryx_platform.Database.Tx.{Tx, pure, gets, or_throw, guard, modify, audit, ◌>>=◌, ◌>>◌}
use noryx_platform.Journal.{
  CreateJournalLineDto, insert_entry, insert_lines, mark_posted, entry_audit,
  allocate_journal_number,
}
use noryx_platform.SupplierPayments.Lookup.{
  CreateSupplierPaymentAllocationDto, bill_ids, payment_key, find_by_id_in_tx,
  revalidate_bank_cash_account_for_posting_or_throw, load_ap_settings_or_throw,
  allocate_payment_number, resolve_and_lock_open_period,
}
use noryx_platform.SupplierPayments.Drafts.{is_draft_document, payment_audit}
use noryx_platform.SupplierPayments.Bills.{as_dto, lock_bills, check_bills, settle_bills}

-- What steps 1 to 7 of post() have read and checked.
pub record Postable : Type 0 where
  pub before : PaymentWithAllocations
  pub settings : ApSettings
  pub period : AccountingPeriod
  pub bills : List SupplierBill

-- What steps 10 to 12 have made.
pub record Booked : Type 0 where
  pub reference : Text
  pub entry : EntryWithLines

abbrev pub requested_total : List CreateSupplierPaymentAllocationDto → ℕ
requested_total allocations = sum (λ a. a.allocated_amount_minor) allocations

abbrev pub wanted : PaymentWithAllocations → List CreateSupplierPaymentAllocationDto
wanted x = map as_dto x.allocations

unfoldable pub payment_memo : Text → Text
payment_memo reference =
    codes "Payment " ++ (reference ++ codes " to supplier (bank/cash account posting)")

-- The payment's amount, from the AP control account to the bank or cash account.
unfoldable pub payment_lines : Text → ℕ → ℕ → ℕ → List CreateJournalLineDto
payment_lines reference control bank amount =
    record {
      account_id = control;
      debit_minor = amount;
      credit_minor = 0;
      description = some (codes "AP control — payment " ++ reference);
      tax_code_id = none;
      tax_direction = none;
    }
    ∷ record {
      account_id = bank;
      debit_minor = 0;
      credit_minor = amount;
      description = some (codes "Bank/cash — payment " ++ reference);
      tax_code_id = none;
      tax_direction = none;
    }
    ∷ []

module _ (p : Platform) (c : Caller) where
  -- Steps 1 to 7.
  unfoldable pub load_post : ℕ → Tx Postable
  unfolding find_by_id_in_tx revalidate_bank_cash_account_for_posting_or_throw
      load_ap_settings_or_throw resolve_and_lock_open_period lock_bills
  load_post id = do
    found ← find_by_id_in_tx c id
    before ← or_throw found (not_found no_such_row)
    guard (is_draft_document before.payment.status) (conflict already_posted)
    revalidate_bank_cash_account_for_posting_or_throw c before.payment.bank_cash_account_id
    settings ← load_ap_settings_or_throw c
    period ← resolve_and_lock_open_period c before.payment.payment_date
    bills ← lock_bills c (bill_ids (wanted before))
    pure (record { before = before; settings = settings; period = period; bills = bills })

  -- Step 9.
  unfoldable pub check_total : PaymentWithAllocations → Tx (Unit {0})
  check_total x =
      let total = requested_total (wanted x) in
      guard (leb total x.payment.payment_amount_minor)
        (unprocessable (exceeds_payment total x.payment.payment_amount_minor))

  -- The update of the new entry names its id only.
  unfoldable pub commit_entry : ℕ → Text → ℕ → Tx JournalEntry
  unfolding mark_posted
  commit_entry id number period_id = do
    modify λ db. record db {
      journal_entries =
          update_where (λ (e : JournalEntry). e.id == id) (mark_posted p c number period_id)
            db.journal_entries;
    }
    row ← gets λ db. find (λ (e : JournalEntry). e.id == id) db.journal_entries
    or_throw row (internal no_such_row)

  unfoldable pub book_payment : Postable → Tx Booked
  unfolding allocate_payment_number allocate_journal_number insert_entry insert_lines payment_memo
      payment_lines commit_entry
  book_payment x = do
    let payment = x.before.payment
    reference ← allocate_payment_number c
    number ← allocate_journal_number c
    created ←
        insert_entry p c payment.payment_date payment.currency_code (some (payment_memo reference))
          none
    rows ← insert_lines c created.id (
        payment_lines reference x.settings.ap_control_account_id payment.bank_cash_account_id
          payment.payment_amount_minor)
    row ← commit_entry created.id number x.period.id
    pure (record { reference = reference; entry = record { entry = row; lines = rows } })

  unfoldable pub mark_paid : Text → ℕ → ℕ → SupplierPayment → SupplierPayment
  mark_paid reference entry_id period_id x = record x {
    status = posted_document;
    internal_reference = some reference;
    journal_entry_id = some entry_id;
    period_id = some period_id;
    posted_by = c.actor_user_id;
    posted_at = some p.now;
  }

  unfoldable pub commit_payment : ℕ → Text → ℕ → ℕ → Tx SupplierPayment
  unfolding mark_paid
  commit_payment id reference entry_id period_id = do
    modify λ db. record db {
      supplier_payments =
          update_where (payment_key c id) (mark_paid reference entry_id period_id)
            db.supplier_payments;
    }
    row ← gets λ db. find (payment_key c id) db.supplier_payments
    or_throw row (internal no_such_row)

  unfoldable pub finish_post : ℕ → Postable → Booked → Tx PaymentWithAllocations
  unfolding commit_payment settle_bills
  finish_post id x booked = do
    posted ← commit_payment id booked.reference booked.entry.entry.id x.period.id
    rows ← settle_bills c x.bills (wanted x.before)
    let after : PaymentWithAllocations = record {
      payment = posted;
      allocations = x.before.allocations;
    }
    audit (
        payment_audit c AuditAction.post id (some (payment_full x.before))
          (some (payment_full after))
        ∷ entry_audit c AuditAction.create booked.entry.entry.id none
            (some (entry_with_lines booked.entry))
        ∷ rows)
    pure after

  unfoldable pub post : ℕ → Tx PaymentWithAllocations
  unfolding load_post check_bills check_total book_payment finish_post
  post id = do
    x ← load_post id
    check_bills x.before.payment.supplier_id x.bills (wanted x.before)
    check_total x.before
    booked ← book_payment x
    finish_post id x booked
