-- ===== src/SupplierPayments/Reversal.antt =====
-- reverse(): the reversal of the payment's entry, and the bills that it had settled.
use noryx_platform.Common.{ℕ, some, List, ◌∷◌, ◌++◌, or_else}
use noryx_platform.Common.Decimal.{Text, codes}
use noryx_platform.Database.{
  Caller, Platform, AuditAction, AuditLog, payment_full, not_found, unprocessable, internal,
  no_such_row, payment_not_posted, payment_without_entry, AccountingPeriod, SupplierBill,
  PaymentWithAllocations, EntryWithLines,
}
use noryx_platform.Database.Tx.{Tx, pure, or_throw, guard, audit, ◌>>=◌, ◌>>◌}
use noryx_platform.Journal.{
  ReverseJournalEntryDto, shown, lock_and_validate_original_for_reversal, complete_reversal_posting,
}
use noryx_platform.Settlement.{resolve_open_period_or_throw, resolve_reversal_info}
use noryx_platform.SupplierPayments.Lookup.{bill_ids, find_by_id_in_tx}
use noryx_platform.SupplierPayments.Drafts.{PaymentWithReversal, payment_audit}
use noryx_platform.SupplierPayments.Bills.{is_posted_document, lock_bills, unsettle_bills}
use noryx_platform.SupplierPayments.Posting.{wanted}

-- What reverse() has read and checked before it writes.
pub record Reversible : Type 0 where
  pub before : PaymentWithAllocations
  pub bills : List SupplierBill
  pub original_id : ℕ
  pub original : EntryWithLines
  pub period : AccountingPeriod

abbrev pub payment_reversal_memo : PaymentWithAllocations → Text
payment_reversal_memo x =
    codes "Reversal of supplier payment " ++ shown x.payment.internal_reference

module _ (p : Platform) (c : Caller) where
  unfoldable pub check_reverse : ℕ → ℕ → Tx Reversible
  unfolding find_by_id_in_tx lock_bills lock_and_validate_original_for_reversal
      resolve_open_period_or_throw
  check_reverse id date = do
    found ← find_by_id_in_tx c id
    before ← or_throw found (not_found no_such_row)
    guard (is_posted_document before.payment.status) (unprocessable payment_not_posted)
    entry_id ← or_throw before.payment.journal_entry_id (unprocessable payment_without_entry)
    bills ← lock_bills c (bill_ids (wanted before))
    original ← lock_and_validate_original_for_reversal c entry_id
    period ← resolve_open_period_or_throw c date
    pure (record {
      before = before;
      bills = bills;
      original_id = entry_id;
      original = original;
      period = period;
    })

  unfoldable pub show_reversed : ℕ → PaymentWithAllocations → List AuditLog → Tx PaymentWithReversal
  unfolding find_by_id_in_tx resolve_reversal_info
  show_reversed id before rows = do
    read ← find_by_id_in_tx c id
    -- `after!`
    after ← or_throw read (internal no_such_row)
    audit (
        payment_audit c AuditAction.reverse id (some (payment_full before))
          (some (payment_full after))
        ∷ rows)
    reversal ← resolve_reversal_info after.payment.journal_entry_id
    pure (record { full = after; reversal = reversal })

  unfoldable pub finish_reverse : ℕ → Reversible → Tx PaymentWithReversal
  unfolding unsettle_bills show_reversed
  finish_reverse id x = do
    rows ← unsettle_bills c x.bills (wanted x.before)
    show_reversed id x.before rows

  unfoldable pub reverse : ℕ → ReverseJournalEntryDto → Tx PaymentWithReversal
  unfolding check_reverse complete_reversal_posting finish_reverse
  reverse id dto = do
    let date = or_else dto.transaction_date p.today
    x ← check_reverse id date
    complete_reversal_posting p c x.original x.period date
        (or_else dto.memo (payment_reversal_memo x.before))
    finish_reverse id x
