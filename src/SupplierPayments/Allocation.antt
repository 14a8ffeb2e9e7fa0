-- ===== src/SupplierPayments/Allocation.antt =====
-- applyAllocation(): new allocations of a payment that is posted.
use noryx_platform.Common.{
  ℕ, ◌+◌, Bool, false, not, Option, none, some, List, ◌∷◌, ◌++◌, leb, ◌==◌, is_some, or_else,
}
use noryx_platform.Common.Rows.{find}
use noryx_platform.Database.{
  Caller, Platform, AuditAction, payment_full, not_found, conflict, unprocessable, internal,
  no_values, no_such_row, payment_not_posted, payment_without_entry, payment_reversed,
  exceeds_payment, allocation_in_future, allocation_before_payment, SupplierBill,
  SupplierPaymentAllocation, PaymentWithAllocations, JournalEntry,
}
use noryx_platform.Database.Tx.{Tx, pure, gets, or_throw, guard, audit, ◌>>=◌, ◌>>◌}
use noryx_platform.Journal.{is_empty}
use noryx_platform.Settlement.{resolve_open_period_or_throw}
use noryx_platform.SupplierPayments.Lookup.{
  CreateSupplierPaymentAllocationDto, bill_ids, find_by_id_in_tx,
  validate_allocations_shape_or_throw, insert_allocations,
}
use noryx_platform.SupplierPayments.Drafts.{payment_audit}
use noryx_platform.SupplierPayments.Bills.{
  is_posted_document, lock_bills, check_bills, settle_bills,
}
use noryx_platform.SupplierPayments.Posting.{requested_total, wanted}

pub record ApplySupplierPaymentAllocationDto : Type 0 where
  pub allocations : List CreateSupplierPaymentAllocationDto
  pub allocation_date : Option ℕ

-- What steps 1 to 11 have read and checked.
pub record Applicable : Type 0 where
  pub before : PaymentWithAllocations
  pub date : ℕ
  pub bills : List SupplierBill

-- `journalEntry?.reversedByJournalEntryId != null`
abbrev pub is_reversed : Option JournalEntry → Bool
is_reversed none = false
is_reversed (some e) = is_some e.reversed_by_journal_entry_id

module _ (p : Platform) (c : Caller) where
  unfoldable pub load_apply : ℕ → ApplySupplierPaymentAllocationDto → Tx Applicable
  unfolding find_by_id_in_tx validate_allocations_shape_or_throw resolve_open_period_or_throw
      lock_bills
  load_apply id dto = do
    found ← find_by_id_in_tx c id
    before ← or_throw found (not_found no_such_row)
    guard (is_posted_document before.payment.status) (unprocessable payment_not_posted)
    entry_id ← or_throw before.payment.journal_entry_id (unprocessable payment_without_entry)
    entry ← gets λ db. find (λ (e : JournalEntry). e.id == entry_id) db.journal_entries
    guard (not (is_reversed entry)) (conflict payment_reversed)
    let applied = requested_total (wanted before)
    validate_allocations_shape_or_throw c before.payment.supplier_id dto.allocations
    let requested = requested_total dto.allocations
    guard (leb (applied + requested) before.payment.payment_amount_minor)
        (unprocessable (exceeds_payment (applied + requested) before.payment.payment_amount_minor))
    let date = or_else dto.allocation_date p.today
    guard (leb date p.today) (unprocessable (allocation_in_future date p.today))
    guard (leb before.payment.payment_date date)
        (unprocessable (allocation_before_payment date before.payment.payment_date))
    resolve_open_period_or_throw c date
    bills ← lock_bills c (bill_ids dto.allocations)
    pure (record { before = before; date = date; bills = bills })

  unfoldable pub settle_applied :
      ℕ
      → List CreateSupplierPaymentAllocationDto
      → Applicable
      → List SupplierPaymentAllocation
      → Tx PaymentWithAllocations
  unfolding settle_bills
  settle_applied id allocations x inserted = do
    rows ← settle_bills c x.bills allocations
    let after : PaymentWithAllocations = record {
      payment = x.before.payment;
      allocations = x.before.allocations ++ inserted;
    }
    audit (
        payment_audit c AuditAction.update id (some (payment_full x.before))
          (some (payment_full after))
        ∷ rows)
    pure after

  unfoldable pub finish_apply :
      ℕ → List CreateSupplierPaymentAllocationDto → Applicable → Tx PaymentWithAllocations
  unfolding insert_allocations settle_applied
  finish_apply id allocations x = do
    -- `values([])` throws.
    guard (not (is_empty allocations)) (internal no_values)
    inserted ← insert_allocations c id allocations x.date
    settle_applied id allocations x inserted

  unfoldable pub apply_allocation :
      ℕ → ApplySupplierPaymentAllocationDto → Tx PaymentWithAllocations
  unfolding load_apply check_bills finish_apply
  apply_allocation id dto = do
    x ← load_apply id dto
    check_bills x.before.payment.supplier_id x.bills dto.allocations
    finish_apply id dto.allocations x
