-- ===== src/SupplierPayments/Keeping.antt =====
-- post(), applyAllocation() and reverse() keep the bills and their allocations in order.
use noryx_platform.Common.{not, ℕ, ◌≡◌, ◌∙◌, or_else, All}
use noryx_platform.Journal.{is_empty, ReverseJournalEntryDto, complete_reversal_posting}
use noryx_platform.Database.{internal, no_values, Db, Caller, Platform}
use noryx_platform.Database.Tx.{Ensures-guarded, Ensures, Ensures-map, Ensures-bind}
use noryx_platform.Books.Entries.{Completes, complete_shape}
use noryx_platform.SupplierPayments.{
  ApplySupplierPaymentAllocationDto, bill_ids, wanted, load_post, check_bills, check_total,
  book_payment, finish_post, post, load_apply, insert_allocations, settle_applied, finish_apply,
  apply_allocation, check_reverse, finish_reverse, reverse, payment_reversal_memo,
}
use noryx_platform.SupplierPayments.Frames.{Fits, check_bills_shape}
use noryx_platform.SupplierPayments.Loads.{
  LoadsPost, load_post_shape, check_total_shape, LoadsApply, load_apply_shape, LoadsReverse,
  check_reverse_shape,
}
use noryx_platform.SupplierPayments.Booking.{Writes, book_payment_shape}
use noryx_platform.SupplierPayments.Balances.{Reads, bills_at-Reads}
use noryx_platform.SupplierPayments.Payables.{
  IsPositive, IsPayables, IsPositive-selected, SamePayables, IsPayables-same,
  finish_post-IsPayables, insert-IsPayables, settle_applied-IsPayables, finish_reverse-IsPayables,
}

module _ (p : Platform) (c : Caller) where
  -- When no bill is overpaid, payment statuses fit the amounts, and allocations are positive, post()
  -- keeps it so.
  pub post-IsPayables :
      (id : ℕ) (db : Db) → IsPayables db → Ensures (λ r db'. IsPayables db') (post p c id db)
  unfolding post
  post-IsPayables id db h =
      Ensures-bind (λ x db'. LoadsPost p c id db db' x) (λ r db'. IsPayables db') (load_post p c id)
        _ db (load_post_shape p c id db)
        λ x db1 l.
          let positive : All IsPositive (wanted x.before) =
            rw l.payment.rows (IsPositive-selected _ db.supplier_payment_allocations h.positive) in
          let reads : Reads x.bills db.supplier_bills =
            rw l.bills (bills_at-Reads c (bill_ids (wanted x.before)) db h.bills) in
          rw l.unchanged (
            Ensures-bind (λ u db'. (db' ≡ db) × All (Fits x.bills) (wanted x.before))
              (λ r db'. IsPayables db')
              (check_bills x.before.payment.supplier_id x.bills (wanted x.before)) _ db
              (check_bills_shape x.before.payment.supplier_id x.bills (wanted x.before) db)
              λ u db2 checked.
                Ensures-bind (λ u db'. db' ≡ db) (λ r db'. IsPayables db')
                  (check_total p c x.before) _ db2
                  (Ensures-map _ (λ u db'. db' ≡ db) _ (λ u db' k. k.0 ∙ checked.0)
                    (check_total_shape p c id db2 x.before))
                  λ u db3 e3. rw e3 (
                    Ensures-bind (λ b db'. SamePayables db db') (λ r db'. IsPayables db')
                      (book_payment p c x) (finish_post p c id x) db
                      (Ensures-map (λ b db'. Writes p c db x b db') _ _
                        (λ b db' w. (
                          w.reference_same.supplier_bills,
                          w.reference_same.supplier_payment_allocations,
                        ))
                        (book_payment_shape p c db x))
                      λ b db4 s.
                        finish_post-IsPayables p c id x b db4 (IsPayables-same db db4 s h)
                          (rw s.0 reads) checked.1 positive))

  -- When no bill is overpaid, payment statuses fit the amounts, and allocations are positive,
  -- applyAllocation() with positive amounts keeps it so.
  pub apply_allocation-IsPayables :
      (id : ℕ) (dto : ApplySupplierPaymentAllocationDto) (db : Db)
      → All IsPositive dto.allocations
      → IsPayables db
      → Ensures (λ r db'. IsPayables db') (apply_allocation p c id dto db)
  unfolding apply_allocation finish_apply
  apply_allocation-IsPayables id dto db positive h =
      Ensures-bind (λ x db'. LoadsApply p c id db dto db' x) (λ r db'. IsPayables db')
        (load_apply p c id dto) _ db (load_apply_shape p c id db dto)
        λ x db1 l.
          let reads : Reads x.bills db.supplier_bills =
            rw l.bills (bills_at-Reads c (bill_ids dto.allocations) db h.bills) in
          rw l.unchanged (
            Ensures-bind (λ u db'. (db' ≡ db) × All (Fits x.bills) dto.allocations)
              (λ r db'. IsPayables db')
              (check_bills x.before.payment.supplier_id x.bills dto.allocations)
              (λ u. finish_apply p c id dto.allocations x) db
              (check_bills_shape x.before.payment.supplier_id x.bills dto.allocations db)
              λ u db2 checked. rw checked.0 (
                Ensures-guarded (not (is_empty dto.allocations)) (internal no_values)
                  (λ inserted db'. IsPayables db' × (db'.supplier_bills ≡ db.supplier_bills))
                  (λ r db'. IsPayables db') (insert_allocations c id dto.allocations x.date)
                  (settle_applied p c id dto.allocations x) db
                  (insert-IsPayables p c id x.date dto.allocations db positive h)
                  λ inserted db3 k.
                    settle_applied-IsPayables p c id dto.allocations x inserted db3 k.0
                      (rw k.1 reads) checked.1 positive))

  -- When no bill is overpaid, payment statuses fit the amounts, and allocations are positive,
  -- reverse() keeps it so, also when several allocations are to one bill.
  pub reverse-IsPayables :
      (id : ℕ) (dto : ReverseJournalEntryDto) (db : Db)
      → IsPayables db
      → Ensures (λ r db'. IsPayables db') (reverse p c id dto db)
  unfolding reverse
  reverse-IsPayables id dto db h =
      let date = or_else dto.transaction_date p.today in
      Ensures-bind (λ x db'. LoadsReverse p c id db db' x) (λ r db'. IsPayables db')
        (check_reverse p c id date) _ db (check_reverse_shape p c id db date)
        λ x db1 l.
          let memo = or_else dto.memo (payment_reversal_memo x.before) in
          let reads : Reads x.bills db.supplier_bills =
            rw l.bills (bills_at-Reads c (bill_ids (wanted x.before)) db h.bills) in
          rw l.unchanged (
            Ensures-bind (λ w db'. SamePayables db db') (λ r db'. IsPayables db')
              (complete_reversal_posting p c x.original x.period date memo)
              (λ w. finish_reverse p c id x) db
              (Ensures-map (λ r db'. Completes p c db db' r x.original x.period date memo) _ _
                (λ w db' s. (s.reference.supplier_bills, s.reference.supplier_payment_allocations))
                (complete_shape p c db x.original x.period date memo))
              λ w db2 s.
                finish_reverse-IsPayables p c id x db2 (IsPayables-same db db2 s h) (rw s.0 reads))
