-- ===== src/SupplierPayments/Loads.antt =====
-- What post(), applyAllocation() and reverse() have read when they begin to write.
use noryx_platform.Common.{ℕ, ◌+◌, ◌≤◌, ◌≡◌, ◌&&◌, some, List, arith, contains}
use noryx_platform.Common.Rows.{find, select}
use noryx_platform.Database.{
  Db, Caller, Platform, SupplierBill, PaymentWithAllocations, draft_document, posted_document,
}
use noryx_platform.Database.Tx.{Ensures}
use noryx_platform.Journal.{in_scope}
use noryx_platform.Books.Entries.{Accepts}
use noryx_platform.SupplierPayments.{
  payment_key, allocation_of, bill_ids, wanted, requested_total, Postable, load_post, check_total,
  Applicable, load_apply, ApplySupplierPaymentAllocationDto, Reversible, check_reverse,
}

-- The payment of an id with its allocations.
pub record IsPayment (c : Caller) (id : ℕ) (db : Db) (x : PaymentWithAllocations) : Type 0 where
  pub found : find (payment_key c id) db.supplier_payments ≡ some x.payment
  pub rows : x.allocations ≡ select (allocation_of id) db.supplier_payment_allocations

-- The bills of the caller's scope with these ids.
abbrev pub bills_at : Caller → List ℕ → Db → List SupplierBill
bills_at c ids db =
    select (λ (b : SupplierBill). contains b.id ids && in_scope c b.tenant_id b.legal_entity_id)
      db.supplier_bills

module _ (p : Platform) (c : Caller) (id : ℕ) (db : Db) where
  pub record LoadsPost (db' : Db) (x : Postable) : Type 0 where
    pub unchanged : db' ≡ db
    pub payment : IsPayment c id db x.before
    pub was_draft : x.before.payment.status ≡ draft_document
    pub bills : x.bills ≡ bills_at c (bill_ids (wanted x.before)) db

  pub load_post_shape : Ensures (λ x db'. LoadsPost db' x) (load_post p c id db)
  unfolding load_post
  load_post_shape = ground arith

  pub check_total_shape :
      (x : PaymentWithAllocations)
      → Ensures
          (λ u db'. (db' ≡ db) × (requested_total (wanted x) ≤ x.payment.payment_amount_minor))
          (check_total p c x db)
  unfolding check_total
  check_total_shape x = ground arith

  pub record LoadsApply (dto : ApplySupplierPaymentAllocationDto) (db' : Db) (x : Applicable)
      : Type 0 where
    pub unchanged : db' ≡ db
    pub payment : IsPayment c id db x.before
    pub was_posted : x.before.payment.status ≡ posted_document
    pub bills : x.bills ≡ bills_at c (bill_ids dto.allocations) db
    pub within :
        requested_total (wanted x.before) + requested_total dto.allocations
        ≤ x.before.payment.payment_amount_minor

  pub load_apply_shape :
      (dto : ApplySupplierPaymentAllocationDto)
      → Ensures (λ x db'. LoadsApply dto db' x) (load_apply p c id dto db)
  unfolding load_apply
  load_apply_shape dto = ground arith

  pub record LoadsReverse (db' : Db) (x : Reversible) : Type 0 where
    pub unchanged : db' ≡ db
    pub payment : IsPayment c id db x.before
    pub bills : x.bills ≡ bills_at c (bill_ids (wanted x.before)) db
    pub accepts : Accepts c x.original_id db db x.original

  pub check_reverse_shape :
      (date : ℕ) → Ensures (λ x db'. LoadsReverse db' x) (check_reverse p c id date db)
  unfolding check_reverse
  check_reverse_shape date = ground arith
