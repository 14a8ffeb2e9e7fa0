-- ===== src/SupplierPayments/Applied.antt =====
-- What post() and applyAllocation() answer is what they store, and never more is applied than the
-- payment amounts to.
use noryx_platform.Common.{
  not, ℕ, ◌+◌, ◌≤◌, ◌≡◌, refl, ap, ◌∙◌, sym, some, List, [], ◌∷◌, ◌++◌, map, arith,
}
use noryx_platform.Journal.{is_empty}
use noryx_platform.Database.{
  internal, no_values, Db, Caller, Platform, PaymentWithAllocations, SupplierPayment,
  SupplierPaymentAllocation, posted_document,
}
use noryx_platform.Database.Tx.{Ensures-guarded, Ensures, Ensures-map, Ensures-bind}
use mathlib.Core.Option.{some-injective}
use noryx_platform.Common.Decimal.{Text}
use noryx_platform.Common.Rows.{find, select, update_where, find-update_where}
use noryx_platform.Books.Tables.{select-append}
use noryx_platform.SupplierPayments.{
  CreateSupplierPaymentAllocationDto, ApplySupplierPaymentAllocationDto, allocation_of, payment_key,
  new_allocation, as_dto, wanted, requested_total, Postable, Booked, load_post, check_bills,
  check_total, book_payment, mark_paid, commit_payment, settle_bills, finish_post, post, Applicable,
  load_apply, insert_allocations, settle_applied, finish_apply, apply_allocation,
}
use noryx_platform.SupplierPayments.Frames.{OnlyBills, check_bills_shape, settle_bills-OnlyBills}
use noryx_platform.SupplierPayments.Loads.{
  IsPayment, LoadsPost, load_post_shape, check_total_shape, LoadsApply, load_apply_shape,
}
use noryx_platform.SupplierPayments.Booking.{Writes, book_payment_shape}

-- The payment of this id as it is stored, posted, and with no more applied than it amounts to.
pub record IsCovered (c : Caller) (id : ℕ) (db : Db) (x : PaymentWithAllocations) : Type 0 where
  pub stored : IsPayment c id db x
  pub is_posted : x.payment.status ≡ posted_document
  pub covered : requested_total (wanted x) ≤ x.payment.payment_amount_minor

total-append :
    (c : Caller) (id date : ℕ) (xs : List SupplierPaymentAllocation)
    (ls : List CreateSupplierPaymentAllocationDto)
    → requested_total (map as_dto (xs ++ map (new_allocation c id date) ls))
      ≡ requested_total (map as_dto xs) + requested_total ls
total-append c id date [] [] = refl
total-append c id date [] (a ∷ ls) = omega (arith, total-append c id date [] ls)
total-append c id date (x ∷ xs) ls = omega (arith, total-append c id date xs ls)

select-inserted :
    (c : Caller) (id date : ℕ) (ls : List CreateSupplierPaymentAllocationDto)
    → select (allocation_of id) (map (new_allocation c id date) ls)
      ≡ map (new_allocation c id date) ls
select-inserted c id date [] = refl
select-inserted c id date (a ∷ ls) = ground (arith, select-inserted c id date ls)

-- The tables of payments and allocations as they are elsewhere.
abbrev SamePayments : Db → Db → Type 0
SamePayments db db' =
    (db'.supplier_payments ≡ db.supplier_payments)
    × (db'.supplier_payment_allocations ≡ db.supplier_payment_allocations)

module _ (p : Platform) (c : Caller) where
  settle_applied_shape :
      (id : ℕ) (ls : List CreateSupplierPaymentAllocationDto) (x : Applicable)
      (inserted : List SupplierPaymentAllocation) (db : Db)
      → Ensures
          (λ r db'.
            (r ≡ record {
              payment = x.before.payment;
              allocations = x.before.allocations ++ inserted;
            })
            × SamePayments db db')
          (settle_applied p c id ls x inserted db)
  unfolding settle_applied
  settle_applied_shape id ls x inserted db =
      Ensures-bind (λ rows db'. OnlyBills db db') _ (settle_bills c x.bills ls) _ db
        (settle_bills-OnlyBills c x.bills ls db)
        λ rows db1 s. (
          refl,
          (
            ap (λ (d : Db). d.supplier_payments) s,
            ap (λ (d : Db). d.supplier_payment_allocations) s,
          ),
        )

  insert_shape :
      (id date : ℕ) (ls : List CreateSupplierPaymentAllocationDto) (db : Db)
      → Ensures
          (λ rows db'.
            (rows ≡ map (new_allocation c id date) ls)
            × (db'.supplier_payments ≡ db.supplier_payments)
            × (db'.supplier_payment_allocations ≡ db.supplier_payment_allocations ++ rows))
          (insert_allocations c id ls date db)
  unfolding insert_allocations
  insert_shape id date ls db = (refl, refl, refl)

  -- The payment with new allocations at the end.
  applied-IsCovered :
      (id date : ℕ) (ls : List CreateSupplierPaymentAllocationDto) (before : PaymentWithAllocations)
      (db db' : Db)
      → IsPayment c id db before
      → before.payment.status ≡ posted_document
      → requested_total (wanted before) + requested_total ls ≤ before.payment.payment_amount_minor
      → db'.supplier_payments ≡ db.supplier_payments
      → db'.supplier_payment_allocations
        ≡ db.supplier_payment_allocations ++ map (new_allocation c id date) ls
      → IsCovered c id db' (record {
        payment = before.payment;
        allocations = before.allocations ++ map (new_allocation c id date) ls;
      })
  applied-IsCovered id date ls before db db' is st fits payments rows = record {
    stored = record {
      found = ap (find (payment_key c id)) payments ∙ is.found;
      rows = sym (
          ap (select (allocation_of id)) rows
          ∙ select-append (allocation_of id) db.supplier_payment_allocations
              (map (new_allocation c id date) ls)
          ∙ ap (λ t. select (allocation_of id) db.supplier_payment_allocations ++ t)
              (select-inserted c id date ls)
          ∙ ap (λ t. t ++ map (new_allocation c id date) ls) (sym is.rows));
    };
    is_posted = st;
    covered = omega (arith, total-append c id date before.allocations ls, fits);
  }

  -- After an applyAllocation() that succeeds, the answer is the stored payment with its
  -- allocations, the new ones at the end; it is posted, and its allocations together are at most
  -- its amount.
  pub apply_allocation-IsCovered :
      (id : ℕ) (dto : ApplySupplierPaymentAllocationDto) (db : Db)
      → Ensures (λ r db'. IsCovered c id db' r) (apply_allocation p c id dto db)
  unfolding apply_allocation finish_apply
  apply_allocation-IsCovered id dto db =
      Ensures-bind (λ x db'. LoadsApply p c id db dto db' x) (λ r db'. IsCovered c id db' r)
        (load_apply p c id dto) _ db (load_apply_shape p c id db dto)
        λ x db1 l.
          Ensures-bind (λ u db'. db' ≡ db) (λ r db'. IsCovered c id db' r)
            (check_bills x.before.payment.supplier_id x.bills dto.allocations)
            (λ u. finish_apply p c id dto.allocations x) db1
            (Ensures-map _ (λ u db'. db' ≡ db) _ (λ u db' k. k.0 ∙ l.unchanged)
              (check_bills_shape x.before.payment.supplier_id x.bills dto.allocations db1))
            λ u db2 e2. rw e2 (
              Ensures-guarded (not (is_empty dto.allocations)) (internal no_values)
                (λ rows db'.
                  (rows ≡ map (new_allocation c id x.date) dto.allocations)
                  × (db'.supplier_payments ≡ db.supplier_payments)
                  × (db'.supplier_payment_allocations ≡ db.supplier_payment_allocations ++ rows))
                (λ r db'. IsCovered c id db' r) (insert_allocations c id dto.allocations x.date)
                (settle_applied p c id dto.allocations x) db
                (insert_shape id x.date dto.allocations db)
                λ inserted db3 i.
                  Ensures-map _ (λ r db'. IsCovered c id db' r)
                    (settle_applied p c id dto.allocations x inserted db3)
                    (λ r db' s.
                      rw (s.0, i.0)
                        (applied-IsCovered id x.date dto.allocations x.before db db' l.payment
                          l.was_posted l.within (s.1.0 ∙ i.1)
                          (s.1.1 ∙ i.2 ∙ ap (λ t. db.supplier_payment_allocations ++ t) i.0)))
                    (settle_applied_shape id dto.allocations x inserted db3))

  -- The columns that posting sets leave the rest of the payment as it was.
  record Commits (id : ℕ) (reference : Text) (entry period : ℕ) (db db' : Db) (x : SupplierPayment)
      : Type 0 where
    payments :
        db'.supplier_payments
        ≡ update_where
            (payment_key c id)
            (mark_paid p c reference entry period)
            db.supplier_payments
    found : find (payment_key c id) db'.supplier_payments ≡ some x
    rows : db'.supplier_payment_allocations ≡ db.supplier_payment_allocations

  commit_shape :
      (id : ℕ) (reference : Text) (entry period : ℕ) (db : Db)
      → Ensures
          (λ x db'. Commits id reference entry period db db' x)
          (commit_payment p c id reference entry period db)
  unfolding commit_payment
  commit_shape id reference entry period db = ground arith

  pub finish_post-IsCovered :
      (id : ℕ) (x : Postable) (b : Booked) (db : Db)
      → IsPayment c id db x.before
      → requested_total (wanted x.before) ≤ x.before.payment.payment_amount_minor
      → Ensures (λ r db'. IsCovered c id db' r) (finish_post p c id x b db)
  unfolding finish_post mark_paid
  finish_post-IsCovered id x b db is fits =
      let entry = b.entry.entry.id in
      Ensures-bind (λ posted db'. Commits id b.reference entry x.period.id db db' posted)
        (λ r db'. IsCovered c id db' r) (commit_payment p c id b.reference entry x.period.id) _ db
        (commit_shape id b.reference entry x.period.id db)
        λ posted db1 s.
          let same : posted ≡ mark_paid p c b.reference entry x.period.id x.before.payment =
            some-injective _ _ (
              sym s.found
              ∙ ap (find (payment_key c id)) s.payments
              ∙ find-update_where (payment_key c id) (mark_paid p c b.reference entry x.period.id)
                  db.supplier_payments x.before.payment (λ y. refl) is.found) in
          Ensures-bind (λ rows db'. OnlyBills db1 db') (λ r db'. IsCovered c id db' r)
            (settle_bills c x.bills (wanted x.before)) _ db1
            (settle_bills-OnlyBills c x.bills (wanted x.before) db1)
            λ rows db2 o. record {
              stored = record {
                found = ap (λ (d : Db). find (payment_key c id) d.supplier_payments) o ∙ s.found;
                rows =
                    is.rows
                    ∙ ap (select (allocation_of id))
                        (sym (ap (λ (d : Db). d.supplier_payment_allocations) o ∙ s.rows));
              };
              is_posted = ap (λ (y : SupplierPayment). y.status) same;
              covered = rw same fits;
            }

  -- After a post() that succeeds, the answer is the stored payment with its allocations; it is
  -- posted, and its allocations together are at most its amount.
  pub post-IsCovered : (id : ℕ) (db : Db) → Ensures (λ r db'. IsCovered c id db' r) (post p c id db)
  unfolding post
  post-IsCovered id db =
      Ensures-bind (λ x db'. LoadsPost p c id db db' x) (λ r db'. IsCovered c id db' r)
        (load_post p c id) _ db (load_post_shape p c id db)
        λ x db1 l. rw l.unchanged (
          Ensures-bind (λ u db'. db' ≡ db) (λ r db'. IsCovered c id db' r)
            (check_bills x.before.payment.supplier_id x.bills (wanted x.before)) _ db
            (Ensures-map _ (λ u db'. db' ≡ db) _ (λ u db' k. k.0)
              (check_bills_shape x.before.payment.supplier_id x.bills (wanted x.before) db))
            λ u db2 e2. rw e2 (
              Ensures-bind
                (λ u db'.
                  (db' ≡ db)
                  × (requested_total (wanted x.before) ≤ x.before.payment.payment_amount_minor))
                (λ r db'. IsCovered c id db' r) (check_total p c x.before) _ db
                (check_total_shape p c id db x.before)
                λ u db3 t. rw t.0 (
                  Ensures-bind (λ b db'. SamePayments db db') (λ r db'. IsCovered c id db' r)
                    (book_payment p c x) (finish_post p c id x) db
                    (Ensures-map (λ b db'. Writes p c db x b db') _ _
                      (λ b db' w. (
                        w.reference_same.supplier_payments,
                        w.reference_same.supplier_payment_allocations,
                      ))
                      (book_payment_shape p c db x))
                    λ b db4 s.
                      finish_post-IsCovered id x b db4
                        (record {
                          found = ap (find (payment_key c id)) s.0 ∙ l.payment.found;
                          rows = l.payment.rows ∙ ap (select (allocation_of id)) (sym s.1);
                        })
                        t.1)))
