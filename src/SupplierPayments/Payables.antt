-- ===== src/SupplierPayments/Payables.antt =====
-- The invariant of the bills and their allocations, and the parts of the operations that keep it.
use noryx_platform.Common.{
  arith, ℕ, ◌≤◌, ◌≡◌, refl, ap, Bool, true, false, List, [], ◌∷◌, map, All, All-both, All-append,
  if◌then◌else◌,
}
use noryx_platform.Common.Rows.{select}
use noryx_platform.Database.{Db, Caller, Platform, SupplierPaymentAllocation}
use noryx_platform.Database.Tx.{Ensures, Ensures-map, Ensures-bind, Ensures-both}
use noryx_platform.SupplierPayments.{
  CreateSupplierPaymentAllocationDto, as_dto, wanted, Postable, Booked, commit_payment,
  settle_bills, finish_post, Applicable, insert_allocations, settle_applied, new_allocation,
  Reversible, unsettle_bills, show_reversed, finish_reverse,
}
use noryx_platform.SupplierPayments.Frames.{
  OnlyBills, Fits, settle_bills-OnlyBills, unsettle_bills-OnlyBills,
}
use noryx_platform.SupplierPayments.Unwinding.{show_same}
use noryx_platform.SupplierPayments.Balances.{
  HasBills, Reads, settle_bills-HasBills, unsettle_bills-HasBills,
}

abbrev pub IsPositive : CreateSupplierPaymentAllocationDto → Type 0
IsPositive a = 1 ≤ a.allocated_amount_minor

pub record IsPayables (db : Db) : Type 0 where
  pub bills : HasBills db.supplier_bills
  pub positive :
      All
        (λ (a : SupplierPaymentAllocation). 1 ≤ a.allocated_amount_minor)
        db.supplier_payment_allocations

pub IsPositive-selected :
    (q : SupplierPaymentAllocation → Bool) (rows : List SupplierPaymentAllocation)
    → All (λ (a : SupplierPaymentAllocation). 1 ≤ a.allocated_amount_minor) rows
    → All IsPositive (map as_dto (select q rows))
IsPositive-selected q [] h = tt
IsPositive-selected q (a ∷ rows) h = go (q a) (IsPositive-selected q rows h.1)
  where
    go :
        (b : Bool)
        → All IsPositive (map as_dto (select q rows))
        → All IsPositive (map as_dto (if b then a ∷ select q rows else select q rows))
    go true k = (h.0, k)
    go false k = k

positive_inserted :
    (c : Caller) (id date : ℕ) (ls : List CreateSupplierPaymentAllocationDto)
    → All IsPositive ls
    → All
        (λ (a : SupplierPaymentAllocation). 1 ≤ a.allocated_amount_minor)
        (map (new_allocation c id date) ls)
positive_inserted c id date [] h = tt
positive_inserted c id date (a ∷ ls) h = (h.0, positive_inserted c id date ls h.1)

-- The two tables as they are elsewhere.
abbrev pub SamePayables : Db → Db → Type 0
SamePayables db db' =
    (db'.supplier_bills ≡ db.supplier_bills)
    × (db'.supplier_payment_allocations ≡ db.supplier_payment_allocations)

pub IsPayables-same : (db db' : Db) → SamePayables db db' → IsPayables db → IsPayables db'
IsPayables-same db db' s h = record { bills = rw s.0 h.bills; positive = rw s.1 h.positive }

module _ (p : Platform) (c : Caller) where
  commit_same :
      (id entry period : ℕ) (reference : _) (db : Db)
      → Ensures (λ r db'. SamePayables db db') (commit_payment p c id reference entry period db)
  unfolding commit_payment
  commit_same id entry period reference db = ground arith

  settle_bills-IsPayables :
      (bills : _) (ls : List CreateSupplierPaymentAllocationDto) (db : Db)
      → IsPayables db
      → Reads bills db.supplier_bills
      → All (Fits bills) ls
      → All IsPositive ls
      → Ensures (λ rows db'. IsPayables db') (settle_bills c bills ls db)
  settle_bills-IsPayables bills ls db h reads fits positive =
      Ensures-map (λ rows db'. HasBills db'.supplier_bills × OnlyBills db db')
        (λ rows db'. IsPayables db') (settle_bills c bills ls db)
        (λ rows db' s. record {
          bills = s.0;
          positive = rw (ap (λ (d : Db). d.supplier_payment_allocations) s.1) h.positive;
        })
        (Ensures-both _ _ _
          (settle_bills-HasBills c bills ls db h.bills reads
            (All-both (Fits bills) IsPositive ls fits positive))
          (settle_bills-OnlyBills c bills ls db))

  pub finish_post-IsPayables :
      (id : ℕ) (x : Postable) (b : Booked) (db : Db)
      → IsPayables db
      → Reads x.bills db.supplier_bills
      → All (Fits x.bills) (wanted x.before)
      → All IsPositive (wanted x.before)
      → Ensures (λ r db'. IsPayables db') (finish_post p c id x b db)
  unfolding finish_post
  finish_post-IsPayables id x b db h reads fits positive =
      Ensures-bind (λ r db'. SamePayables db db') (λ r db'. IsPayables db')
        (commit_payment p c id b.reference b.entry.entry.id x.period.id) _ db
        (commit_same id b.entry.entry.id x.period.id b.reference db)
        λ posted db1 s.
          Ensures-bind (λ rows db'. IsPayables db') (λ r db'. IsPayables db')
            (settle_bills c x.bills (wanted x.before)) _ db1
            (settle_bills-IsPayables x.bills (wanted x.before) db1 (IsPayables-same db db1 s h)
              (rw s.0 reads) fits positive)
            λ rows db2 k. record { bills = k.bills; positive = k.positive }

  pub insert-IsPayables :
      (id date : ℕ) (ls : List CreateSupplierPaymentAllocationDto) (db : Db)
      → All IsPositive ls
      → IsPayables db
      → Ensures
          (λ rows db'. IsPayables db' × (db'.supplier_bills ≡ db.supplier_bills))
          (insert_allocations c id ls date db)
  unfolding insert_allocations
  insert-IsPayables id date ls db positive h = (
    record {
      bills = h.bills;
      positive =
          All-append _ db.supplier_payment_allocations _ h.positive
            (positive_inserted c id date ls positive);
    },
    refl,
  )

  pub settle_applied-IsPayables :
      (id : ℕ) (ls : List CreateSupplierPaymentAllocationDto) (x : Applicable)
      (inserted : List SupplierPaymentAllocation) (db : Db)
      → IsPayables db
      → Reads x.bills db.supplier_bills
      → All (Fits x.bills) ls
      → All IsPositive ls
      → Ensures (λ r db'. IsPayables db') (settle_applied p c id ls x inserted db)
  unfolding settle_applied
  settle_applied-IsPayables id ls x inserted db h reads fits positive =
      Ensures-bind (λ rows db'. IsPayables db') (λ r db'. IsPayables db')
        (settle_bills c x.bills ls) _ db
        (settle_bills-IsPayables x.bills ls db h reads fits positive)
        λ rows db1 k. record { bills = k.bills; positive = k.positive }

  pub finish_reverse-IsPayables :
      (id : ℕ) (x : Reversible) (db : Db)
      → IsPayables db
      → Reads x.bills db.supplier_bills
      → Ensures (λ r db'. IsPayables db') (finish_reverse p c id x db)
  unfolding finish_reverse
  finish_reverse-IsPayables id x db h reads =
      Ensures-bind (λ rows db'. HasBills db'.supplier_bills × OnlyBills db db')
        (λ r db'. IsPayables db') (unsettle_bills c x.bills (wanted x.before))
        (show_reversed p c id x.before) db
        (Ensures-both _ _ _ (unsettle_bills-HasBills c x.bills (wanted x.before) db h.bills reads)
          (unsettle_bills-OnlyBills c x.bills (wanted x.before) db))
        λ rows db1 s.
          let here : IsPayables db1 = record {
            bills = s.0;
            positive = rw (ap (λ (d : Db). d.supplier_payment_allocations) s.1) h.positive;
          } in
          Ensures-map _ (λ r db'. IsPayables db') (show_reversed p c id x.before rows db1)
            (λ r db' same. IsPayables-same db1 db' same here) (show_same p c id x.before rows db1)
