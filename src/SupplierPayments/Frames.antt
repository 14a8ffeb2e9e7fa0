-- ===== src/SupplierPayments/Frames.antt =====
-- What the operations of SupplierPaymentsService read, and which tables their parts write.
use noryx_platform.Common.{◌+◌, ℕ, ◌≡◌, ◌≤◌, refl, ap, ◌∙◌, some, List, [], ◌∷◌, arith, All}
use noryx_platform.Common.Rows.{find, update_where}
use noryx_platform.Database.{Db, Caller, SupplierBill}
use noryx_platform.Database.Tx.{pure, Ensures, Ensures-map, Ensures-bind}
use noryx_platform.SupplierPayments.{
  CreateSupplierPaymentAllocationDto, has_bill_id, bill_target, check_bill, check_bills,
  settle_bills, unsettle_bill, unsettle_bills, settle_bill,
}
use noryx_platform.Settlement.{settle, unsettle, fits}

-- Only the bills have changed.
abbrev pub OnlyBills : Db → Db → Type 0
OnlyBills db db' = db' ≡ record db { supplier_bills = db'.supplier_bills }

OnlyBills-trans : (db db' db'' : Db) → OnlyBills db db' → OnlyBills db' db'' → OnlyBills db db''
OnlyBills-trans db db' db'' h k =
    k ∙ ap (λ (d : Db). record d { supplier_bills = db''.supplier_bills }) h

-- The bill of an allocation was read, and what is allocated fits into what is outstanding.
abbrev pub Fits : List SupplierBill → CreateSupplierPaymentAllocationDto → Type 0
Fits bills a =
    (b : SupplierBill) × (find (has_bill_id a.bill_id) bills ≡ some b)
    × (b.paid_minor + a.allocated_amount_minor ≤ b.total_minor)

check_bill_shape :
    (supplier : ℕ) (bills : List SupplierBill) (a : CreateSupplierPaymentAllocationDto) (db : Db)
    → Ensures (λ u db'. (db' ≡ db) × Fits bills a) (check_bill supplier bills a db)
unfolding check_bill fits
check_bill_shape supplier bills a db = ground arith

pub check_bills_shape :
    (supplier : ℕ) (bills : List SupplierBill) (ls : List CreateSupplierPaymentAllocationDto)
    (db : Db)
    → Ensures (λ u db'. (db' ≡ db) × All (Fits bills) ls) (check_bills supplier bills ls db)
unfolding check_bills
check_bills_shape supplier bills [] db = (refl, tt)
check_bills_shape supplier bills (a ∷ ls) db =
    Ensures-bind (λ u db'. (db' ≡ db) × Fits bills a)
      (λ u db'. (db' ≡ db) × All (Fits bills) (a ∷ ls)) (check_bill supplier bills a)
      (λ u. check_bills supplier bills ls) db (check_bill_shape supplier bills a db)
      λ u db1 h.
        Ensures-map (λ u db'. (db' ≡ db1) × All (Fits bills) ls) _ _
          (λ u db' k. (k.0 ∙ h.0, (h.1, k.1))) (check_bills_shape supplier bills ls db1)

module _ (c : Caller) (bills : List SupplierBill) where
  -- One round of a loop: a bill that was read, and the table after.
  pub record Round (f : ℕ → SupplierBill → SupplierBill → SupplierBill)
      (a : CreateSupplierPaymentAllocationDto) (db db' : Db) : Type 0 where
    pub bill : SupplierBill
    pub found : find (has_bill_id a.bill_id) bills ≡ some bill
    pub only : OnlyBills db db'
    pub after :
        db'.supplier_bills
        ≡ update_where (has_bill_id bill.id) (f a.allocated_amount_minor bill) db.supplier_bills

  pub settle_bill_shape :
      (a : CreateSupplierPaymentAllocationDto) (db : Db)
      → Ensures (λ row db'. Round (settle bill_target) a db db') (settle_bill c bills a db)
  unfolding settle_bill
  settle_bill_shape a db = ground arith

  pub unsettle_bill_shape :
      (a : CreateSupplierPaymentAllocationDto) (db : Db)
      → Ensures (λ row db'. Round (unsettle bill_target) a db db') (unsettle_bill c bills a db)
  unfolding unsettle_bill
  unsettle_bill_shape a db = ground arith

  -- What each round keeps, a loop keeps: `P` may speak of the allocations that are left.
  pub settle_bills-keeps :
      (P : List CreateSupplierPaymentAllocationDto → Db → Type 0)
      → ((a : CreateSupplierPaymentAllocationDto) (ls : List CreateSupplierPaymentAllocationDto)
            (db db' : Db)
          → P (a ∷ ls) db
          → Round (settle bill_target) a db db'
          → P ls db')
      → (ls : List CreateSupplierPaymentAllocationDto) (db : Db) → P ls db
      → Ensures (λ rows db'. P [] db') (settle_bills c bills ls db)
  unfolding settle_bills
  settle_bills-keeps P step [] db h = h
  settle_bills-keeps P step (a ∷ ls) db h =
      Ensures-bind (λ row db'. Round (settle bill_target) a db db') (λ rows db'. P [] db')
        (settle_bill c bills a) _ db (settle_bill_shape a db)
        λ row db1 r.
          Ensures-bind (λ rows db'. P [] db') (λ rows db'. P [] db') (settle_bills c bills ls)
            (λ rows. pure (row ∷ rows)) db1
            (settle_bills-keeps P step ls db1 (step a ls db db1 h r)) λ rows db2 k. k

  pub unsettle_bills-keeps :
      (P : List CreateSupplierPaymentAllocationDto → Db → Type 0)
      → ((a : CreateSupplierPaymentAllocationDto) (ls : List CreateSupplierPaymentAllocationDto)
            (db db' : Db)
          → P (a ∷ ls) db
          → Round (unsettle bill_target) a db db'
          → P ls db')
      → (ls : List CreateSupplierPaymentAllocationDto) (db : Db) → P ls db
      → Ensures (λ rows db'. P [] db') (unsettle_bills c bills ls db)
  unfolding unsettle_bills
  unsettle_bills-keeps P step [] db h = h
  unsettle_bills-keeps P step (a ∷ ls) db h =
      Ensures-bind (λ row db'. Round (unsettle bill_target) a db db') (λ rows db'. P [] db')
        (unsettle_bill c bills a) _ db (unsettle_bill_shape a db)
        λ row db1 r.
          Ensures-bind (λ rows db'. P [] db') (λ rows db'. P [] db') (unsettle_bills c bills ls)
            (λ rows. pure (row ∷ rows)) db1
            (unsettle_bills-keeps P step ls db1 (step a ls db db1 h r)) λ rows db2 k. k

  pub settle_bills-OnlyBills :
      (ls : List CreateSupplierPaymentAllocationDto) (db : Db)
      → Ensures (λ rows db'. OnlyBills db db') (settle_bills c bills ls db)
  settle_bills-OnlyBills ls db =
      settle_bills-keeps (λ l db'. OnlyBills db db')
        (λ a l db1 db2 h r. OnlyBills-trans db db1 db2 h r.only) ls db refl

  pub unsettle_bills-OnlyBills :
      (ls : List CreateSupplierPaymentAllocationDto) (db : Db)
      → Ensures (λ rows db'. OnlyBills db db') (unsettle_bills c bills ls db)
  unsettle_bills-OnlyBills ls db =
      unsettle_bills-keeps (λ l db'. OnlyBills db db')
        (λ a l db1 db2 h r. OnlyBills-trans db db1 db2 h r.only) ls db refl
