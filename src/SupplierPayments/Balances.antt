-- ===== src/SupplierPayments/Balances.antt =====
-- No operation pays more of a bill than is due, and the payment status of a bill says how much of
-- it is paid: the constraint supplier_bills_paid_minor_within_total, and what the status means.
use noryx_platform.Common.{
  ℕ, ◌-◌, All-both, ◌+◌, ◌≤◌, ◌≡◌, refl, ap, ◌∙◌, sym, true, some, List, [], ◌∷◌, arith, ◌==◌, All,
  All-map,
}
use mathlib.Core.Option.{some-injective}
use noryx_platform.Common.Keys.{IsKeyed, IsKeyed-update_where, IsOnly-find}
use noryx_platform.Common.Rows.{
  find, update_where, find_holds, All-find, find-select, All-update_where,
}
use noryx_platform.Database.{Db, Caller, SupplierBill}
use noryx_platform.Database.Tx.{Ensures, Ensures-map}
use noryx_platform.Settlement.{settle, unsettle, unsettled_status}
use noryx_platform.Settlement.Mirror.{status_agrees}
use noryx_platform.SupplierPayments.{
  CreateSupplierPaymentAllocationDto, has_bill_id, bill_target, settle_bills, unsettle_bills,
}
use noryx_platform.SupplierPayments.Frames.{Fits, Round, settle_bills-keeps, unsettle_bills-keeps}
use noryx_platform.SupplierPayments.Loads.{bills_at}

-- No more is paid than is due, and the status is the one that the amounts ask for.
abbrev pub IsPaidUp : SupplierBill → Type 0
IsPaidUp b =
    (b.paid_minor ≤ b.total_minor)
    × (b.payment_status ≡ unsettled_status b.total_minor b.paid_minor)

pub record HasBills (bills : List SupplierBill) : Type 0 where
  pub keyed : IsKeyed (λ (b : SupplierBill). b.id) bills
  pub paid_up : All IsPaidUp bills

-- A row of the table with the id of a bill that was read has its total.
abbrev pub Reads : List SupplierBill → List SupplierBill → Type 0
Reads bills rows =
    (k : ℕ) (b : SupplierBill)
    → find (has_bill_id k) bills ≡ some b
    → (b.paid_minor ≤ b.total_minor)
      × All (λ (x : SupplierBill). (x.id == k) ≡ true → x.total_minor ≡ b.total_minor) rows

pub bills_at-Reads :
    (c : Caller) (ids : List ℕ) (db : Db)
    → HasBills db.supplier_bills
    → Reads (bills_at c ids db) db.supplier_bills
bills_at-Reads c ids db h k b found =
    let e = sym (find-select (has_bill_id k) _ db.supplier_bills) ∙ found in
    (
      (All-find IsPaidUp _ db.supplier_bills b h.paid_up e).0,
      All-map _ _ db.supplier_bills (λ x only t. ap (λ (y : SupplierBill). y.total_minor) (only t))
          (IsOnly-find (λ (x : SupplierBill). x.id) _ k db.supplier_bills b (λ x t. ground arith)
            h.keyed e),
    )

-- A positive allocation that fits.
abbrev pub Fitting : List SupplierBill → CreateSupplierPaymentAllocationDto → Type 0
Fitting bills a = Fits bills a × (1 ≤ a.allocated_amount_minor)

module _ (c : Caller) (bills : List SupplierBill) where
  record Settling (ls : List CreateSupplierPaymentAllocationDto) (db : Db) : Type 0 where
    rows : HasBills db.supplier_bills
    reads : Reads bills db.supplier_bills
    fit : All (Fitting bills) ls

  -- A change of two columns of one row.
  module _ (f : SupplierBill → SupplierBill) (k : ℕ) (db db' : Db)
      (same_id : (x : SupplierBill) → (f x).id ≡ x.id)
      (same_total : (x : SupplierBill) → (f x).total_minor ≡ x.total_minor)
      (reads : Reads bills db.supplier_bills)
      (after : db'.supplier_bills ≡ update_where (has_bill_id k) f db.supplier_bills) where
    Reads-round : Reads bills db'.supplier_bills
    Reads-round j b found = (
      (reads j b found).0,
      rw after (
          All-update_where
            (λ (x : SupplierBill). (x.id == j) ≡ true → x.total_minor ≡ b.total_minor)
            (has_bill_id k) f db.supplier_bills
            (λ x hx kx t. same_total x ∙ hx (ap (λ n. n == j) (sym (same_id x)) ∙ t))
            (reads j b found).1),
    )

    rows-round :
        (j : ℕ) (b : SupplierBill)
        → find (has_bill_id j) bills ≡ some b
        → (k == j) ≡ true
        → ((x : SupplierBill) → x.total_minor ≡ b.total_minor → IsPaidUp (f x))
        → HasBills db.supplier_bills
        → HasBills db'.supplier_bills
    rows-round j b found at step h =
        let Totals = λ (x : SupplierBill). (x.id == j) ≡ true → x.total_minor ≡ b.total_minor in
        rw after (record {
          keyed =
              IsKeyed-update_where (λ (x : SupplierBill). x.id) (has_bill_id k) f db.supplier_bills
                same_id h.keyed;
          paid_up =
              All-map (λ x. IsPaidUp x × Totals x) IsPaidUp _ (λ x both. both.0)
                (All-update_where (λ x. IsPaidUp x × Totals x) (has_bill_id k) f db.supplier_bills
                  (λ x both t. (
                    step x (both.1 (ground arith)),
                    λ s. same_total x ∙ both.1 (ap (λ n. n == j) (sym (same_id x)) ∙ s),
                  ))
                  (All-both IsPaidUp Totals db.supplier_bills h.paid_up (reads j b found).1));
        })

  settle-Round :
      (a : CreateSupplierPaymentAllocationDto) (ls : List CreateSupplierPaymentAllocationDto)
      (db db' : Db)
      → Settling (a ∷ ls) db
      → Round c bills (settle bill_target) a db db'
      → Settling ls db'
  unfolding settle
  settle-Round a ls db db' h r =
      let (b, e, room) = h.fit.0.0 in
      let same : r.bill ≡ b = some-injective _ _ (sym r.found ∙ e) in
      let at : (r.bill.id == a.bill_id) ≡ true =
        find_holds (has_bill_id a.bill_id) bills r.bill r.found in
      let f = settle bill_target a.allocated_amount_minor r.bill in
      let n = r.bill.paid_minor + a.allocated_amount_minor in
      let room' : n ≤ r.bill.total_minor = rw same room in
      let due : 1 ≤ r.bill.total_minor = omega (arith, room', h.fit.0.1) in
      record {
        rows =
            rows-round f r.bill.id db db' (λ x. refl) (λ x. refl) h.reads r.after a.bill_id r.bill
              r.found at
              (λ x total. (
                rw total room',
                status_agrees r.bill.total_minor n due ∙ ap (λ m. unsettled_status m n) (sym total),
              ))
              h.rows;
        reads = Reads-round f r.bill.id db db' (λ x. refl) (λ x. refl) h.reads r.after;
        fit = h.fit.1;
      }

  -- Settling positive allocations that each fit into what is outstanding.
  pub settle_bills-HasBills :
      (ls : List CreateSupplierPaymentAllocationDto) (db : Db)
      → HasBills db.supplier_bills
      → Reads bills db.supplier_bills
      → All (Fitting bills) ls
      → Ensures (λ rows db'. HasBills db'.supplier_bills) (settle_bills c bills ls db)
  settle_bills-HasBills ls db h reads fit =
      Ensures-map (λ rows db'. Settling [] db') (λ rows db'. HasBills db'.supplier_bills)
        (settle_bills c bills ls db) (λ rows db' s. s.rows)
        (settle_bills-keeps c bills Settling settle-Round ls db
          (record { rows = h; reads = reads; fit = fit }))

  record Unsettling (ls : List CreateSupplierPaymentAllocationDto) (db : Db) : Type 0 where
    rows : HasBills db.supplier_bills
    reads : Reads bills db.supplier_bills

  unsettle-Round :
      (a : CreateSupplierPaymentAllocationDto) (ls : List CreateSupplierPaymentAllocationDto)
      (db db' : Db)
      → Unsettling (a ∷ ls) db
      → Round c bills (unsettle bill_target) a db db'
      → Unsettling ls db'
  unfolding unsettle
  unsettle-Round a ls db db' h r =
      let at : (r.bill.id == a.bill_id) ≡ true =
        find_holds (has_bill_id a.bill_id) bills r.bill r.found in
      let f = unsettle bill_target a.allocated_amount_minor r.bill in
      let n = r.bill.paid_minor - a.allocated_amount_minor in
      let room : n ≤ r.bill.total_minor = omega (arith, (h.reads a.bill_id r.bill r.found).0) in
      record {
        rows =
            rows-round f r.bill.id db db' (λ x. refl) (λ x. refl) h.reads r.after a.bill_id r.bill
              r.found at (λ x total. (rw total room, ap (λ m. unsettled_status m n) (sym total)))
              h.rows;
        reads = Reads-round f r.bill.id db db' (λ x. refl) (λ x. refl) h.reads r.after;
      }

  -- Unsettling any allocations, also several of one bill.
  pub unsettle_bills-HasBills :
      (ls : List CreateSupplierPaymentAllocationDto) (db : Db)
      → HasBills db.supplier_bills
      → Reads bills db.supplier_bills
      → Ensures (λ rows db'. HasBills db'.supplier_bills) (unsettle_bills c bills ls db)
  unsettle_bills-HasBills ls db h reads =
      Ensures-map (λ rows db'. Unsettling [] db') (λ rows db'. HasBills db'.supplier_bills)
        (unsettle_bills c bills ls db) (λ rows db' s. s.rows)
        (unsettle_bills-keeps c bills Unsettling unsettle-Round ls db
          (record { rows = h; reads = reads }))
