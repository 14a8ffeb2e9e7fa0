-- ===== src/SupplierPayments/Unwinding.antt =====
-- reverse(): what is left paid of a bill that the payment had settled. The loop writes each bill
-- from the row that was read before it started, so of several allocations to one bill the last
-- one decides.
use noryx_platform.Common.{
  ℕ, ◌-◌, ◌≡◌, refl, ap, ◌∙◌, sym, Bool, true, false, Option, none, some, List, [], ◌∷◌, map, arith,
  ◌==◌, if◌then◌else◌, or_else, Bool-cases, inl, inr,
}
use noryx_platform.Common.Keys.{IsKeyed, IsOnly-find}
use noryx_platform.Common.Rows.{
  find, select, update_where, find_holds, All-find, find-select, find-update_where, find-update_ne,
}
use noryx_platform.Database.{Db, Caller, Platform, AuditLog, PaymentWithAllocations, SupplierBill}
use noryx_platform.Database.Tx.{Ensures, Ensures-map, Ensures-bind}
use noryx_platform.Journal.{ReverseJournalEntryDto, complete_reversal_posting}
use noryx_platform.Books.Entries.{Completes, complete_shape}
use noryx_platform.Settlement.{unsettle}
use noryx_platform.SupplierPayments.{
  CreateSupplierPaymentAllocationDto, allocation_of, as_dto, bill_ids, has_bill_id, bill_target,
  wanted, unsettle_bills, show_reversed, finish_reverse, Reversible, check_reverse, reverse,
  payment_reversal_memo,
}
use noryx_platform.SupplierPayments.Frames.{Round, unsettle_bills-keeps}
use noryx_platform.SupplierPayments.Loads.{bills_at, LoadsReverse, check_reverse_shape}

-- The amount of the last allocation to a bill, if there is one.
abbrev pub last_amount : ℕ → List CreateSupplierPaymentAllocationDto → Option ℕ
last_amount k [] = none
last_amount k (a ∷ ls) = elim (last_amount k ls) [
  | none ↦ if a.bill_id == k then some a.allocated_amount_minor else none
  | some n ↦ some n
]

-- An amount less another, if there is one.
abbrev pub less : ℕ → Option ℕ → ℕ
less n none = n
less n (some a) = n - a

-- The row of a bill that was read is the row of the table.
pub find-bills_at :
    (c : Caller) (ids : List ℕ) (k : ℕ) (b bill : SupplierBill) (db : Db)
    → IsKeyed (λ (x : SupplierBill). x.id) db.supplier_bills
    → find (has_bill_id k) db.supplier_bills ≡ some b
    → find (has_bill_id k) (bills_at c ids db) ≡ some bill
    → bill ≡ b
find-bills_at c ids k b bill db u there found =
    let e = find-select (has_bill_id k) _ db.supplier_bills in
    let only =
      IsOnly-find (λ (x : SupplierBill). x.id) (has_bill_id k) k db.supplier_bills b (λ x t. t) u
        there in
    let at : (bill.id == k) ≡ true = find_holds (has_bill_id k) (bills_at c ids db) bill found in
    All-find (λ (x : SupplierBill). (x.id == k) ≡ true → x ≡ b) _ db.supplier_bills bill only
      (sym e ∙ found) at

less_ends : (n : ℕ) (o : Option ℕ) → elim o as (λ _. ℕ) [ none ↦ n | some a ↦ n - a ] ≡ less n o
less_ends n none = refl
less_ends n (some a) = refl

-- The rounds that follow decide, or else this one.
module _ (o : Option ℕ) (amount old b n : ℕ) where
  hit_ends :
      (new : ℕ)
      → new ≡ b - amount
      → (t : Bool) → t ≡ true
      → elim (elim o as (λ _. Option ℕ) [
        | none ↦ if t then some amount else none
        | some m ↦ some m
      ])
          as (λ _. ℕ) [ none ↦ old | some a ↦ b - a ]
        ≡ n
      → elim o as (λ _. ℕ) [ none ↦ new | some a ↦ b - a ] ≡ n
  hit_ends new e t s h = ground arith

  miss_ends :
      (t : Bool)
      → t ≡ false
      → elim (elim o as (λ _. Option ℕ) [
        | none ↦ if t then some amount else none
        | some m ↦ some m
      ])
          as (λ _. ℕ) [ none ↦ old | some a ↦ b - a ]
        ≡ n
      → elim o as (λ _. ℕ) [ none ↦ old | some a ↦ b - a ] ≡ n
  miss_ends t s h = ground arith

module _ (k : ℕ) (b : SupplierBill) (n : ℕ) where
  -- The row as it stands, and what the allocations that are left make of it.
  record Leaves (ls : List CreateSupplierPaymentAllocationDto) (db : Db) : Type 0 where
    row : SupplierBill
    there : find (has_bill_id k) db.supplier_bills ≡ some row
    ends :
        elim (last_amount k ls) as (λ _. ℕ) [ none ↦ row.paid_minor | some a ↦ b.paid_minor - a ]
        ≡ n

  Leaves-Round :
      (bills : List SupplierBill) (c : Caller)
      → ((bill : SupplierBill) → find (has_bill_id k) bills ≡ some bill → bill ≡ b)
      → (a : CreateSupplierPaymentAllocationDto) (ls : List CreateSupplierPaymentAllocationDto)
        (db db' : Db)
      → Leaves (a ∷ ls) db
      → Round c bills (unsettle bill_target) a db db'
      → Leaves ls db'
  unfolding unsettle
  Leaves-Round bills c read a ls db db' h r =
      let at : (r.bill.id == a.bill_id) ≡ true =
        find_holds (has_bill_id a.bill_id) bills r.bill r.found in
      let f = unsettle bill_target a.allocated_amount_minor r.bill in
      elim (Bool-cases (r.bill.id == k)) [
        | inl t ↦
            let hit : a.bill_id ≡ k = ground arith in
            let here : r.bill.id ≡ k = ground arith in
            let same : r.bill ≡ b =
              read r.bill (ap (λ j. find (has_bill_id j) bills) (sym hit) ∙ r.found) in
            record {
              row = f h.row;
              there =
                  ap (find (has_bill_id k)) r.after
                  ∙ ap
                      (λ j. find (has_bill_id k) (update_where (has_bill_id j) f db.supplier_bills))
                      here
                  ∙ find-update_where (has_bill_id k) f db.supplier_bills h.row (λ x. refl) h.there;
              ends =
                  hit_ends (last_amount k ls) a.allocated_amount_minor h.row.paid_minor b.paid_minor
                    n (r.bill.paid_minor - a.allocated_amount_minor)
                    (ap (λ (x : SupplierBill). x.paid_minor - a.allocated_amount_minor) same)
                    (a.bill_id == k) (ground arith) h.ends;
            }
        | inr t ↦ record {
          row = h.row;
          there =
              ap (find (has_bill_id k)) r.after
              ∙ find-update_ne (has_bill_id k) (has_bill_id r.bill.id) f db.supplier_bills
                  (λ x. refl) (λ x s. ground arith)
              ∙ h.there;
          ends =
              miss_ends (last_amount k ls) a.allocated_amount_minor h.row.paid_minor b.paid_minor n
                (a.bill_id == k) (ground arith) h.ends;
        }
      ]

-- What is left paid of a bill after reverse().
abbrev pub LeftPaid : ℕ → ℕ → Db → Type 0
LeftPaid k n db =
    (b : SupplierBill) × (find (has_bill_id k) db.supplier_bills ≡ some b) × (b.paid_minor ≡ n)

pub show_same :
    (p : Platform) (c : Caller) (id : ℕ) (before : PaymentWithAllocations) (rows : List AuditLog)
    (db : Db)
    → Ensures
        (λ r db'.
          (db'.supplier_bills ≡ db.supplier_bills)
          × (db'.supplier_payment_allocations ≡ db.supplier_payment_allocations))
        (show_reversed p c id before rows db)
unfolding show_reversed
show_same p c id before rows db = ground arith

module _ (p : Platform) (c : Caller) (k : ℕ) (b : SupplierBill) where
  unwind :
      (id : ℕ) (x : Reversible) (db : Db)
      → ((bill : SupplierBill) → find (has_bill_id k) x.bills ≡ some bill → bill ≡ b)
      → find (has_bill_id k) db.supplier_bills ≡ some b
      → Ensures
          (λ r db'. LeftPaid k (less b.paid_minor (last_amount k (wanted x.before))) db')
          (finish_reverse p c id x db)
  unfolding finish_reverse
  unwind id x db read there =
      let n = less b.paid_minor (last_amount k (wanted x.before)) in
      Ensures-bind (λ rows db'. Leaves k b n [] db') (λ r db'. LeftPaid k n db')
        (unsettle_bills c x.bills (wanted x.before)) (show_reversed p c id x.before) db
        (unsettle_bills-keeps c x.bills (Leaves k b n) (Leaves-Round k b n x.bills c read)
          (wanted x.before) db
          (record {
            row = b;
            there = there;
            ends = less_ends b.paid_minor (last_amount k (wanted x.before));
          }))
        λ rows db1 h.
          Ensures-map _ (λ r db'. LeftPaid k n db') (show_reversed p c id x.before rows db1)
            (λ r db' same. (h.row, ap (find (has_bill_id k)) same.0 ∙ h.there, h.ends))
            (show_same p c id x.before rows db1)

  -- When bills have different ids, a reversal of a payment that succeeds leaves of each bill paid
  -- what was paid before, less the last of the payment's allocations to that bill: an earlier
  -- allocation of the payment to the same bill stays paid.
  pub reverse_restores_last :
      (id : ℕ) (dto : ReverseJournalEntryDto) (db : Db)
      → IsKeyed (λ (x : SupplierBill). x.id) db.supplier_bills
      → find (has_bill_id k) db.supplier_bills ≡ some b
      → Ensures
          (λ r db'.
            LeftPaid k
              (less b.paid_minor (
                last_amount k
                  (map as_dto (select (allocation_of id) db.supplier_payment_allocations))))
              db')
          (reverse p c id dto db)
  unfolding reverse
  reverse_restores_last id dto db u there =
      let date = or_else dto.transaction_date p.today in
      Ensures-bind (λ x db'. LoadsReverse p c id db db' x) _ (check_reverse p c id date) _ db
        (check_reverse_shape p c id db date)
        λ x db1 l.
          let memo = or_else dto.memo (payment_reversal_memo x.before) in
          rw (l.unchanged, ← l.payment.rows)
            (Ensures-bind (λ w db'. db'.supplier_bills ≡ db.supplier_bills)
              (λ r db'. LeftPaid k (less b.paid_minor (last_amount k (wanted x.before))) db')
              (complete_reversal_posting p c x.original x.period date memo)
              (λ w. finish_reverse p c id x) db
              (Ensures-map (λ r db'. Completes p c db db' r x.original x.period date memo) _ _
                (λ w db' s. s.reference.supplier_bills)
                (complete_shape p c db x.original x.period date memo))
              λ w db2 same.
                unwind id x db2
                  (λ bill found.
                    find-bills_at c (bill_ids (wanted x.before)) k b bill db u there
                      (ap (find (has_bill_id k)) (sym l.bills) ∙ found))
                  (ap (find (has_bill_id k)) same ∙ there))
