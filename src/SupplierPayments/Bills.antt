-- ===== src/SupplierPayments/Bills.antt =====
-- The loops of post(), applyAllocation() and reverse() over the allocated bills. Each reads the
-- bills once, before it starts, and writes a bill from the row that was read.
use noryx_platform.Common.{
  ℕ, ◌-◌, Bool, ◌&&◌, Option, none, some, List, [], ◌∷◌, contains, ◌==◌, false, true,
}
use noryx_platform.Common.Rows.{find, select, update_where}
use noryx_platform.Database.{
  Caller, AuditLog, AuditAction, EntityType, Snapshot, bill_row, unprocessable, internal,
  no_such_row, bill_missing, bill_not_posted, bill_of_other_supplier, exceeds_outstanding,
  DocumentStatus, draft_document, posted_document, SupplierBill, SupplierPaymentAllocation,
}
use noryx_platform.Database.Tx.{ok, err, Tx, pure, gets, or_throw, guard, modify, ◌>>=◌, ◌>>◌}
use noryx_platform.Journal.{in_scope}
use noryx_platform.Settlement.{Settleable, fits, settle, unsettle_target}
use noryx_platform.SupplierPayments.Lookup.{CreateSupplierPaymentAllocationDto}

-- What the loops read of an allocation row.
abbrev pub as_dto : SupplierPaymentAllocation → CreateSupplierPaymentAllocationDto
as_dto a = record { bill_id = a.bill_id; allocated_amount_minor = a.allocated_amount_minor }

abbrev pub bill_target : Settleable SupplierBill
bill_target = record {
  row_id = λ b. b.id;
  paid = λ b. b.paid_minor;
  total = λ b. b.total_minor;
  set_paid = λ n s b. record b { paid_minor = n; payment_status = s };
}

abbrev pub is_posted_document : DocumentStatus → Bool
is_posted_document draft_document = false
is_posted_document posted_document = true

abbrev pub has_bill_id : ℕ → SupplierBill → Bool
has_bill_id id b = b.id == id

abbrev pub map_bill : Option SupplierBill → Option Snapshot
map_bill none = none
map_bill (some b) = some (bill_row b)

module _ (c : Caller) where
  -- The bills that are locked and read: `billsById` looks one up by its id. The order of the query
  -- is that of the locks.
  unfoldable pub lock_bills : List ℕ → Tx (List SupplierBill)
  lock_bills ids = gets λ db.
      select (λ (b : SupplierBill). contains b.id ids && in_scope c b.tenant_id b.legal_entity_id)
        db.supplier_bills

  abbrev pub bill_audit : SupplierBill → Option SupplierBill → AuditLog
  bill_audit bill updated = record {
    tenant_id = c.tenant_id;
    legal_entity_id = c.legal_entity_id;
    actor_user_id = c.actor_user_id;
    action = AuditAction.update;
    entity_type = EntityType.supplier_bill;
    entity_id = bill.id;
    before_state = some (bill_row bill);
    after_state = map_bill updated;
  }

-- The checks of one allocation under lock. The message shows what is outstanding.
unfoldable pub check_bill :
    ℕ → List SupplierBill → CreateSupplierPaymentAllocationDto → Tx (Unit {0})
unfolding fits
check_bill supplier_id bills a = do
  bill ← or_throw (find (has_bill_id a.bill_id) bills) (unprocessable (bill_missing a.bill_id))
  guard (is_posted_document bill.status) (unprocessable (bill_not_posted a.bill_id))
  guard (bill.supplier_id == supplier_id) (unprocessable (bill_of_other_supplier a.bill_id))
  guard (fits bill_target bill a.allocated_amount_minor) (
      unprocessable
        (exceeds_outstanding a.allocated_amount_minor (bill.total_minor - bill.paid_minor)))

unfoldable pub check_bills :
    ℕ → List SupplierBill → List CreateSupplierPaymentAllocationDto → Tx (Unit {0})
unfolding check_bill
check_bills supplier_id bills [] = pure tt
check_bills supplier_id bills (a ∷ rest) = do
  check_bill supplier_id bills a
  check_bills supplier_id bills rest

module _ (c : Caller) (bills : List SupplierBill) where
  -- One round of the loop, with its audit row.
  unfoldable pub settle_bill : CreateSupplierPaymentAllocationDto → Tx AuditLog
  unfolding settle
  settle_bill a = do
    -- `billsById.get(allocation.billId)!`
    bill ← or_throw (find (has_bill_id a.bill_id) bills) (internal no_such_row)
    modify λ db. record db {
      supplier_bills =
          update_where (has_bill_id bill.id) (settle bill_target a.allocated_amount_minor bill)
            db.supplier_bills;
    }
    updated ← gets λ db. find (has_bill_id bill.id) db.supplier_bills
    pure (bill_audit c bill updated)

  unfoldable pub settle_bills : List CreateSupplierPaymentAllocationDto → Tx (List AuditLog)
  unfolding settle_bill
  settle_bills [] = pure []
  settle_bills (a ∷ rest) = do row ← settle_bill a; rows ← settle_bills rest; pure (row ∷ rows)

  -- `unsettleTarget(tx, supplierBills, bill, amount)`
  unfoldable pub unsettle_target_bill : SupplierBill → ℕ → Tx (Option SupplierBill)
  unfolding unsettle_target
  unsettle_target_bill bill amount db =
      elim (unsettle_target bill_target db.supplier_bills bill amount) [
        | ok (updated, table) ↦ ok (updated, record db { supplier_bills = table })
        | err e ↦ err e
      ]

  unfoldable pub unsettle_bill : CreateSupplierPaymentAllocationDto → Tx AuditLog
  unfolding unsettle_target_bill
  unsettle_bill a = do
    bill ← or_throw (find (has_bill_id a.bill_id) bills) (unprocessable (bill_missing a.bill_id))
    updated ← unsettle_target_bill bill a.allocated_amount_minor
    pure (bill_audit c bill updated)

  unfoldable pub unsettle_bills : List CreateSupplierPaymentAllocationDto → Tx (List AuditLog)
  unfolding unsettle_bill
  unsettle_bills [] = pure []
  unsettle_bills (a ∷ rest) = do
    row ← unsettle_bill a
    rows ← unsettle_bills rest
    pure (row ∷ rows)
