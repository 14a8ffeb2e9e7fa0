-- ===== src/SupplierPayments/Lookup.antt =====
-- findByIdInTx(), the checks of references, loadApSettingsOrThrow(), allocatePaymentNumber() and
-- insertAllocations(), with the service's own resolveCurrency() and resolveAndLockOpenPeriod(). Its
-- copy of the journal's allocateJournalNumber() has the same text and is read as that.
use noryx_platform.Common.{
  ℕ, Bool, ◌&&◌, Option, none, some, List, ◌++◌, map, length, contains, ◌==◌,
}
use noryx_platform.Common.Decimal.{Text, codes, decimal, pad_start}
use noryx_platform.Common.Rows.{find, select}
use noryx_platform.Database.{
  Caller, Failure, Reason, bad_request, unprocessable, not_found, no_legal_entity, no_period,
  period_closed, PeriodStatus, open_period, closed, AccountingPeriod, AccountType, Account,
  Supplier, ApSettings, SupplierBill, SupplierPayment, SupplierPaymentAllocation,
  PaymentWithAllocations, no_supplier, no_asset_account, no_ap_settings, duplicate_bill,
  foreign_bills,
}
use noryx_platform.Database.Tx.{Tx, pure, gets, or_throw, guard, modify, ◌>>=◌, ◌>>◌}
use noryx_platform.Journal.{
  entity_key, covers, in_scope, counter_key, next_number, unique_ids, difference, is_empty,
}

pub record CreateSupplierPaymentAllocationDto : Type 0 where
  pub bill_id : ℕ
  pub allocated_amount_minor : ℕ

abbrev pub bill_ids : List CreateSupplierPaymentAllocationDto → List ℕ
bill_ids allocations = map (λ a. a.bill_id) allocations

abbrev pub is_asset : AccountType → Bool
is_asset AccountType.asset = Bool.true
is_asset _ = Bool.false

abbrev pub allocation_of : ℕ → SupplierPaymentAllocation → Bool
allocation_of id a = a.payment_id == id

-- `PAY-${String(n).padStart(6, "0")}`
unfoldable pub payment_number_text : ℕ → Text
payment_number_text n = codes "PAY-" ++ pad_start 6 (decimal n)

module _ (c : Caller) where
  abbrev pub payment_key : ℕ → SupplierPayment → Bool
  payment_key id x = (x.id == id) && in_scope c x.tenant_id x.legal_entity_id

  abbrev pub with_allocations :
      ℕ → List SupplierPaymentAllocation → Option SupplierPayment → Option PaymentWithAllocations
  with_allocations id rows none = none
  with_allocations id rows (some x) =
      some (record { payment = x; allocations = select (allocation_of id) rows })

  unfoldable pub find_by_id_in_tx : ℕ → Tx (Option PaymentWithAllocations)
  find_by_id_in_tx id = gets λ db.
      with_allocations id db.supplier_payment_allocations
        (find (payment_key id) db.supplier_payments)

  -- The query names no tenant: its policy on the table does.
  unfoldable pub validate_supplier_ref_or_throw : ℕ → Tx Supplier
  validate_supplier_ref_or_throw id = do
    row ← gets λ db.
        find
          (λ (s : Supplier).
            (s.id == id) && (s.legal_entity_id == c.legal_entity_id) && s.is_active)
          db.suppliers
    or_throw row (bad_request no_supplier)

  -- The draft-time and the posting-time check of the account differ in the exception.
  unfoldable pub check_bank_cash_account : (Reason → Failure) → ℕ → Tx (Unit {0})
  check_bank_cash_account throws id = do
    row ← gets λ db.
        find
          (λ (a : Account).
            (a.id == id)
            && in_scope c a.tenant_id a.legal_entity_id
            && a.is_active
            && is_asset a.account_type)
          db.chart_of_accounts
    or_throw row (throws no_asset_account)
    pure tt

  unfoldable pub validate_bank_cash_account_or_throw : ℕ → Tx (Unit {0})
  unfolding check_bank_cash_account
  validate_bank_cash_account_or_throw id = check_bank_cash_account bad_request id

  unfoldable pub revalidate_bank_cash_account_for_posting_or_throw : ℕ → Tx (Unit {0})
  unfolding check_bank_cash_account
  revalidate_bank_cash_account_for_posting_or_throw id = check_bank_cash_account unprocessable id

  -- Each bill at most once, and each of the supplier and in scope.
  unfoldable pub validate_allocations_shape_or_throw :
      ℕ → List CreateSupplierPaymentAllocationDto → Tx (Unit {0})
  unfolding unique_ids
  validate_allocations_shape_or_throw supplier_id allocations = do
    let ids = unique_ids (bill_ids allocations)
    guard (length ids == length allocations) (unprocessable duplicate_bill)
    valid ← gets λ db.
        map (λ b. b.id)
          (select
            (λ (b : SupplierBill).
              in_scope c b.tenant_id b.legal_entity_id
              && (b.supplier_id == supplier_id)
              && contains b.id ids)
            db.supplier_bills)
    guard (is_empty (difference ids valid)) (unprocessable (foreign_bills (difference ids valid)))

  unfoldable pub load_ap_settings_or_throw : Tx ApSettings
  load_ap_settings_or_throw = do
    row ←
        gets
          λ db. find (λ (s : ApSettings). in_scope c s.tenant_id s.legal_entity_id) db.ap_settings
    or_throw row (unprocessable no_ap_settings)

  unfoldable pub resolve_currency : Tx Text
  resolve_currency = do
    entity ← gets λ db. find (entity_key c) db.legal_entities
    found ← or_throw entity (not_found no_legal_entity)
    pure found.currency_code

  abbrev is_open_period : PeriodStatus → Bool
  is_open_period open_period = Bool.true
  is_open_period closed = Bool.false

  -- `FOR UPDATE` has no effect here.
  unfoldable pub resolve_and_lock_open_period : ℕ → Tx AccountingPeriod
  resolve_and_lock_open_period payment_date = do
    found ← gets λ db. find (covers c payment_date) db.accounting_periods
    period ← or_throw found (unprocessable (no_period payment_date))
    guard (is_open_period period.status) (unprocessable (period_closed period.code payment_date))
    pure period

  unfoldable pub allocate_payment_number : Tx Text
  unfolding next_number payment_number_text
  allocate_payment_number db =
      let (n, table) =
        next_number c db.ap_payment_number_counters
          (find (counter_key c) db.ap_payment_number_counters) in
      pure (payment_number_text n) (record db { ap_payment_number_counters = table })

  abbrev pub new_allocation : ℕ → ℕ → CreateSupplierPaymentAllocationDto → SupplierPaymentAllocation
  new_allocation payment_id date a = record {
    tenant_id = c.tenant_id;
    payment_id = payment_id;
    bill_id = a.bill_id;
    allocated_amount_minor = a.allocated_amount_minor;
    allocation_date = date;
  }

  unfoldable pub insert_allocations :
      ℕ → List CreateSupplierPaymentAllocationDto → ℕ → Tx (List SupplierPaymentAllocation)
  insert_allocations payment_id allocations date =
      let rows = map (new_allocation payment_id date) allocations in
      do
        modify λ db. record db {
          supplier_payment_allocations = db.supplier_payment_allocations ++ rows;
        }
        pure rows
