-- ===== src/SupplierPayments/Ready.antt =====
-- What the checks of post() let through: a payment that is ready to be posted.
use noryx_platform.Common.Rows.{select, find, exists}
use noryx_platform.Journal.{
  in_scope, covers, lines_accepted, line_accepted, single_sided_nonzero, tax_code_direction_pairing,
}
use noryx_platform.Common.{
  Bool, ◌&&◌, ◌+◌, ℕ, ◌≤◌, ◌≡◌, refl, true, some, List, [], ◌∷◌, arith, ◌==◌, All,
}
use noryx_platform.Database.{
  ApSettings, AccountingPeriod, open_period, draft_document, Db, Caller, Platform, Account, TaxCode,
  SupplierBill, SupplierPayment, PaymentWithAllocations, posted_document,
}
use noryx_platform.Database.Tx.{ok}
use noryx_platform.SupplierPayments.{
  load_post, check_total, requested_total, bill_ids, lock_bills, find_by_id_in_tx,
  revalidate_bank_cash_account_for_posting_or_throw, load_ap_settings_or_throw,
  resolve_and_lock_open_period, allocation_of, is_asset, CreateSupplierPaymentAllocationDto,
  payment_key, has_bill_id, wanted, payment_lines, check_bill, check_bills,
}
use noryx_platform.Common.Decimal.{Text}
use noryx_platform.Settlement.{fits}
use noryx_platform.SupplierPayments.Frames.{Fits}

-- A bill among those read that may be paid this allocation of a payment to this supplier.
pub record IsPayable (supplier : ℕ) (bills : List SupplierBill)
    (a : CreateSupplierPaymentAllocationDto) : Type 0 where
  pub bill : SupplierBill
  pub found : find (has_bill_id a.bill_id) bills ≡ some bill
  pub was_posted : bill.status ≡ posted_document
  pub of_supplier : bill.supplier_id ≡ supplier
  pub outstanding : bill.paid_minor + a.allocated_amount_minor ≤ bill.total_minor

pub payment_accepted :
    (reference : Text) (control bank amount : ℕ) (accounts : List Account)
    (tax_codes : List TaxCode)
    → 1 ≤ amount
    → exists (λ (a : Account). a.id == control) accounts ≡ true
    → exists (λ (a : Account). a.id == bank) accounts ≡ true
    → lines_accepted accounts tax_codes (payment_lines reference control bank amount) ≡ true
unfolding payment_lines lines_accepted line_accepted single_sided_nonzero tax_code_direction_pairing
payment_accepted reference control bank amount accounts tax_codes n a b = ground arith

pub check_bills_pass :
    (supplier : ℕ) (bills : List SupplierBill) (ls : List CreateSupplierPaymentAllocationDto)
    (db : Db)
    → All (IsPayable supplier bills) ls
    → check_bills supplier bills ls db ≡ ok (tt, db)
unfolding check_bills check_bill fits
check_bills_pass supplier bills [] db h = refl
check_bills_pass supplier bills (a ∷ ls) db h =
    let rest = check_bills_pass supplier bills ls db h.1 in
    let found = h.0.found in
    let was = h.0.was_posted in
    let of = h.0.of_supplier in
    let out = h.0.outstanding in ground (arith, rest, found, was, of, out)

pub payable-Fits :
    (supplier : ℕ) (bills : List SupplierBill) (ls : List CreateSupplierPaymentAllocationDto)
    → All (IsPayable supplier bills) ls
    → All (Fits bills) ls
payable-Fits supplier bills [] h = tt
payable-Fits supplier bills (a ∷ ls) h =
    ((h.0.bill, h.0.found, h.0.outstanding), payable-Fits supplier bills ls h.1)

module _ (c : Caller) where
  abbrev pub usable_asset : ℕ → Account → Bool
  usable_asset id a =
      (a.id == id)
      && in_scope c a.tenant_id a.legal_entity_id
      && a.is_active
      && is_asset a.account_type

  abbrev pub settings_key : ApSettings → Bool
  settings_key s = in_scope c s.tenant_id s.legal_entity_id

  pub asset_exists :
      (id : ℕ) (a : Account) (accounts : List Account)
      → find (usable_asset id) accounts ≡ some a
      → exists (λ (k : Account). k.id == id) accounts ≡ true
  asset_exists id a [] h = ground arith
  asset_exists id a (k ∷ ks) h = ground (arith, asset_exists id a ks)

  pub found_id :
      (id : ℕ) (x : SupplierPayment) (xs : List SupplierPayment)
      → find (payment_key c id) xs ≡ some x
      → x.id ≡ id
  found_id id x [] h = ground arith
  found_id id x (y ∷ ys) h = ground (arith, found_id id x ys)

-- The payment with its allocations, as they are stored.
abbrev pub stored_payment : ℕ → SupplierPayment → Db → PaymentWithAllocations
stored_payment id x db = record {
  payment = x;
  allocations = select (allocation_of id) db.supplier_payment_allocations;
}

module _ (p : Platform) (c : Caller) where
  pub load_passes :
      (id : ℕ) (x : SupplierPayment) (a : Account) (s : ApSettings) (q : AccountingPeriod)
      (bills : List SupplierBill) (db : Db)
      → find (payment_key c id) db.supplier_payments ≡ some x
      → x.status ≡ draft_document
      → find (usable_asset c x.bank_cash_account_id) db.chart_of_accounts ≡ some a
      → find (settings_key c) db.ap_settings ≡ some s
      → find (covers c x.payment_date) db.accounting_periods ≡ some q
      → q.status ≡ open_period
      → lock_bills c (bill_ids (wanted (stored_payment id x db))) db ≡ ok (bills, db)
      → load_post p c id db
        ≡ ok (
          record { before = stored_payment id x db; settings = s; period = q; bills = bills },
          db,
        )
  unfolding load_post find_by_id_in_tx revalidate_bank_cash_account_for_posting_or_throw
      load_ap_settings_or_throw resolve_and_lock_open_period
  load_passes id x a s q bills db found draft_ asset settings cover open_ locked = ground arith

  pub total_passes :
      (x : PaymentWithAllocations) (db : Db)
      → requested_total (wanted x) ≤ x.payment.payment_amount_minor
      → check_total p c x db ≡ ok (tt, db)
  unfolding check_total
  total_passes x db h = ground arith
