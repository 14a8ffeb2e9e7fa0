-- ===== src/Database/Payables.antt =====
-- The row types of db/schema.ts that the payment of suppliers touches, read as in `Schema`. Of a
-- supplier and of a bill, columns that the payments neither read nor write are left out.
use noryx_platform.Common.{ℕ, Bool, Option, List}
use noryx_platform.Common.Decimal.{Text}

pub record Supplier : Type 0 where
  pub id : ℕ
  pub tenant_id : ℕ
  pub legal_entity_id : ℕ
  pub is_active : Bool

pub record ApSettings : Type 0 where
  pub tenant_id : ℕ
  pub legal_entity_id : ℕ
  pub ap_control_account_id : ℕ
  pub tax_input_account_id : Option ℕ

-- `supplierBillStatusEnum` and `supplierPaymentStatusEnum`
pub data DocumentStatus : Type 0 where
  draft_document posted_document : DocumentStatus

-- `billPaymentStatusEnum`
pub data PaymentStatus : Type 0 where
  unpaid partially_paid paid : PaymentStatus

pub record SupplierBill : Type 0 where
  pub id : ℕ
  pub tenant_id : ℕ
  pub legal_entity_id : ℕ
  pub supplier_id : ℕ
  pub supplier_bill_number : Text
  pub internal_reference : Option Text
  pub status : DocumentStatus
  pub payment_status : PaymentStatus
  pub bill_date : ℕ
  pub due_date : Option ℕ
  pub currency_code : Text
  pub subtotal_minor : ℕ
  pub tax_minor : ℕ
  pub total_minor : ℕ
  pub paid_minor : ℕ
  pub journal_entry_id : Option ℕ
  pub period_id : Option ℕ
  pub memo : Option Text

pub data PaymentMethod : Type 0 where
  bank_transfer cheque cash card other : PaymentMethod

pub record SupplierPayment : Type 0 where
  pub id : ℕ
  pub tenant_id : ℕ
  pub legal_entity_id : ℕ
  pub supplier_id : ℕ
  pub internal_reference : Option Text
  pub status : DocumentStatus
  pub payment_date : ℕ
  pub currency_code : Text
  pub payment_amount_minor : ℕ
  pub payment_method : PaymentMethod
  pub bank_cash_account_id : ℕ
  pub reference : Option Text
  pub memo : Option Text
  pub journal_entry_id : Option ℕ
  pub period_id : Option ℕ
  pub created_by : Option ℕ
  pub posted_by : Option ℕ
  pub posted_at : Option ℕ
  pub updated_at : ℕ

pub record SupplierPaymentAllocation : Type 0 where
  pub tenant_id : ℕ
  pub payment_id : ℕ
  pub bill_id : ℕ
  pub allocated_amount_minor : ℕ
  pub allocation_date : ℕ

-- `SupplierPaymentWithAllocations`
pub record PaymentWithAllocations : Type 0 where
  pub payment : SupplierPayment
  pub allocations : List SupplierPaymentAllocation
