-- ===== src/SupplierPayments/Drafts.antt =====
-- create(), list(), findOne(), update() and remove().
use noryx_platform.Common.{
  ℕ, Bool, true, false, ◌&&◌, Option, none, some, List, [], ◌∷◌, ◌++◌, map, leb, ◌==◌, or_else,
}
use noryx_platform.Common.Decimal.{Text}
use noryx_platform.Common.Rows.{select, update_where, delete_where}
use noryx_platform.Database.{
  Caller, Platform, AuditLog, AuditAction, EntityType, Snapshot, payment_full, not_found, conflict,
  internal, no_such_row, cannot_edit_posted, cannot_delete_posted, DocumentStatus, draft_document,
  posted_document, PaymentMethod, SupplierPayment, PaymentWithAllocations,
}
use noryx_platform.Database.Tx.{Tx, pure, gets, or_throw, guard, modify, audit, ◌>>=◌, ◌>>◌}
use noryx_platform.Journal.{in_scope}
use noryx_platform.Settlement.{ReversalInfo, resolve_reversal_info}
use noryx_platform.SupplierPayments.Lookup.{
  resolve_currency, CreateSupplierPaymentAllocationDto, allocation_of, payment_key,
  find_by_id_in_tx, validate_supplier_ref_or_throw, validate_bank_cash_account_or_throw,
  validate_allocations_shape_or_throw, insert_allocations,
}

pub record CreateSupplierPaymentDto : Type 0 where
  pub supplier_id : ℕ
  pub payment_date : ℕ
  pub payment_amount_minor : ℕ
  pub payment_method : PaymentMethod
  pub bank_cash_account_id : ℕ
  pub reference : Option Text
  pub memo : Option Text
  pub allocations : List CreateSupplierPaymentAllocationDto

pub record UpdateSupplierPaymentDto : Type 0 where
  pub payment_date : Option ℕ
  pub payment_amount_minor : Option ℕ
  pub payment_method : Option PaymentMethod
  pub bank_cash_account_id : Option ℕ
  pub reference : Option Text
  pub memo : Option Text
  pub allocations : Option (List CreateSupplierPaymentAllocationDto)

pub record ListSupplierPaymentsFilters : Type 0 where
  pub status : Option DocumentStatus
  pub supplier_id : Option ℕ
  pub date_from : Option ℕ
  pub date_to : Option ℕ

-- `SupplierPaymentWithReversal`
pub record PaymentWithReversal : Type 0 where
  pub full : PaymentWithAllocations
  pub reversal : Option ReversalInfo

abbrev pub is_draft_document : DocumentStatus → Bool
is_draft_document draft_document = true
is_draft_document posted_document = false

abbrev same_document_status : DocumentStatus → DocumentStatus → Bool
same_document_status draft_document s = is_draft_document s
same_document_status posted_document draft_document = false
same_document_status posted_document posted_document = true

-- A condition that is there only when its filter is.
abbrev if_given : {A : Type 0} → Option A → (A → Bool) → Bool
if_given none test = true
if_given (some a) test = test a

abbrev pub keep_or : {A : Type 0} → Option A → Option A → Option A
keep_or none old = old
keep_or (some a) old = some a

module _ (c : Caller) where
  abbrev pub payment_audit : AuditAction → ℕ → Option Snapshot → Option Snapshot → AuditLog
  payment_audit action id before after = record {
    tenant_id = c.tenant_id;
    legal_entity_id = c.legal_entity_id;
    actor_user_id = c.actor_user_id;
    action = action;
    entity_type = EntityType.supplier_payment;
    entity_id = id;
    before_state = before;
    after_state = after;
  }

  unfoldable pub payment_meets : ListSupplierPaymentsFilters → SupplierPayment → Bool
  payment_meets f x =
      in_scope c x.tenant_id x.legal_entity_id
      && if_given f.status (same_document_status x.status)
      && if_given f.supplier_id (λ s. x.supplier_id == s)
      && if_given f.date_from (λ d. leb d x.payment_date)
      && if_given f.date_to (λ d. leb x.payment_date d)

  unfoldable pub list : ListSupplierPaymentsFilters → Tx (List SupplierPayment)
  unfolding payment_meets
  list f = gets λ db. select (payment_meets f) db.supplier_payments

  unfoldable pub find_one : ℕ → Tx PaymentWithReversal
  unfolding find_by_id_in_tx resolve_reversal_info
  find_one id = do
    row ← find_by_id_in_tx c id
    found ← or_throw row (not_found no_such_row)
    reversal ← resolve_reversal_info found.payment.journal_entry_id
    pure (record { full = found; reversal = reversal })

module _ (p : Platform) (c : Caller) where
  unfoldable pub new_payment : ℕ → Text → CreateSupplierPaymentDto → SupplierPayment
  new_payment id currency dto = record {
    id = id;
    tenant_id = c.tenant_id;
    legal_entity_id = c.legal_entity_id;
    supplier_id = dto.supplier_id;
    internal_reference = none;
    status = draft_document;
    payment_date = dto.payment_date;
    currency_code = currency;
    payment_amount_minor = dto.payment_amount_minor;
    payment_method = dto.payment_method;
    bank_cash_account_id = dto.bank_cash_account_id;
    reference = dto.reference;
    memo = dto.memo;
    journal_entry_id = none;
    period_id = none;
    created_by = c.actor_user_id;
    posted_by = none;
    posted_at = none;
    updated_at = p.now;
  }

  unfoldable pub create : CreateSupplierPaymentDto → Tx PaymentWithAllocations
  unfolding validate_supplier_ref_or_throw validate_bank_cash_account_or_throw
      validate_allocations_shape_or_throw resolve_currency new_payment insert_allocations
  create dto = do
    supplier ← validate_supplier_ref_or_throw c dto.supplier_id
    validate_bank_cash_account_or_throw c dto.bank_cash_account_id
    validate_allocations_shape_or_throw c dto.supplier_id dto.allocations
    currency ← resolve_currency c
    id ← gets λ db. p.new_id (map (λ x. x.id) db.supplier_payments)
    let created = new_payment id currency dto
    modify λ db. record db { supplier_payments = db.supplier_payments ++ created ∷ [] }
    rows ← insert_allocations c id dto.allocations created.payment_date
    let full : PaymentWithAllocations = record { payment = created; allocations = rows }
    audit (payment_audit c AuditAction.create id none (some (payment_full full)) ∷ [])
    pure full

  -- `headerPatch`: a field that the request leaves out is kept.
  unfoldable pub header_patch : UpdateSupplierPaymentDto → SupplierPayment → SupplierPayment
  header_patch dto x = record x {
    updated_at = p.now;
    payment_date = or_else dto.payment_date x.payment_date;
    payment_amount_minor = or_else dto.payment_amount_minor x.payment_amount_minor;
    payment_method = or_else dto.payment_method x.payment_method;
    bank_cash_account_id = or_else dto.bank_cash_account_id x.bank_cash_account_id;
    reference = keep_or dto.reference x.reference;
    memo = keep_or dto.memo x.memo;
  }

  unfoldable pub validate_given :
      ℕ → Option ℕ → Option (List CreateSupplierPaymentAllocationDto) → Tx (Unit {0})
  unfolding validate_bank_cash_account_or_throw validate_allocations_shape_or_throw
  validate_given supplier_id account allocations = do
    elim account as (λ _. Tx (Unit {0})) [
      | none ↦ pure tt
      | some a ↦ validate_bank_cash_account_or_throw c a
    ]
    elim allocations as (λ _. Tx (Unit {0})) [
      | none ↦ pure tt
      | some l ↦ validate_allocations_shape_or_throw c supplier_id l
    ]

  -- Full replacement of the allocations, if the request has some.
  unfoldable pub replace_allocations :
      ℕ → ℕ → Option (List CreateSupplierPaymentAllocationDto) → Tx (Unit {0})
  unfolding insert_allocations
  replace_allocations id date none = pure tt
  replace_allocations id date (some allocations) = do
    modify λ db. record db {
      supplier_payment_allocations =
          delete_where (allocation_of id) db.supplier_payment_allocations;
    }
    insert_allocations c id allocations date
    pure tt

  unfoldable pub update : ℕ → UpdateSupplierPaymentDto → Tx PaymentWithAllocations
  unfolding find_by_id_in_tx validate_given header_patch replace_allocations
  update id dto = do
    found ← find_by_id_in_tx c id
    before ← or_throw found (not_found no_such_row)
    guard (is_draft_document before.payment.status) (conflict cannot_edit_posted)
    validate_given before.payment.supplier_id dto.bank_cash_account_id dto.allocations
    modify λ db. record db {
      supplier_payments = update_where (payment_key c id) (header_patch dto) db.supplier_payments;
    }
    replace_allocations id (or_else dto.payment_date before.payment.payment_date) dto.allocations
    read ← find_by_id_in_tx c id
    -- `after!`
    after ← or_throw read (internal no_such_row)
    audit (
        payment_audit c AuditAction.update id (some (payment_full before))
          (some (payment_full after))
        ∷ [])
    pure after

  -- The foreign key deletes the allocations of the payment too.
  unfoldable pub remove : ℕ → Tx PaymentWithAllocations
  unfolding find_by_id_in_tx
  remove id = do
    found ← find_by_id_in_tx c id
    before ← or_throw found (not_found no_such_row)
    guard (is_draft_document before.payment.status) (conflict cannot_delete_posted)
    modify λ db. record db {
      supplier_payments = delete_where (payment_key c id) db.supplier_payments;
      supplier_payment_allocations =
          delete_where (allocation_of id) db.supplier_payment_allocations;
    }
    audit (payment_audit c AuditAction.delete id (some (payment_full before)) none ∷ [])
    pure before
