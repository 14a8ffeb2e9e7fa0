-- ===== src/Service/Requests.antt =====
-- The requests that the controllers serve, each in a transaction of its own, and what any
-- sequence of them leaves true.
use noryx_platform.Common.{some, ◌≡◌, ℕ, Option, List, [], ◌∷◌}
use noryx_platform.Service.Journals.{
  create-BooksStep, update-BooksStep, remove-BooksStep, post-BooksStep, reverse_in_tx-BooksStep,
  open-BooksStep, close-BooksStep,
}
use noryx_platform.Service.Deferrals.{
  keep_same, create-SameJournal, cancel-SameJournal, process_due-BooksStep,
}
use noryx_platform.Common.Rows.{find, select}
use noryx_platform.Journal.{
  line_of, CreateJournalEntryDto, UpdateJournalEntryDto, ReverseJournalEntryDto,
}
use noryx_platform.Books.Tables.{has_id}
use noryx_platform.Books.Permanence.{LinkedOnce}
use noryx_platform.Service.Step.{
  IsBooks, BooksStep, BooksStep-refl, BooksStep-trans, with_tenant-BooksStep,
}
use noryx_platform.Database.{posted, JournalEntry, Db, Caller, Platform}
use noryx_platform.Common.Decimal.{Text}
use noryx_platform.Database.Tx.{with_tenant}
use noryx_platform.Journal
use noryx_platform.Periods
use noryx_platform.Periods.{CreateAccountingPeriodDto}
use noryx_platform.Deferral
use noryx_platform.ScheduledReversals
use noryx_platform.ScheduledReversals.{CreateScheduledReversalDto}
use noryx_platform.Service.Reversals
use noryx_platform.Service.Payments
use noryx_platform.SupplierPayments
use noryx_platform.SupplierPayments.{
  CreateSupplierPaymentDto, UpdateSupplierPaymentDto, ApplySupplierPaymentAllocationDto,
}
use noryx_platform.Deferral.{CreateDeferralScheduleDto}

-- The routes that change state.
pub data Request : Type 0 where
  create_entry : CreateJournalEntryDto → Request
  update_entry : ℕ → UpdateJournalEntryDto → Request
  delete_entry post_entry : ℕ → Request
  reverse_entry : ℕ → ReverseJournalEntryDto → Request
  create_period : CreateAccountingPeriodDto → Request
  close_period : ℕ → Request
  create_schedule : CreateDeferralScheduleDto → Request
  cancel_schedule : ℕ → Option Text → Request
  process_due : Option ℕ → Request
  schedule_reversal : CreateScheduledReversalDto → Request
  cancel_reversal : ℕ → Option Text → Request
  process_due_reversals : Option ℕ → Request
  create_payment : CreateSupplierPaymentDto → Request
  update_payment : ℕ → UpdateSupplierPaymentDto → Request
  delete_payment post_payment : ℕ → Request
  apply_payment : ℕ → ApplySupplierPaymentAllocationDto → Request
  reverse_payment : ℕ → ReverseJournalEntryDto → Request

-- One request at its time, by its caller.
unfoldable pub serve : Platform → Caller → Request → Db → Db
unfolding with_tenant
serve p c (create_entry dto) db = (with_tenant (Journal.create p c dto) db).1
serve p c (update_entry id dto) db = (with_tenant (Journal.update p c id dto) db).1
serve p c (delete_entry id) db = (with_tenant (Journal.remove p c id) db).1
serve p c (post_entry id) db = (with_tenant (Journal.post p c id) db).1
serve p c (reverse_entry id dto) db = (with_tenant (Journal.reverse_in_tx p c id dto) db).1
serve p c (create_period dto) db = (with_tenant (Periods.create p c dto) db).1
serve p c (close_period id) db = (with_tenant (Periods.close p c id) db).1
serve p c (create_schedule dto) db = (with_tenant (Deferral.create p c dto) db).1
serve p c (cancel_schedule id reason) db = (with_tenant (Deferral.cancel p c id reason) db).1
serve p c (process_due date) db = (Deferral.process_due p c date db).1
serve p c (schedule_reversal dto) db = (with_tenant (ScheduledReversals.create p c dto) db).1
serve p c (cancel_reversal id reason) db =
    (with_tenant (ScheduledReversals.cancel p c id reason) db).1
serve p c (process_due_reversals date) db = (ScheduledReversals.process_due p c date db).1
serve p c (create_payment dto) db = (with_tenant (SupplierPayments.create p c dto) db).1
serve p c (update_payment id dto) db = (with_tenant (SupplierPayments.update p c id dto) db).1
serve p c (delete_payment id) db = (with_tenant (SupplierPayments.remove p c id) db).1
serve p c (post_payment id) db = (with_tenant (SupplierPayments.post p c id) db).1
serve p c (apply_payment id dto) db =
    (with_tenant (SupplierPayments.apply_allocation p c id dto) db).1
serve p c (reverse_payment id dto) db = (with_tenant (SupplierPayments.reverse p c id dto) db).1

pub record Call : Type 0 where
  pub platform : Platform
  pub caller : Caller
  pub request : Request

unfoldable pub serve_all : List Call → Db → Db
unfolding serve
serve_all [] db = db
serve_all (r ∷ rs) db = serve_all rs (serve r.platform r.caller r.request db)

serve-BooksStep :
    (p : Platform) (c : Caller) (r : Request) (db : Db) → IsBooks db → BooksStep db (serve p c r db)
unfolding serve
serve-BooksStep p c (create_entry dto) db h =
    with_tenant-BooksStep (Journal.create p c dto) db h (create-BooksStep p c db h dto)
serve-BooksStep p c (update_entry id dto) db h =
    with_tenant-BooksStep (Journal.update p c id dto) db h (update-BooksStep p c db h id dto)
serve-BooksStep p c (delete_entry id) db h =
    with_tenant-BooksStep (Journal.remove p c id) db h (remove-BooksStep p c db h id)
serve-BooksStep p c (post_entry id) db h =
    with_tenant-BooksStep (Journal.post p c id) db h (post-BooksStep p c db h id)
serve-BooksStep p c (reverse_entry id dto) db h =
    with_tenant-BooksStep (Journal.reverse_in_tx p c id dto) db h
      (reverse_in_tx-BooksStep p c db h id dto)
serve-BooksStep p c (create_period dto) db h =
    with_tenant-BooksStep (Periods.create p c dto) db h (open-BooksStep p c db h dto)
serve-BooksStep p c (close_period id) db h =
    with_tenant-BooksStep (Periods.close p c id) db h (close-BooksStep p c db h id)
serve-BooksStep p c (create_schedule dto) db h =
    with_tenant-BooksStep (Deferral.create p c dto) db h
      (keep_same p c db (Deferral.create p c dto db) h (create-SameJournal p c dto db))
serve-BooksStep p c (cancel_schedule id reason) db h =
    with_tenant-BooksStep (Deferral.cancel p c id reason) db h
      (keep_same p c db (Deferral.cancel p c id reason db) h (cancel-SameJournal p c id reason db))
serve-BooksStep p c (process_due date) db h = process_due-BooksStep p c date db h
serve-BooksStep p c (schedule_reversal dto) db h =
    with_tenant-BooksStep (ScheduledReversals.create p c dto) db h (
      keep_same p c db (ScheduledReversals.create p c dto db) h
        (Reversals.create-SameJournal p c dto db))
serve-BooksStep p c (cancel_reversal id reason) db h =
    with_tenant-BooksStep (ScheduledReversals.cancel p c id reason) db h (
      keep_same p c db (ScheduledReversals.cancel p c id reason db) h
        (Reversals.cancel-SameJournal p c id reason db))
serve-BooksStep p c (process_due_reversals date) db h =
    Reversals.process_due-BooksStep p c date db h
serve-BooksStep p c (create_payment dto) db h =
    with_tenant-BooksStep (SupplierPayments.create p c dto) db h (
      keep_same p c db (SupplierPayments.create p c dto db) h
        (Payments.create-SameJournal p c dto db))
serve-BooksStep p c (update_payment id dto) db h =
    with_tenant-BooksStep (SupplierPayments.update p c id dto) db h (
      keep_same p c db (SupplierPayments.update p c id dto db) h
        (Payments.update-SameJournal p c id dto db))
serve-BooksStep p c (delete_payment id) db h =
    with_tenant-BooksStep (SupplierPayments.remove p c id) db h (
      keep_same p c db (SupplierPayments.remove p c id db) h
        (Payments.remove-SameJournal p c id db))
serve-BooksStep p c (post_payment id) db h =
    with_tenant-BooksStep (SupplierPayments.post p c id) db h (Payments.post-BooksStep p c id db h)
serve-BooksStep p c (apply_payment id dto) db h =
    with_tenant-BooksStep (SupplierPayments.apply_allocation p c id dto) db h (
      keep_same p c db (SupplierPayments.apply_allocation p c id dto db) h
        (Payments.apply-SameJournal p c id dto db))
serve-BooksStep p c (reverse_payment id dto) db h =
    with_tenant-BooksStep (SupplierPayments.reverse p c id dto) db h
      (Payments.reverse-BooksStep p c id dto db h)

serve_all-BooksStep : (calls : List Call) (db : Db) → IsBooks db → BooksStep db (serve_all calls db)
unfolding serve_all
serve_all-BooksStep [] db h = BooksStep-refl db h
serve_all-BooksStep (r ∷ rs) db h =
    let step = serve-BooksStep r.platform r.caller r.request db h in
    BooksStep-trans db _ _ step (serve_all-BooksStep rs _ step.books)

-- Any sequence of requests, by any callers and whatever each of them answers, keeps books
-- sound: every posted entry has at least two lines and as much debit as credit, every line
-- belongs to an entry, ids are unique, the posted entries of an entity have different numbers
-- that its counter has given out, and its periods share no day.
pub serve_all-IsBooks : (calls : List Call) (db : Db) → IsBooks db → IsBooks (serve_all calls db)
serve_all-IsBooks calls db h = (serve_all-BooksStep calls db h).books

-- In sound books, an entry that is posted is still there after any sequence of requests, with
-- the same lines, and either as it was or with a link to its one reversal where it had none.
pub serve_all_keeps_posted :
    (calls : List Call) (db : Db) (id : ℕ) (e : JournalEntry)
    → IsBooks db
    → find (has_id id) db.journal_entries ≡ some e
    → e.status ≡ posted
    → (e' : JournalEntry) × (find (has_id id) (serve_all calls db).journal_entries ≡ some e')
      × LinkedOnce e e'
      × (select (line_of id) (serve_all calls db).journal_lines
          ≡ select (line_of id) db.journal_lines)
serve_all_keeps_posted calls db id e h found p =
    (serve_all-BooksStep calls db h).keeps.kept id e found p
