-- ===== src/Service/Payments.antt =====
-- SupplierPaymentsService keeps the books: it posts two lines of one amount, and reverses through
-- completeReversalPosting().
use noryx_platform.Common.{not, ℕ, ◌≡◌, ap, ◌∙◌, List, or_else, arith}
use noryx_platform.Journal.{is_empty, ReverseJournalEntryDto, complete_reversal_posting}
use noryx_platform.Database.{internal, no_values, SupplierPaymentAllocation, Db, Caller, Platform}
use noryx_platform.Database.Tx.{Ensures-guarded, Ensures, Ensures-map, Ensures-bind}
use noryx_platform.SupplierPayments.{
  Applicable, CreateSupplierPaymentDto, UpdateSupplierPaymentDto, ApplySupplierPaymentAllocationDto,
  CreateSupplierPaymentAllocationDto, create, update, remove, Postable, Booked, wanted, load_post,
  check_bills, check_total, commit_payment, settle_bills, book_payment, finish_post, post,
  payment_memo, payment_lines, load_apply, finish_apply, settle_applied, insert_allocations,
  apply_allocation, Reversible, check_reverse, unsettle_bills, finish_reverse, show_reversed,
  reverse, payment_reversal_memo,
}
use noryx_platform.SupplierPayments.Frames.{
  OnlyBills, check_bills_shape, settle_bills-OnlyBills, unsettle_bills-OnlyBills,
}
use noryx_platform.SupplierPayments.Loads.{
  LoadsPost, load_post_shape, check_total_shape, LoadsApply, load_apply_shape, LoadsReverse,
  check_reverse_shape,
}
use noryx_platform.SupplierPayments.Booking.{
  Writes, book_payment_shape, appended_entries, drawn_reference, payment_lines_balance,
}
use noryx_platform.Service.Step.{
  IsBooks, BooksStep, BooksStep-then, SameJournal, SameJournal-trans, SameJournal-audited,
}
use noryx_platform.Service.Journals.{generated-BooksStep, complete-BooksStep}

bills-SameJournal : (db db' : Db) → OnlyBills db db' → SameJournal db db'
bills-SameJournal db db' h = record {
  entries = ap (λ (d : Db). d.journal_entries) h;
  lines = ap (λ (d : Db). d.journal_lines) h;
  counters = ap (λ (d : Db). d.journal_number_counters) h;
  periods = ap (λ (d : Db). d.accounting_periods) h;
}

module _ (p : Platform) (c : Caller) where
  pub create-SameJournal :
      (dto : CreateSupplierPaymentDto) (db : Db)
      → Ensures (λ r db'. SameJournal db db') (create p c dto db)
  unfolding create
  create-SameJournal dto db = ground arith

  pub update-SameJournal :
      (id : ℕ) (dto : UpdateSupplierPaymentDto) (db : Db)
      → Ensures (λ r db'. SameJournal db db') (update p c id dto db)
  unfolding update
  update-SameJournal id dto db = ground arith

  pub remove-SameJournal :
      (id : ℕ) (db : Db) → Ensures (λ r db'. SameJournal db db') (remove p c id db)
  unfolding remove
  remove-SameJournal id db = ground arith

  commit-SameJournal :
      (id entry period : ℕ) (reference : _) (db : Db)
      → Ensures (λ r db'. SameJournal db db') (commit_payment p c id reference entry period db)
  unfolding commit_payment
  commit-SameJournal id entry period reference db = ground arith

  insert-SameJournal :
      (id date : ℕ) (ls : List CreateSupplierPaymentAllocationDto) (db : Db)
      → Ensures (λ r db'. SameJournal db db') (insert_allocations c id ls date db)
  unfolding insert_allocations
  insert-SameJournal id date ls db = ground arith

  finish_post-SameJournal :
      (id : ℕ) (x : Postable) (b : Booked) (db : Db)
      → Ensures (λ r db'. SameJournal db db') (finish_post p c id x b db)
  unfolding finish_post
  finish_post-SameJournal id x b db =
      Ensures-bind (λ r db'. SameJournal db db') (λ r db'. SameJournal db db')
        (commit_payment p c id b.reference b.entry.entry.id x.period.id) _ db
        (commit-SameJournal id b.entry.entry.id x.period.id b.reference db)
        λ posted db1 s1.
          Ensures-bind (λ rows db'. OnlyBills db1 db') (λ r db'. SameJournal db db')
            (settle_bills c x.bills (wanted x.before)) _ db1
            (settle_bills-OnlyBills c x.bills (wanted x.before) db1)
            λ rows db2 s2.
              SameJournal-audited db db2 _
                (SameJournal-trans db db1 db2 s1 (bills-SameJournal db1 db2 s2))

  book-BooksStep :
      (x : Postable) (db : Db)
      → IsBooks db
      → Ensures (λ b db'. BooksStep db db') (book_payment p c x db)
  book-BooksStep x db h =
      Ensures-map (λ b db'. Writes p c db x b db') (λ b db'. BooksStep db db')
        (book_payment p c x db)
        (λ b db' w.
          let payment = x.before.payment in
          let reference = drawn_reference p c db x in
          let even =
            payment_lines_balance reference x.settings.ap_control_account_id
              payment.bank_cash_account_id payment.payment_amount_minor in
          generated-BooksStep p c db h
            (payment_lines reference x.settings.ap_control_account_id payment.bank_cash_account_id
              payment.payment_amount_minor)
            x.period payment.payment_date (payment_memo reference) payment.currency_code even.0
            even.1 w.accepted db' (appended_entries p c db x db' b w) w.lines w.counters
            w.reference_same.accounting_periods)
        (book_payment_shape p c db x)

  pub post-BooksStep :
      (id : ℕ) (db : Db) → IsBooks db → Ensures (λ r db'. BooksStep db db') (post p c id db)
  unfolding post
  post-BooksStep id db h =
      Ensures-bind (λ x db'. LoadsPost p c id db db' x) (λ r db'. BooksStep db db')
        (load_post p c id) _ db (load_post_shape p c id db)
        λ x db1 l.
          Ensures-bind (λ u db'. db' ≡ db) (λ r db'. BooksStep db db')
            (check_bills x.before.payment.supplier_id x.bills (wanted x.before)) _ db1
            (Ensures-map _ (λ u db'. db' ≡ db) _ (λ u db' k. k.0 ∙ l.unchanged)
              (check_bills_shape x.before.payment.supplier_id x.bills (wanted x.before) db1))
            λ u db2 e2.
              Ensures-bind (λ u db'. db' ≡ db) (λ r db'. BooksStep db db')
                (check_total p c x.before) _ db2
                (Ensures-map _ (λ u db'. db' ≡ db) _ (λ u db' k. k.0 ∙ e2)
                  (check_total_shape p c id db2 x.before))
                λ u db3 e3. rw e3 (
                  Ensures-bind (λ b db'. BooksStep db db') (λ r db'. BooksStep db db')
                    (book_payment p c x) (finish_post p c id x) db (book-BooksStep x db h)
                    λ b db4 step.
                      BooksStep-then db db4 (finish_post p c id x b db4) step
                        (finish_post-SameJournal id x b db4))

  settle-SameJournal :
      (id : ℕ) (ls : List CreateSupplierPaymentAllocationDto) (x : Applicable)
      (inserted : List SupplierPaymentAllocation) (db : Db)
      → Ensures (λ r db'. SameJournal db db') (settle_applied p c id ls x inserted db)
  unfolding settle_applied
  settle-SameJournal id ls x inserted db =
      Ensures-bind (λ rows db'. OnlyBills db db') (λ r db'. SameJournal db db')
        (settle_bills c x.bills ls) _ db (settle_bills-OnlyBills c x.bills ls db)
        λ rows db1 s1. SameJournal-audited db db1 _ (bills-SameJournal db db1 s1)

  finish_apply-SameJournal :
      (id : ℕ) (ls : List CreateSupplierPaymentAllocationDto) (x : Applicable) (db : Db)
      → Ensures (λ r db'. SameJournal db db') (finish_apply p c id ls x db)
  unfolding finish_apply
  finish_apply-SameJournal id ls x db =
      Ensures-guarded (not (is_empty ls)) (internal no_values) (λ r db'. SameJournal db db')
        (λ r db'. SameJournal db db') (insert_allocations c id ls x.date)
        (settle_applied p c id ls x) db (insert-SameJournal id x.date ls db)
        λ inserted db1 s1.
          Ensures-map (λ r db'. SameJournal db1 db') (λ r db'. SameJournal db db')
            (settle_applied p c id ls x inserted db1)
            (λ r db' s2. SameJournal-trans db db1 db' s1 s2)
            (settle-SameJournal id ls x inserted db1)

  pub apply-SameJournal :
      (id : ℕ) (dto : ApplySupplierPaymentAllocationDto) (db : Db)
      → Ensures (λ r db'. SameJournal db db') (apply_allocation p c id dto db)
  unfolding apply_allocation
  apply-SameJournal id dto db =
      Ensures-bind (λ x db'. LoadsApply p c id db dto db' x) (λ r db'. SameJournal db db')
        (load_apply p c id dto) _ db (load_apply_shape p c id db dto)
        λ x db1 l.
          Ensures-bind (λ u db'. db' ≡ db) (λ r db'. SameJournal db db')
            (check_bills x.before.payment.supplier_id x.bills dto.allocations)
            (λ u. finish_apply p c id dto.allocations x) db1
            (Ensures-map _ (λ u db'. db' ≡ db) _ (λ u db' k. k.0 ∙ l.unchanged)
              (check_bills_shape x.before.payment.supplier_id x.bills dto.allocations db1))
            λ u db2 e2. rw e2 (finish_apply-SameJournal id dto.allocations x db)

  show-SameJournal :
      (id : ℕ) (before : _) (rows : _) (db : Db)
      → Ensures (λ r db'. SameJournal db db') (show_reversed p c id before rows db)
  unfolding show_reversed
  show-SameJournal id before rows db = ground arith

  finish_reverse-SameJournal :
      (id : ℕ) (x : Reversible) (db : Db)
      → Ensures (λ r db'. SameJournal db db') (finish_reverse p c id x db)
  unfolding finish_reverse
  finish_reverse-SameJournal id x db =
      Ensures-bind (λ rows db'. OnlyBills db db') (λ r db'. SameJournal db db')
        (unsettle_bills c x.bills (wanted x.before)) (show_reversed p c id x.before) db
        (unsettle_bills-OnlyBills c x.bills (wanted x.before) db)
        λ rows db1 s1.
          Ensures-map (λ r db'. SameJournal db1 db') (λ r db'. SameJournal db db')
            (show_reversed p c id x.before rows db1)
            (λ r db' s. SameJournal-trans db db1 db' (bills-SameJournal db db1 s1) s)
            (show-SameJournal id x.before rows db1)

  pub reverse-BooksStep :
      (id : ℕ) (dto : ReverseJournalEntryDto) (db : Db)
      → IsBooks db
      → Ensures (λ r db'. BooksStep db db') (reverse p c id dto db)
  unfolding reverse
  reverse-BooksStep id dto db h =
      let date = or_else dto.transaction_date p.today in
      Ensures-bind (λ x db'. LoadsReverse p c id db db' x) (λ r db'. BooksStep db db')
        (check_reverse p c id date) _ db (check_reverse_shape p c id db date)
        λ x db1 l.
          let memo = or_else dto.memo (payment_reversal_memo x.before) in
          rw l.unchanged (
            Ensures-bind (λ w db'. BooksStep db db') (λ r db'. BooksStep db db')
              (complete_reversal_posting p c x.original x.period date memo)
              (λ w. finish_reverse p c id x) db
              (complete-BooksStep p c db h x.original_id x.original x.period date memo l.accepts)
              λ w db2 step.
                BooksStep-then db db2 (finish_reverse p c id x db2) step
                  (finish_reverse-SameJournal id x db2))
