-- ===== src/SupplierPayments/Paid.antt =====
-- A payment whose checks pass is posted, with its entry in the journal.
use noryx_platform.SupplierPayments.Ready.{
  IsPayable, payment_accepted, check_bills_pass, payable-Fits, usable_asset, settings_key,
  asset_exists, found_id, stored_payment, load_passes, total_passes,
}
use noryx_platform.Common.Rows.{select, update_where, find, exists, find-update_where}
use noryx_platform.Journal.{
  covers, entry_key, new_entry, mark_posted, journal_number_text, number_lines, lines_accepted,
}
use noryx_platform.Common.{
  ℕ, ◌≤◌, ◌≡◌, refl, sym, ap, ◌∙◌, true, none, some, List, ◌++◌, arith, ◌==◌, All,
}
use noryx_platform.Database.{
  ApSettings, AccountingPeriod, open_period, draft_document, Db, Caller, Platform, Account,
  JournalEntry, EntryWithLines, SupplierBill, SupplierPayment, PaymentWithAllocations,
}
use noryx_platform.Database.Tx.{
  ◌>>=◌, Achieves, Achieves-after, Returns-Achieves, Returns-bind, Ensures-both, ok, Ensures,
  Ensures-map, Ensures-bind,
}
use noryx_platform.SupplierPayments.{
  post, load_post, check_total, requested_total, bill_ids, lock_bills, allocation_of, payment_key,
  wanted, Postable, Booked, payment_memo, payment_lines, check_bills, book_payment, mark_paid,
  commit_payment, settle_bills, finish_post,
}
use noryx_platform.SupplierPayments.Loads.{IsPayment}
use noryx_platform.SupplierPayments.Applied.{finish_post-IsCovered, IsCovered}
use noryx_platform.SupplierPayments.Completion.{
  book_payment-Returns, finish_post-Returns, entry_there,
}
use mathlib.Core.Option.{some-injective}
use noryx_platform.Common.Decimal.{Text}
use noryx_platform.Books.Shape.{drawn}
use noryx_platform.Books.Appended.{find-appended}
use noryx_platform.Books.Entries.{next_entry_id}
use noryx_platform.Books.Outcomes.{IsEntered, IsTransfer, next-number}
use noryx_platform.Settlement.{fits}
use noryx_platform.SupplierPayments.Frames.{Fits, OnlyBills, settle_bills-OnlyBills}
use noryx_platform.SupplierPayments.Booking.{
  Writes, book_payment_shape, drawn_reference, appended_entries,
}

-- What the posting of a payment leaves: the stored payment, posted and not overdrawn, and the
-- posted entry that it names, whose two lines are the ones that are added.
pub record IsPaid (p : Platform) (c : Caller) (x : SupplierPayment) (control period : ℕ)
    (db db' : Db) (r : PaymentWithAllocations) : Type 0 where
  pub payment : IsCovered c x.id db' r
  pub same_amount : r.payment.payment_amount_minor ≡ x.payment_amount_minor
  pub entry : EntryWithLines
  pub names : r.payment.journal_entry_id ≡ some entry.entry.id
  pub entered : IsEntered p c period db db' entry.entry
  pub dated : entry.entry.transaction_date ≡ x.payment_date
  pub lines :
      IsTransfer entry.entry.id x.bank_cash_account_id control x.payment_amount_minor entry.lines
  pub added : db'.journal_lines ≡ db.journal_lines ++ entry.lines

payment_lines-IsTransfer :
    (c : Caller) (id : ℕ) (reference : Text) (control bank amount : ℕ)
    → IsTransfer id bank control amount
        (number_lines c id 0 (payment_lines reference control bank amount))
unfolding payment_lines number_lines
payment_lines-IsTransfer c id reference control bank amount = record {
  debit = _;
  credit = _;
  two = refl;
  owned = (refl, refl);
  accounts = (refl, refl);
  debited = (refl, refl);
  credited = (refl, refl);
}

module _ (p : Platform) (c : Caller) where
  -- The entry that is booked.
  record Books (x : Postable) (db : Db) (b : Booked) (db' : Db) : Type 0 where
    entered : IsEntered p c x.period.id db db' b.entry.entry
    dated : b.entry.entry.transaction_date ≡ x.before.payment.payment_date
    lines :
        IsTransfer b.entry.entry.id x.before.payment.bank_cash_account_id
          x.settings.ap_control_account_id x.before.payment.payment_amount_minor b.entry.lines
    added : db'.journal_lines ≡ db.journal_lines ++ b.entry.lines
    payments : db'.supplier_payments ≡ db.supplier_payments
    allocations : db'.supplier_payment_allocations ≡ db.supplier_payment_allocations

  book_payment-Books :
      (x : Postable) (db : Db) → Ensures (λ b db'. Books x db b db') (book_payment p c x db)
  unfolding new_entry mark_posted
  book_payment-Books x db =
      Ensures-map (λ b db'. Writes p c db x b db') (λ b db'. Books x db b db')
        (book_payment p c x db)
        (λ b db' w.
          let payment = x.before.payment in
          let id = next_entry_id p db in
          let memo = payment_memo (drawn_reference p c db x) in
          let row = new_entry p c id payment.payment_date payment.currency_code (some memo) none in
          let number = journal_number_text (drawn c db).0 in
          let e≡ : b.entry.entry ≡ mark_posted p c number x.period.id row = some-injective _ _ (
            sym w.entry
            ∙ ap (find (λ (e : JournalEntry). e.id == id)) w.entries
            ∙ entry_there p c db row number x.period.id refl) in
          let same : b.entry.entry.id ≡ id = ap (λ (e : JournalEntry). e.id) e≡ in
          record {
            entered = record {
              stored =
                  ap (λ k. find (entry_key c k) db'.journal_entries) same
                  ∙ ap (find (entry_key c id)) (appended_entries p c db x db' b w)
                  ∙ find-appended p c db payment.payment_date payment.currency_code memo none
                      x.period
                  ∙ ap some (sym e≡);
              is_posted = ap (λ e. e.status) e≡;
              number =
                  ap (λ e. e.journal_number) e≡
                  ∙ ap (λ k. some (journal_number_text k)) (next-number c db);
              in_period = ap (λ e. e.period_id) e≡;
              posted_now = ap (λ e. e.posted_at) e≡;
              posted_by_caller = ap (λ e. e.posted_by) e≡;
            };
            dated = ap (λ e. e.transaction_date) e≡;
            lines =
                rw (w.rows, same)
                  (payment_lines-IsTransfer c id (drawn_reference p c db x)
                    x.settings.ap_control_account_id payment.bank_cash_account_id
                    payment.payment_amount_minor);
            added = w.lines ∙ ap (λ t. db.journal_lines ++ t) (sym w.rows);
            payments = w.reference_same.supplier_payments;
            allocations = w.reference_same.supplier_payment_allocations;
          })
        (book_payment_shape p c db x)

  commit_keeps :
      (id : ℕ) (reference : Text) (entry period : ℕ) (db : Db)
      → Ensures
          (λ x db'.
            (find (payment_key c id) db'.supplier_payments ≡ some x)
            × (db'.supplier_payments
                ≡ update_where
                    (payment_key c id)
                    (mark_paid p c reference entry period)
                    db.supplier_payments)
            × (db'.journal_entries ≡ db.journal_entries)
            × (db'.journal_lines ≡ db.journal_lines))
          (commit_payment p c id reference entry period db)
  unfolding commit_payment
  commit_keeps id reference entry period db = ground arith

  finish_post-names :
      (id : ℕ) (x : Postable) (b : Booked) (db : Db)
      → find (payment_key c id) db.supplier_payments ≡ some x.before.payment
      → Ensures
          (λ r db'.
            (r.payment.journal_entry_id ≡ some b.entry.entry.id)
            × (r.payment.payment_amount_minor ≡ x.before.payment.payment_amount_minor)
            × (db'.journal_entries ≡ db.journal_entries)
            × (db'.journal_lines ≡ db.journal_lines))
          (finish_post p c id x b db)
  unfolding finish_post mark_paid
  finish_post-names id x b db e =
      let entry = b.entry.entry.id in
      Ensures-bind _ _ (commit_payment p c id b.reference entry x.period.id) _ db
        (commit_keeps id b.reference entry x.period.id db)
        λ posted db1 s.
          let same : posted ≡ mark_paid p c b.reference entry x.period.id x.before.payment =
            some-injective _ _ (
              sym s.0
              ∙ ap (find (payment_key c id)) s.1
              ∙ find-update_where (payment_key c id) (mark_paid p c b.reference entry x.period.id)
                  db.supplier_payments x.before.payment (λ y. refl) e) in
          Ensures-bind (λ rows db'. OnlyBills db1 db') _ (settle_bills c x.bills (wanted x.before))
            _ db1 (settle_bills-OnlyBills c x.bills (wanted x.before) db1)
            λ rows db2 o. (
              ap (λ (y : SupplierPayment). y.journal_entry_id) same,
              ap (λ (y : SupplierPayment). y.payment_amount_minor) same,
              ap (λ (d : Db). d.journal_entries) o ∙ s.2,
              ap (λ (d : Db). d.journal_lines) o ∙ s.3,
            )

  booked_Achieves :
      (id : ℕ) (x : Postable) (db : Db)
      → IsPayment c id db x.before
      → x.before.payment.id ≡ id
      → requested_total (wanted x.before) ≤ x.before.payment.payment_amount_minor
      → All (Fits x.bills) (wanted x.before)
      → lines_accepted db.chart_of_accounts db.tax_codes (
          payment_lines
            (drawn_reference p c db x)
            x.settings.ap_control_account_id
            x.before.payment.bank_cash_account_id
            x.before.payment.payment_amount_minor)
        ≡ true
      → Achieves
          (λ r db'.
            IsPaid p c x.before.payment x.settings.ap_control_account_id x.period.id db db' r)
          ((book_payment p c x >>= finish_post p c id x) db)
  booked_Achieves id x db is own within fits accepted =
      Returns-Achieves _ ((book_payment p c x >>= finish_post p c id x) db)
        (Returns-bind (λ b db'. Books x db b db') (book_payment p c x) (finish_post p c id x) db
          (book_payment-Returns p c x db accepted) (book_payment-Books x db)
          (λ b db1 k.
            finish_post-Returns p c id x b db1 (ap (find (payment_key c id)) k.payments ∙ is.found)
              fits))
        (Ensures-bind (λ b db'. Books x db b db') _ (book_payment p c x) (finish_post p c id x) db
          (book_payment-Books x db)
          (λ b db1 k.
            let found = ap (find (payment_key c id)) k.payments ∙ is.found in
            let is1 : IsPayment c id db1 x.before = record {
              found = found;
              rows = is.rows ∙ ap (select (allocation_of id)) (sym k.allocations);
            } in
            Ensures-map _ _ (finish_post p c id x b db1)
              (λ r db' h. record {
                payment = rw own h.0;
                same_amount = h.1.1;
                entry = b.entry;
                names = h.1.0;
                entered = record {
                  stored = ap (find (entry_key c b.entry.entry.id)) h.1.2 ∙ k.entered.stored;
                  is_posted = k.entered.is_posted;
                  number = k.entered.number;
                  in_period = k.entered.in_period;
                  posted_now = k.entered.posted_now;
                  posted_by_caller = k.entered.posted_by_caller;
                };
                dated = k.dated;
                lines = k.lines;
                added = h.1.3 ∙ k.added;
              })
              (Ensures-both (λ r db'. IsCovered c id db' r) _ (finish_post p c id x b db1)
                (finish_post-IsCovered p c id x b db1 is1 within)
                (finish_post-names id x b db1 found))))

  -- When the payment with this id in the caller's scope is a draft of at least 1, its account is
  -- an active asset account of the scope, the scope has AP settings whose control account exists,
  -- an open period covers its date, each of its allocations is to a bill that was posted, is of
  -- its supplier and owes at least as much, and the allocations are together at most its amount,
  -- post() returns: the answer is the stored payment, which is posted and names a stored entry,
  -- posted on its date in that period by the caller with the number after the last one of the
  -- scope; and the only lines that are added debit the control account and credit the payment's
  -- account with its amount.
  pub post_pays :
      (id : ℕ) (x : SupplierPayment) (a : Account) (s : ApSettings) (q : AccountingPeriod)
      (bills : List SupplierBill) (db : Db)
      → find (payment_key c id) db.supplier_payments ≡ some x
      → x.status ≡ draft_document
      → 1 ≤ x.payment_amount_minor
      → find (usable_asset c x.bank_cash_account_id) db.chart_of_accounts ≡ some a
      → find (settings_key c) db.ap_settings ≡ some s
      → exists (λ (k : Account). k.id == s.ap_control_account_id) db.chart_of_accounts ≡ true
      → find (covers c x.payment_date) db.accounting_periods ≡ some q
      → q.status ≡ open_period
      → lock_bills c (bill_ids (wanted (stored_payment id x db))) db ≡ ok (bills, db)
      → All (IsPayable x.supplier_id bills) (wanted (stored_payment id x db))
      → requested_total (wanted (stored_payment id x db)) ≤ x.payment_amount_minor
      → Achieves (λ r db'. IsPaid p c x s.ap_control_account_id q.id db db' r) (post p c id db)
  unfolding post
  post_pays id x a s q bills db found draft_ amount asset settings control cover open_ locked
        payable within =
      let X : Postable = record {
        before = stored_payment id x db;
        settings = s;
        period = q;
        bills = bills;
      } in
      let own : x.id ≡ id = found_id c id x db.supplier_payments found in
      let Q = λ (r : PaymentWithAllocations) (db' : Db).
        IsPaid p c x s.ap_control_account_id q.id db db' r in
      Achieves-after Q (load_post p c id) _ db db X
        (load_passes p c id x a s q bills db found draft_ asset settings cover open_ locked)
        (Achieves-after Q (check_bills x.supplier_id bills (wanted X.before)) _ db db tt
          (check_bills_pass x.supplier_id bills (wanted X.before) db payable)
          (Achieves-after Q (check_total p c X.before) _ db db tt
            (total_passes p c X.before db within)
            (booked_Achieves id X db (record { found = found; rows = refl }) own within
              (payable-Fits x.supplier_id bills (wanted X.before) payable)
              (payment_accepted (drawn_reference p c db X) s.ap_control_account_id
                x.bank_cash_account_id x.payment_amount_minor db.chart_of_accounts db.tax_codes
                amount control
                (asset_exists c x.bank_cash_account_id a db.chart_of_accounts asset)))))
