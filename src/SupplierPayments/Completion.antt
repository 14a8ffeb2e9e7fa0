-- ===== src/SupplierPayments/Completion.antt =====
-- The steps of post() after its checks return, when the lines of the entry are accepted.
use noryx_platform.Common.{
  true, ℕ, ◌≡◌, refl, ◌∙◌, false, none, some, List, [], ◌∷◌, ◌++◌, arith, All,
}
use noryx_platform.Common.Decimal.{Text}
use noryx_platform.Common.Rows.{find, exists, update_where, find-append_none, find-update_where}
use noryx_platform.Database.{Db, Caller, Platform, JournalEntry, SupplierBill, SupplierPayment}
use noryx_platform.Database.Tx.{Returns, Returns-then}
use noryx_platform.Books.Shape.{drawn}
use noryx_platform.Journal.{
  insert_lines, lines_accepted, journal_number_text, new_entry, mark_posted, entry_ids,
}
use noryx_platform.Books.Entries.{next_entry_id}
use noryx_platform.Books.Tables.{has_id, exists-entry_ids}
use noryx_platform.SupplierPayments.{
  CreateSupplierPaymentAllocationDto, payment_key, wanted, Postable, Booked, book_payment,
  payment_memo, payment_lines, mark_paid, commit_payment, settle_bill, settle_bills, finish_post,
}
use noryx_platform.SupplierPayments.Frames.{Fits}
use noryx_platform.SupplierPayments.Booking.{drawn_reference}

find_absent :
    (id : ℕ) (es : List JournalEntry) → exists (has_id id) es ≡ false → find (has_id id) es ≡ none
find_absent id [] h = refl
find_absent id (e ∷ es) h = ground (arith, find_absent id es)

module _ (c : Caller) (bills : List SupplierBill) where
  settle_bill-Returns :
      (a : CreateSupplierPaymentAllocationDto) (db : Db)
      → Fits bills a
      → Returns (settle_bill c bills a db)
  unfolding settle_bill
  settle_bill-Returns a db h = rw (Returns, h.1) tt

  settle_bills-Returns :
      (ls : List CreateSupplierPaymentAllocationDto) (db : Db)
      → All (Fits bills) ls
      → Returns (settle_bills c bills ls db)
  unfolding settle_bills
  settle_bills-Returns [] db h = tt
  settle_bills-Returns (a ∷ ls) db h =
      Returns-then (settle_bill c bills a) _ db (settle_bill-Returns a db h.0) λ row db1.
        Returns-then (settle_bills c bills ls) _ db1 (settle_bills-Returns ls db1 h.1)
          λ rows db2. tt

module _ (p : Platform) (c : Caller) where
  pub entry_there :
      (db : Db) (row : JournalEntry) (number : Text) (period : ℕ)
      → row.id ≡ next_entry_id p db
      → find (has_id row.id) (
          update_where
            (has_id row.id)
            (mark_posted p c number period)
            (db.journal_entries ++ row ∷ []))
        ≡ some (mark_posted p c number period row)
  unfolding mark_posted
  entry_there db row number period e =
      let absent : exists (has_id row.id) db.journal_entries ≡ false = rw e (
        exists-entry_ids (next_entry_id p db) db.journal_entries
          (p.new_id_fresh (entry_ids db.journal_entries))) in
      find-update_where (has_id row.id) (mark_posted p c number period)
        (db.journal_entries ++ row ∷ []) row (λ x. refl)
        (find-append_none (has_id row.id) db.journal_entries (row ∷ [])
            (find_absent row.id db.journal_entries absent)
          ∙ ground arith)

  pub book_payment-Returns :
      (x : Postable) (db : Db)
      → lines_accepted db.chart_of_accounts db.tax_codes (
          payment_lines
            (drawn_reference p c db x)
            x.settings.ap_control_account_id
            x.before.payment.bank_cash_account_id
            x.before.payment.payment_amount_minor)
        ≡ true
      → Returns (book_payment p c x db)
  unfolding book_payment insert_lines new_entry
  book_payment-Returns x db accepted =
      let payment = x.before.payment in
      let row =
        new_entry p c (next_entry_id p db) payment.payment_date payment.currency_code
          (some (payment_memo (drawn_reference p c db x))) none in
      let there = entry_there db row (journal_number_text (drawn c db).0) x.period.id refl in
      ground (arith, there, accepted)

  commit_payment-Returns :
      (id : ℕ) (reference : Text) (entry period : ℕ) (db : Db) (x : SupplierPayment)
      → find (payment_key c id) db.supplier_payments ≡ some x
      → Returns (commit_payment p c id reference entry period db)
  unfolding commit_payment mark_paid
  commit_payment-Returns id reference entry period db x e =
      let there =
        find-update_where (payment_key c id) (mark_paid p c reference entry period)
          db.supplier_payments x (λ y. refl) e in
      rw (Returns, there) tt

  pub finish_post-Returns :
      (id : ℕ) (x : Postable) (b : Booked) (db : Db)
      → find (payment_key c id) db.supplier_payments ≡ some x.before.payment
      → All (Fits x.bills) (wanted x.before)
      → Returns (finish_post p c id x b db)
  unfolding finish_post
  finish_post-Returns id x b db e fits =
      let entry = b.entry.entry.id in
      Returns-then (commit_payment p c id b.reference entry x.period.id) _ db
        (commit_payment-Returns id b.reference entry x.period.id db x.before.payment e)
        λ posted db1.
          Returns-then (settle_bills c x.bills (wanted x.before)) _ db1
            (settle_bills-Returns c x.bills (wanted x.before) db1 fits) λ rows db2. tt
