-- ===== src/SupplierPayments/Booking.antt =====
-- What post() writes to the journal: as a system-generated posting does.
use noryx_platform.Common.{
  ℕ, ◌≤◌, ◌≡◌, refl, ◌∙◌, true, false, none, some, List, [], ◌∷◌, ◌++◌, arith, sum, length,
}
use noryx_platform.Common.Decimal.{Text}
use noryx_platform.Common.Rows.{find, exists, update_where}
use noryx_platform.Database.{Db, Caller, Platform, JournalEntry}
use noryx_platform.Database.Tx.{Ensures}
use noryx_platform.Journal.{
  insert_lines, lines_accepted, entry_key, new_entry, mark_posted, journal_number_text,
  number_lines, entry_ids,
}
use noryx_platform.Books.Shape.{drawn, SameReference}
use noryx_platform.Books.Entries.{next_entry_id, appended}
use noryx_platform.Books.Tables.{has_id, exists-entry_ids}
use noryx_platform.SupplierPayments.{
  Postable, Booked, payment_memo, payment_lines, book_payment, payment_number_text,
}

-- In a table without its id, an update of a new row by its id is one by its id in scope.
update-fresh :
    (c : Caller) (r : JournalEntry) (f : JournalEntry → JournalEntry) (es : List JournalEntry)
    → r.tenant_id ≡ c.tenant_id
    → r.legal_entity_id ≡ c.legal_entity_id
    → exists (has_id r.id) es ≡ false
    → update_where (has_id r.id) f (es ++ r ∷ []) ≡ update_where (entry_key c r.id) f (es ++ r ∷ [])
update-fresh c r f [] t l n = ground arith
update-fresh c r f (x ∷ es) t l n = ground (arith, update-fresh c r f es t l (ground arith))

module _ (p : Platform) (c : Caller) (db : Db) (x : Postable) where
  -- The number that the payment takes.
  abbrev pub drawn_reference : Text
  drawn_reference =
      payment_number_text
        (drawn c (record db { journal_number_counters = db.ap_payment_number_counters })).0

  pub record Writes (b : Booked) (db' : Db) : Type 0 where
    pub reference : b.reference ≡ drawn_reference
    pub entries :
        db'.journal_entries
        ≡ update_where
            (has_id (next_entry_id p db))
            (mark_posted p c (journal_number_text (drawn c db).0) x.period.id)
            (db.journal_entries
              ++ new_entry p c
                  (next_entry_id p db)
                  x.before.payment.payment_date
                  x.before.payment.currency_code
                  (some (payment_memo drawn_reference))
                  none
                ∷ [])
    pub lines :
        db'.journal_lines
        ≡ db.journal_lines
          ++ number_lines c (next_entry_id p db) 0 (
              payment_lines drawn_reference x.settings.ap_control_account_id
                x.before.payment.bank_cash_account_id x.before.payment.payment_amount_minor)
    pub rows :
        b.entry.lines
        ≡ number_lines c (next_entry_id p db) 0 (
            payment_lines drawn_reference x.settings.ap_control_account_id
              x.before.payment.bank_cash_account_id x.before.payment.payment_amount_minor)
    pub accepted :
        lines_accepted db.chart_of_accounts db.tax_codes (
          payment_lines drawn_reference x.settings.ap_control_account_id
            x.before.payment.bank_cash_account_id x.before.payment.payment_amount_minor)
        ≡ true
    pub counters : db'.journal_number_counters ≡ (drawn c db).1
    pub entry : find (has_id (next_entry_id p db)) db'.journal_entries ≡ some b.entry.entry
    pub reference_same : SameReference db db'

  pub book_payment_shape : Ensures (λ b db'. Writes b db') (book_payment p c x db)
  unfolding book_payment insert_lines
  book_payment_shape = ground arith

  pub appended_entries :
      (db' : Db) (b : Booked)
      → Writes b db'
      → db'.journal_entries
        ≡ appended p c db
            (new_entry p c
              (next_entry_id p db)
              x.before.payment.payment_date
              x.before.payment.currency_code
              (some (payment_memo drawn_reference))
              none)
            x.period
  unfolding new_entry
  appended_entries db' b w =
      w.entries
      ∙ update-fresh c
          (new_entry p c (next_entry_id p db) x.before.payment.payment_date
            x.before.payment.currency_code (some (payment_memo drawn_reference)) none)
          (mark_posted p c (journal_number_text (drawn c db).0) x.period.id) db.journal_entries refl
          refl
          (exists-entry_ids (next_entry_id p db) db.journal_entries
            (p.new_id_fresh (entry_ids db.journal_entries)))

pub payment_lines_balance :
    (reference : Text) (control bank amount : ℕ)
    → (2 ≤ length (payment_lines reference control bank amount))
      × (sum (λ l. l.debit_minor) (payment_lines reference control bank amount)
          ≡ sum (λ l. l.credit_minor) (payment_lines reference control bank amount))
unfolding payment_lines
payment_lines_balance reference control bank amount = ground arith
