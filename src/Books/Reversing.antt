-- ===== src/Books/Reversing.antt =====
-- The operations that edit a draft and that reverse a posted entry keep the books a ledger.
use noryx_platform.Common.Rows.{
  find_holds, All-find, delete_where, exists-update_where, All-update_where, select, find, exists,
  update_where, exists-find,
}
use noryx_platform.Books.Shape.{replaced_lines, lines_at, Updates, update_shape}
use noryx_platform.Books.Entries.{
  resolve_shape, next_entry_id, Completes, complete_shape, Accepts, accept_shape,
}
use noryx_platform.Common.{
  true, suc, ◌==◌, ℕ, ◌≡◌, refl, sym, ap, ◌∙◌, Option, none, some, List, [], ◌∷◌, map, arith,
  length, sum,
}
use noryx_platform.Common.Decimal.{Text}
use noryx_platform.Database.{
  Db, Caller, Platform, AccountingPeriod, JournalEntry, JournalLine, EntryWithLines, draft, posted,
}
use noryx_platform.Database.Tx.{Ensures, Ensures-map, Ensures-bind}
use noryx_platform.Journal.{
  CreateJournalLineDto, UpdateJournalEntryDto, ReverseJournalEntryDto, entry_key, line_of,
  reversal_line, new_entry, header_patch, mark_posted, entry_ids, update, complete_reversal_posting,
  resolve_and_lock_open_period, lock_and_validate_original_for_reversal, reverse_in_tx,
}
use noryx_platform.Books.Tables.{
  has_id, IsDraftAt, IsDraftAt-find, exists-entry_ids, sum-order_by_line_number,
  length-order_by_line_number,
}
use noryx_platform.Books.Ledger.{Balances, BalancesIn, IsLedger, IsLedger-update_where}
use noryx_platform.Books.Statements.{
  IsLedger-insert_lines, IsLedger-delete_lines, IsLedger-new_posted,
}
use noryx_platform.Books.DoubleEntry.{IsSound}

-- Reversing every line exchanges the totals.
pub sum-reversal_line :
    (f : CreateJournalLineDto → ℕ) (g : JournalLine → ℕ) (ls : List JournalLine)
    → ((l : JournalLine) → f (reversal_line l) ≡ g l)
    → sum f (map reversal_line ls) ≡ sum g ls
sum-reversal_line f g [] h = refl
sum-reversal_line f g (l ∷ ls) h = omega (arith, h l, sum-reversal_line f g ls h)

length-reversal_line : (ls : List JournalLine) → length (map reversal_line ls) ≡ length ls
length-reversal_line [] = refl
length-reversal_line (l ∷ ls) = ap suc (length-reversal_line ls)

-- The lines of a posted entry, as they are read back, balance.
pub Balances-lines_at :
    (c : Caller) (id : ℕ) (db : Db) (e : JournalEntry)
    → IsSound db
    → find (entry_key c id) db.journal_entries ≡ some e
    → e.status ≡ posted
    → Balances (lines_at id db.journal_lines)
Balances-lines_at c id db e h found st =
    let key : entry_key c id e ≡ true = find_holds (entry_key c id) db.journal_entries e found in
    let here : e.id ≡ id = ground arith in
    let b : Balances (select (line_of id) db.journal_lines) = rw here at (
      All-find (BalancesIn db.journal_lines) (entry_key c id) db.journal_entries e h.balanced found
        st) in
    (
      omega (arith, length-order_by_line_number (select (line_of id) db.journal_lines), b.0),
      sum-order_by_line_number (λ l. l.debit_minor) (select (line_of id) db.journal_lines)
          ∙ b.1
          ∙ sym (
              sum-order_by_line_number (λ l. l.credit_minor)
                (select (line_of id) db.journal_lines)),
    )

module _ (p : Platform) (c : Caller) where
  patched :
      (db : Db) (id : ℕ) (dto : UpdateJournalEntryDto)
      → IsSound db
      → IsDraftAt id db.journal_entries
      → IsDraftAt id (update_where (entry_key c id) (header_patch p c dto) db.journal_entries)
        × IsLedger
            (update_where (entry_key c id) (header_patch p c dto) db.journal_entries)
            db.journal_lines
  unfolding header_patch
  patched db id dto h d = (
    All-update_where (λ x. (x.id == id) ≡ true → x.status ≡ draft) (entry_key c id)
        (header_patch p c dto) db.journal_entries (λ x k t. k) d,
    IsLedger-update_where db.journal_entries db.journal_lines h (entry_key c id)
        (header_patch p c dto) (λ e. refl) (λ e b t. b),
  )

  replaced_sound :
      (id : ℕ) (dtos : Option (List CreateJournalLineDto)) (es : List JournalEntry)
      (ls : List JournalLine)
      → IsLedger es ls
      → IsDraftAt id es
      → exists (has_id id) es ≡ true
      → IsLedger es (replaced_lines c id dtos ls)
  replaced_sound id none es ls h d t = h
  replaced_sound id (some dtos) es ls h d t =
      IsLedger-insert_lines c es (delete_where (line_of id) ls)
        (IsLedger-delete_lines c es ls h id d) id d 0 dtos t

  exists-keeps_find :
      (db : Db) (id : ℕ) (dto : UpdateJournalEntryDto) (e : JournalEntry)
      → find (entry_key c id) db.journal_entries ≡ some e
      → exists (has_id id) (update_where (entry_key c id) (header_patch p c dto) db.journal_entries)
        ≡ true
  unfolding header_patch
  exists-keeps_find db id dto e found =
      exists-update_where (has_id id) (entry_key c id) (header_patch p c dto) db.journal_entries
        (λ x. refl)
      ∙ exists-find (entry_key c id) (has_id id) db.journal_entries e found (
          let key : entry_key c id e ≡ true =
            find_holds (entry_key c id) db.journal_entries e found in
          ground arith)

  pub update-IsSound :
      (db : Db) (id : ℕ) (dto : UpdateJournalEntryDto)
      → IsSound db
      → Ensures (λ r db'. IsSound db') (update p c id dto db)
  update-IsSound db id dto h =
      Ensures-map (λ r db'. Updates p c db db' r id dto) (λ r db'. IsSound db')
        (update p c id dto db)
        (λ r db' s.
          let d : IsDraftAt id db.journal_entries =
            IsDraftAt-find c id db.journal_entries s.before h.unique s.found s.was_draft in
          let (d', h') = patched db id dto h d in
          rw (s.entries, s.lines)
            (replaced_sound id dto.lines _ db.journal_lines h' d'
              (exists-keeps_find db id dto s.before s.found)))
        (update_shape p c db id dto)

  pub complete-IsSound :
      (db : Db) (original : EntryWithLines) (period : AccountingPeriod) (date : ℕ) (memo : Text)
      → IsSound db
      → Balances original.lines
      → Ensures (λ r db'. IsSound db') (complete_reversal_posting p c original period date memo db)
  unfolding new_entry mark_posted reversal_line
  complete-IsSound db original period date memo h b =
      Ensures-map (λ r db'. Completes p c db db' r original period date memo) (λ r db'. IsSound db')
        (complete_reversal_posting p c original period date memo db)
        (λ r db' s.
          let draft_row =
            new_entry p c (next_entry_id p db) date original.entry.currency_code (some memo)
              (some original.entry.id) in
          let dtos : List CreateJournalLineDto = map reversal_line original.lines in
          let even : sum (λ l. l.debit_minor) dtos ≡ sum (λ l. l.credit_minor) dtos =
            sum-reversal_line (λ l. l.debit_minor) (λ l. l.credit_minor) original.lines (λ l. refl)
            ∙ sym b.1
            ∙ sym (
                sum-reversal_line (λ l. l.credit_minor) (λ l. l.debit_minor) original.lines
                  (λ l. refl)) in
          let posted_ledger =
            IsLedger-new_posted c db.journal_entries db.journal_lines h draft_row
              (exists-entry_ids (next_entry_id p db) db.journal_entries
                (p.new_id_fresh (entry_ids db.journal_entries)))
              refl dtos (mark_posted p c _ _) (λ x. refl)
              (omega (arith, length-reversal_line original.lines, b.0)) even in
          rw (s.entries, s.lines)
            (IsLedger-update_where _ _ posted_ledger (entry_key c original.entry.id) _ (λ e. refl)
              (λ e k t. k)))
        (complete_shape p c db original period date memo)

  -- If ids are unique, every line belongs to an entry and every posted entry balances, a
  -- reversal keeps it so.
  pub reverse_in_tx-IsSound :
      (db : Db) (id : ℕ) (dto : ReverseJournalEntryDto)
      → IsSound db
      → Ensures (λ r db'. IsSound db') (reverse_in_tx p c id dto db)
  unfolding reverse_in_tx
  reverse_in_tx-IsSound db id dto h =
      Ensures-bind (λ r db'. Accepts c id db db' r) (λ r db'. IsSound db')
        (lock_and_validate_original_for_reversal c id) _ db (accept_shape c id db)
        λ original db1 a.
          let lines : Balances original.lines =
            rw a.rows (Balances-lines_at c id db original.entry h a.found a.was_posted) in
          Ensures-bind (λ period db2. db2 ≡ db1) (λ r db'. IsSound db')
            (resolve_and_lock_open_period c _) _ db1
            (Ensures-map _ (λ period db2. db2 ≡ db1) _ (λ period db2 r. r.0)
              (resolve_shape c _ db1))
            λ period db2 same.
              complete-IsSound db2 original period _ _ (rw (same, a.unchanged) h) lines
