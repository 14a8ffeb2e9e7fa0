-- ===== src/Books/DoubleEntry.antt =====
-- Every operation of JournalEntriesService keeps the books a ledger.
use noryx_platform.Common.{
  ℕ, ◌≤◌, ◌≡◌, refl, sym, ap, ◌∙◌, false, none, some, List, [], arith, length, sum, or_else,
}
use noryx_platform.Common.Decimal.{Text}
use noryx_platform.Common.Rows.{select, exists}
use noryx_platform.Database.{Db, Caller, Platform, AccountingPeriod, draft}
use noryx_platform.Database.Tx.{Ensures, Ensures-map}
use noryx_platform.Journal.{
  CreateJournalLineDto, CreateJournalEntryDto, entry_key, line_of, new_entry, mark_posted,
  entry_ids, create, remove, post, post_system_generated_entry,
}
use noryx_platform.Books.Shape.{Creates, Posts, Removes, create_shape, post_shape, remove_shape}
use noryx_platform.Books.Entries.{next_entry_id, Generates, generate_shape}
use noryx_platform.Books.Tables.{
  has_id, IsDraftAt-find, exists-entry_ids, sum-order_by_line_number, length-order_by_line_number,
}
use noryx_platform.Books.Ledger.{IsLedger, IsLedger-update_where}
use noryx_platform.Books.Statements.{IsLedger-new, IsLedger-new_posted}
use noryx_platform.Books.Removal.{IsLedger-delete_entry}

-- The invariant on the whole database.
abbrev pub IsSound : Db → Type 0
IsSound db = IsLedger db.journal_entries db.journal_lines

module _ (p : Platform) (c : Caller) (db : Db) (h : IsSound db) where
  fresh : exists (has_id (next_entry_id p db)) db.journal_entries ≡ false
  fresh =
      exists-entry_ids (next_entry_id p db) db.journal_entries
        (p.new_id_fresh (entry_ids db.journal_entries))

  pub create-IsSound :
      (dto : CreateJournalEntryDto) → Ensures (λ r db'. IsSound db') (create p c dto db)
  unfolding new_entry
  create-IsSound dto =
      Ensures-map (λ r db'. Creates p c db db' r dto) (λ r db'. IsSound db') (create p c dto db)
        (λ r db' s.
          let id : r.entry.id ≡ next_entry_id p db = ap (λ e. e.id) s.entry in
          let d : r.entry.status ≡ draft = ap (λ e. e.status) s.entry in
          rw (s.entries, s.lines, s.rows)
            (IsLedger-new c db.journal_entries db.journal_lines h r.entry (rw id fresh) d
              (or_else dto.lines [])))
        (create_shape p c db dto)

  pub remove-IsSound : (id : ℕ) → Ensures (λ r db'. IsSound db') (remove p c id db)
  remove-IsSound id =
      Ensures-map (λ r db'. Removes p c db db' r id) (λ r db'. IsSound db') (remove p c id db)
        (λ r db' s.
          rw (s.entries, s.lines)
            (IsLedger-delete_entry c id db.journal_entries db.journal_lines h
              (IsDraftAt-find c id db.journal_entries s.before h.unique s.found s.was_draft)))
        (remove_shape p c db id)

  -- If ids are unique, every line belongs to an entry and every posted entry balances, a post
  -- keeps it so.
  pub post-IsSound : (id : ℕ) → Ensures (λ r db'. IsSound db') (post p c id db)
  unfolding mark_posted
  post-IsSound id =
      Ensures-map (λ r db'. Posts p c db db' r id) (λ r db'. IsSound db') (post p c id db)
        (λ r db' s.
          rw (s.entries, s.lines)
            (IsLedger-update_where db.journal_entries db.journal_lines h (entry_key c id)
              (mark_posted p c _ _) (λ e. refl)
              λ e b key now.
                let here : e.id ≡ id = ground arith in
                rw here (
                  omega (
                    arith,
                    length-order_by_line_number (select (line_of id) db.journal_lines),
                    s.enough,
                  ),
                  sym (
                        sum-order_by_line_number (λ l. l.debit_minor)
                          (select (line_of id) db.journal_lines))
                      ∙ s.even
                      ∙ sum-order_by_line_number (λ l. l.credit_minor)
                          (select (line_of id) db.journal_lines),
                )))
        (post_shape p c db id)

  pub post_system_generated_entry-IsSound :
      (dtos : List CreateJournalLineDto) (period : AccountingPeriod) (date : ℕ)
      (memo currency : Text)
      → 2 ≤ length dtos
      → sum (λ l. l.debit_minor) dtos ≡ sum (λ l. l.credit_minor) dtos
      → Ensures
          (λ r db'. IsSound db')
          (post_system_generated_entry p c dtos period date memo currency db)
  unfolding new_entry mark_posted
  post_system_generated_entry-IsSound dtos period date memo currency n even =
      Ensures-map (λ r db'. Generates p c db db' r dtos period date memo currency)
        (λ r db'. IsSound db') (post_system_generated_entry p c dtos period date memo currency db)
        (λ r db' s.
          rw (s.entries, s.lines)
            (IsLedger-new_posted c db.journal_entries db.journal_lines h
              (new_entry p c (next_entry_id p db) date currency (some memo) none) fresh refl dtos
              (mark_posted p c _ _) (λ x. refl) n even))
        (generate_shape p c db dtos period date memo currency)
