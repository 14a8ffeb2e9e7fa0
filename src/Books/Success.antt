-- ===== src/Books/Success.antt =====
-- When post(), a system-generated posting and the completion of a reversal return: the conditions
-- that their guards and the constraints of the tables leave.
use noryx_platform.Journal.{
  complete_reversal_posting, ReverseJournalEntryDto, reverse_in_tx, reversal_line, shown,
  CreateJournalLineDto, new_entry, number_lines, post_system_generated_entry, entry_key, covers,
  insert_lines, lines_accepted, revalidate_lines_for_posting_or_throw, total_debit, total_credit,
  mark_posted, journal_number_text, post,
}
use noryx_platform.Books.Linked.{find-appended_original}
use noryx_platform.Database.{
  EntryWithLines, posted, Db, Caller, Platform, AccountingPeriod, JournalEntry, draft, open_period,
}
use noryx_platform.Common.{
  ◌++◌, map, or_else, List, none, ℕ, ◌≤◌, ◌≡◌, some, true, arith, length, refl,
}
use noryx_platform.Common.Decimal.{codes, Text}
use noryx_platform.Common.Rows.{find-update_where, update_where, find}
use noryx_platform.Books.Appended.{find-appended}
use noryx_platform.Books.Entries.{next_entry_id, appended}
use noryx_platform.Database.Tx.{Answers, ok}
use noryx_platform.Books.Shape.{drawn, lines_at}

pub post-Answers :
    (p : Platform) (c : Caller) (id : ℕ) (e : JournalEntry) (q : AccountingPeriod) (db : Db)
    → find (entry_key c id) db.journal_entries ≡ some e
    → e.status ≡ draft
    → 2 ≤ length (lines_at id db.journal_lines)
    → total_debit (lines_at id db.journal_lines) ≡ total_credit (lines_at id db.journal_lines)
    → revalidate_lines_for_posting_or_throw c (lines_at id db.journal_lines) db ≡ ok (tt, db)
    → find (covers c e.transaction_date) db.accounting_periods ≡ some q
    → q.status ≡ open_period
    → Answers
        (record {
          entry = mark_posted p c (journal_number_text (drawn c db).0) q.id e;
          lines = lines_at id db.journal_lines;
        })
        (post p c id db)
unfolding post mark_posted
post-Answers p c id e q db found d n even valid cover open_ =
    let number = journal_number_text (drawn c db).0 in
    let there : find (entry_key c id)
          (update_where (entry_key c id) (mark_posted p c number q.id) db.journal_entries)
        ≡ some (mark_posted p c number q.id e) =
      find-update_where (entry_key c id) (mark_posted p c number q.id) db.journal_entries e
        (λ x. refl) found in
    ground arith

-- A system-generated posting has no guard of its own: it returns when its lines are accepted.
pub generate_succeeds :
    (p : Platform) (c : Caller) (db : Db) (dtos : List CreateJournalLineDto)
    (period : AccountingPeriod) (date : ℕ) (memo currency : Text)
    → lines_accepted db.chart_of_accounts db.tax_codes dtos ≡ true
    → Answers
        (record {
          entry =
              mark_posted p c
                (journal_number_text (drawn c db).0)
                period.id
                (new_entry p c (next_entry_id p db) date currency (some memo) none);
          lines = number_lines c (next_entry_id p db) 0 dtos;
        })
        (post_system_generated_entry p c dtos period date memo currency db)
unfolding post_system_generated_entry insert_lines new_entry mark_posted number_lines
generate_succeeds p c db dtos period date memo currency accepted =
    let there : find (entry_key c (next_entry_id p db)) (
          appended p c db (new_entry p c (next_entry_id p db) date currency (some memo) none)
            period)
        ≡ some (
            mark_posted p c (journal_number_text (drawn c db).0) period.id
              (new_entry p c (next_entry_id p db) date currency (some memo) none)) =
      find-appended p c db date currency memo none period in
    ground (arith, there)

-- The completion of a reversal too.
pub complete_succeeds :
    (p : Platform) (c : Caller) (original : EntryWithLines) (q : AccountingPeriod) (date : ℕ)
    (memo : Text) (db : Db)
    → find (entry_key c original.entry.id) db.journal_entries ≡ some original.entry
    → lines_accepted db.chart_of_accounts db.tax_codes (map reversal_line original.lines) ≡ true
    → Answers
        (record {
          entry = mark_posted p c (journal_number_text (drawn c db).0) q.id (
              new_entry p c
                (next_entry_id p db)
                date
                original.entry.currency_code
                (some memo)
                (some original.entry.id));
          lines = number_lines c (next_entry_id p db) 0 (map reversal_line original.lines);
        })
        (complete_reversal_posting p c original q date memo db)
unfolding complete_reversal_posting insert_lines new_entry mark_posted number_lines
complete_succeeds p c original q date memo db own accepted =
    let e = original.entry in
    let row = new_entry p c (next_entry_id p db) date e.currency_code (some memo) (some e.id) in
    let there : find (entry_key c (next_entry_id p db)) (appended p c db row q)
        ≡ some (mark_posted p c (journal_number_text (drawn c db).0) q.id row) =
      find-appended p c db date e.currency_code memo (some e.id) q in
    let linked : find (entry_key c e.id) (
          update_where (entry_key c e.id)
            (λ x. record x { reversed_by_journal_entry_id = some (next_entry_id p db) })
            (appended p c db row q))
        ≡ some (record e { reversed_by_journal_entry_id = some (next_entry_id p db) }) =
      find-update_where (entry_key c e.id)
        (λ x. record x { reversed_by_journal_entry_id = some (next_entry_id p db) })
        (appended p c db row q) e (λ x. refl)
        (find-appended_original p c db original q date memo own) in
    ground (arith, there, linked)

-- The guards of reverse() let such an entry through to the completion.
pub reverse_complete :
    (p : Platform) (c : Caller) (id : ℕ) (dto : ReverseJournalEntryDto) (e : JournalEntry)
    (q : AccountingPeriod) (db : Db)
    → find (entry_key c id) db.journal_entries ≡ some e
    → e.status ≡ posted
    → e.reversed_by_journal_entry_id ≡ none
    → e.reversal_of_journal_entry_id ≡ none
    → find (covers c (or_else dto.transaction_date p.today)) db.accounting_periods ≡ some q
    → q.status ≡ open_period
    → reverse_in_tx p c id dto db
      ≡ complete_reversal_posting p c
          (record { entry = e; lines = lines_at id db.journal_lines })
          q
          (or_else dto.transaction_date p.today)
          (or_else dto.memo (codes "Reversal of " ++ shown e.journal_number))
          db
unfolding reverse_in_tx
reverse_complete p c id dto e q db found st free new cover open_ = ground arith
