-- ===== src/Journal/Posting.antt =====
-- post() and postSystemGeneratedEntry().
use noryx_platform.Common.{ℕ, none, some, List, [], ◌∷◌, length, sum, leb, ◌==◌}
use noryx_platform.Common.Decimal.{Text}
use noryx_platform.Common.Rows.{find}
use noryx_platform.Database.{
  Caller, Platform, AuditAction, entry_with_lines, not_found, conflict, unprocessable, internal,
  no_such_row, already_posted, too_few_lines, unbalanced, posted, AccountingPeriod, JournalEntry,
  JournalLine, EntryWithLines,
}
use noryx_platform.Database.Tx.{Tx, pure, gets, or_throw, guard, audit, ◌>>=◌, ◌>>◌}
use noryx_platform.Journal.Lines.{
  CreateJournalLineDto, revalidate_lines_for_posting_or_throw, insert_lines,
}
use noryx_platform.Journal.Lookup.{
  entry_key, find_by_id_in_tx, resolve_and_lock_open_period, allocate_journal_number,
}
use noryx_platform.Journal.Drafts.{is_draft, insert_entry, update_entry, entry_audit}

abbrev pub total_debit : List JournalLine → ℕ
total_debit lines = sum (λ l. l.debit_minor) lines

abbrev pub total_credit : List JournalLine → ℕ
total_credit lines = sum (λ l. l.credit_minor) lines

module _ (p : Platform) (c : Caller) where
  -- The columns that the transition DRAFT → POSTED sets.
  unfoldable pub mark_posted : Text → ℕ → JournalEntry → JournalEntry
  mark_posted number period_id e = record e {
    status = posted;
    journal_number = some number;
    period_id = some period_id;
    posted_at = some p.now;
    posted_by = c.actor_user_id;
  }

  -- The update with `returning()`; `posted!` is the row that it returns.
  unfoldable pub commit_posting : ℕ → Text → ℕ → Tx JournalEntry
  unfolding update_entry mark_posted
  commit_posting id number period_id = do
    update_entry c id (mark_posted number period_id)
    row ← gets λ db. find (entry_key c id) db.journal_entries
    or_throw row (internal no_such_row)

  unfoldable pub post : ℕ → Tx EntryWithLines
  unfolding find_by_id_in_tx revalidate_lines_for_posting_or_throw resolve_and_lock_open_period
      allocate_journal_number commit_posting
  post id = do
    found ← find_by_id_in_tx c id
    before ← or_throw found (not_found no_such_row)
    guard (is_draft before.entry.status) (conflict already_posted)
    guard (leb 2 (length before.lines)) (unprocessable too_few_lines)
    guard (total_debit before.lines == total_credit before.lines)
        (unprocessable (unbalanced (total_debit before.lines) (total_credit before.lines)))
    revalidate_lines_for_posting_or_throw c before.lines
    period ← resolve_and_lock_open_period c before.entry.transaction_date
    number ← allocate_journal_number c
    row ← commit_posting id number period.id
    let after : EntryWithLines = record { entry = row; lines = before.lines }
    audit (
        entry_audit c AuditAction.post id (some (entry_with_lines before))
          (some (entry_with_lines after))
        ∷ [])
    pure after

  -- The caller has checked the accounts, resolved an open period and built balanced lines.
  unfoldable pub post_system_generated_entry :
      List CreateJournalLineDto → AccountingPeriod → ℕ → Text → Text → Tx EntryWithLines
  unfolding insert_entry insert_lines allocate_journal_number commit_posting
  post_system_generated_entry lines period date memo currency = do
    created ← insert_entry p c date currency (some memo) none
    rows ← insert_lines c created.id lines
    number ← allocate_journal_number c
    row ← commit_posting created.id number period.id
    let full : EntryWithLines = record { entry = row; lines = rows }
    audit (
        entry_audit c AuditAction.create created.id none
          (some (entry_with_lines (record { entry = created; lines = rows })))
        ∷ entry_audit c AuditAction.post created.id none (some (entry_with_lines full))
        ∷ [])
    pure full
