-- ===== src/Journal/Reversal.antt =====
-- lockAndValidateOriginalForReversal(), completeReversalPosting(), reverseInTx() and reverse().
use noryx_platform.Common.{ℕ, not, Option, none, some, [], ◌∷◌, ◌++◌, map, or_else, is_some}
use noryx_platform.Common.Decimal.{Text, codes}
use noryx_platform.Common.Rows.{find}
use noryx_platform.Database.{
  Caller, Platform, AuditAction, entry_with_lines, entry_row, not_found, conflict, unprocessable,
  internal, no_such_row, not_posted, already_reversed, is_a_reversal, AccountingPeriod,
  JournalEntry, JournalLine, EntryWithLines,
}
use noryx_platform.Database.Tx.{Tx, pure, gets, or_throw, guard, audit, ◌>>=◌, ◌>>◌}
use noryx_platform.Journal.Lines.{CreateJournalLineDto, insert_lines}
use noryx_platform.Journal.Lookup.{
  entry_key, find_by_id_in_tx, resolve_and_lock_open_period, allocate_journal_number,
}
use noryx_platform.Journal.Drafts.{is_draft, insert_entry, update_entry, entry_audit}
use noryx_platform.Journal.Posting.{commit_posting}

pub record ReverseJournalEntryDto : Type 0 where
  pub transaction_date : Option ℕ
  pub memo : Option Text

module _ (c : Caller) where
  unfoldable pub lock_and_validate_original_for_reversal : ℕ → Tx EntryWithLines
  unfolding find_by_id_in_tx
  lock_and_validate_original_for_reversal id = do
    found ← find_by_id_in_tx c id
    original ← or_throw found (not_found no_such_row)
    guard (not (is_draft original.entry.status)) (unprocessable not_posted)
    guard (not (is_some original.entry.reversed_by_journal_entry_id)) (conflict already_reversed)
    guard (not (is_some original.entry.reversal_of_journal_entry_id)) (unprocessable is_a_reversal)
    pure original

  unfoldable pub link_original : ℕ → ℕ → Tx JournalEntry
  unfolding update_entry
  link_original id reversal_id = do
    update_entry c id (λ e. record e { reversed_by_journal_entry_id = some reversal_id })
    row ← gets λ db. find (entry_key c id) db.journal_entries
    or_throw row (internal no_such_row)

-- The same account, amount and tax classification, with debit and credit exchanged.
unfoldable pub reversal_line : JournalLine → CreateJournalLineDto
reversal_line l = record {
  account_id = l.account_id;
  debit_minor = l.credit_minor;
  credit_minor = l.debit_minor;
  description = l.description;
  tax_code_id = l.tax_code_id;
  tax_direction = l.tax_direction;
}

-- A template shows `null` for an entry without a number.
abbrev pub shown : Option Text → Text
shown none = codes "null"
shown (some t) = t

module _ (p : Platform) (c : Caller) where
  unfoldable pub complete_reversal_posting :
      EntryWithLines → AccountingPeriod → ℕ → Text → Tx EntryWithLines
  unfolding insert_entry insert_lines allocate_journal_number commit_posting link_original
      reversal_line
  complete_reversal_posting original period date memo = do
    created ←
        insert_entry p c date original.entry.currency_code (some memo) (some original.entry.id)
    rows ← insert_lines c created.id (map reversal_line original.lines)
    number ← allocate_journal_number c
    row ← commit_posting p c created.id number period.id
    linked ← link_original c original.entry.id row.id
    let full : EntryWithLines = record { entry = row; lines = rows }
    audit (
        entry_audit c AuditAction.reverse original.entry.id (some (entry_with_lines original))
          (some (entry_row linked))
        ∷ entry_audit c AuditAction.create created.id none
            (some (entry_with_lines (record { entry = created; lines = rows })))
        ∷ entry_audit c AuditAction.post created.id none (some (entry_with_lines full))
        ∷ [])
    pure full

  -- `reverse()` is this body in a transaction of its own.
  unfoldable pub reverse_in_tx : ℕ → ReverseJournalEntryDto → Tx EntryWithLines
  unfolding lock_and_validate_original_for_reversal resolve_and_lock_open_period
      complete_reversal_posting
  reverse_in_tx id dto = do
    original ← lock_and_validate_original_for_reversal c id
    let date = or_else dto.transaction_date p.today
    let memo = or_else dto.memo (codes "Reversal of " ++ shown original.entry.journal_number)
    period ← resolve_and_lock_open_period c date
    complete_reversal_posting original period date memo
