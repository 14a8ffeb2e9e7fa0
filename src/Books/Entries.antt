-- ===== src/Books/Entries.antt =====
-- What a successful reversal, and a successful system-generated posting, has read and written.
use noryx_platform.Database.{
  open_period, Db, Caller, Platform, posted, AccountingPeriod, JournalEntry, EntryWithLines,
}
use noryx_platform.Journal.{
  covers, resolve_and_lock_open_period, CreateJournalLineDto, entry_key, number_lines,
  journal_number_text, entry_ids, new_entry, mark_posted, reversal_line,
  post_system_generated_entry, complete_reversal_posting, lock_and_validate_original_for_reversal,
}
use noryx_platform.Common.{ℕ, ◌≡◌, none, some, List, [], ◌∷◌, ◌++◌, map, arith}
use noryx_platform.Common.Decimal.{Text}
use noryx_platform.Common.Rows.{find, update_where}
use noryx_platform.Database.Tx.{Ensures}
use noryx_platform.Books.Shape.{lines_at, drawn, SameReference}

-- The id that the next row of `journal_entries` takes.
abbrev pub next_entry_id : Platform → Db → ℕ
next_entry_id p db = p.new_id (entry_ids db.journal_entries)

module _ (p : Platform) (c : Caller) (db : Db) where
  -- The table after the insert of a draft and its posting.
  abbrev pub appended : JournalEntry → AccountingPeriod → List JournalEntry
  appended row period =
      update_where (entry_key c row.id)
        (mark_posted p c (journal_number_text (drawn c db).0) period.id)
        (db.journal_entries ++ row ∷ [])

module _ (p : Platform) (c : Caller) (db db' : Db) (r : EntryWithLines) where
  pub record Generates (dtos : List CreateJournalLineDto) (period : AccountingPeriod) (date : ℕ)
      (memo currency : Text) : Type 0 where
    pub entries :
        db'.journal_entries
        ≡ appended p c db (new_entry p c (next_entry_id p db) date currency (some memo) none) period
    pub lines : db'.journal_lines ≡ db.journal_lines ++ number_lines c (next_entry_id p db) 0 dtos
    pub counters : db'.journal_number_counters ≡ (drawn c db).1
    pub entry : find (entry_key c (next_entry_id p db)) db'.journal_entries ≡ some r.entry
    pub rows : r.lines ≡ number_lines c (next_entry_id p db) 0 dtos
    pub reference : SameReference db db'

  pub record Completes (original : EntryWithLines) (period : AccountingPeriod) (date : ℕ)
      (memo : Text) : Type 0 where
    pub entries :
        db'.journal_entries
        ≡ update_where
            (entry_key c original.entry.id)
            (λ e. record e { reversed_by_journal_entry_id = some r.entry.id })
            (appended p c db
              (new_entry p c
                (next_entry_id p db)
                date
                original.entry.currency_code
                (some memo)
                (some original.entry.id))
              period)
    pub entry :
        find (entry_key c (next_entry_id p db)) (
          appended p c db
            (new_entry p c
              (next_entry_id p db)
              date
              original.entry.currency_code
              (some memo)
              (some original.entry.id))
            period)
        ≡ some r.entry
    pub lines :
        db'.journal_lines
        ≡ db.journal_lines
          ++ number_lines c (next_entry_id p db) 0 (map reversal_line original.lines)
    pub counters : db'.journal_number_counters ≡ (drawn c db).1
    pub rows : r.lines ≡ number_lines c (next_entry_id p db) 0 (map reversal_line original.lines)
    pub reference : SameReference db db'

module _ (p : Platform) (c : Caller) (db : Db) where
  pub generate_shape :
      (dtos : List CreateJournalLineDto) (period : AccountingPeriod) (date : ℕ)
      (memo currency : Text)
      → Ensures
          (λ r db'. Generates p c db db' r dtos period date memo currency)
          (post_system_generated_entry p c dtos period date memo currency db)
  unfolding post_system_generated_entry
  generate_shape dtos period date memo currency = ground arith

  pub complete_shape :
      (original : EntryWithLines) (period : AccountingPeriod) (date : ℕ) (memo : Text)
      → Ensures
          (λ r db'. Completes p c db db' r original period date memo)
          (complete_reversal_posting p c original period date memo db)
  unfolding complete_reversal_posting
  complete_shape original period date memo = ground arith

-- The entry that lockAndValidateOriginalForReversal() accepts.
module _ (c : Caller) (id : ℕ) (db db' : Db) (r : EntryWithLines) where
  pub record Accepts : Type 0 where
    pub found : find (entry_key c id) db.journal_entries ≡ some r.entry
    pub rows : r.lines ≡ lines_at id db.journal_lines
    pub was_posted : r.entry.status ≡ posted
    pub not_reversed : r.entry.reversed_by_journal_entry_id ≡ none
    pub not_reversal : r.entry.reversal_of_journal_entry_id ≡ none
    pub unchanged : db' ≡ db

pub accept_shape :
    (c : Caller) (id : ℕ) (db : Db)
    → Ensures (λ r db'. Accepts c id db db' r) (lock_and_validate_original_for_reversal c id db)
unfolding lock_and_validate_original_for_reversal
accept_shape c id db = ground arith

-- The period that post() and reverse() take.
pub resolve_shape :
    (c : Caller) (date : ℕ) (db : Db)
    → Ensures
        (λ period db'.
          (db' ≡ db)
          × (find (covers c date) db.accounting_periods ≡ some period)
          × (period.status ≡ open_period))
        (resolve_and_lock_open_period c date db)
unfolding resolve_and_lock_open_period
resolve_shape c date db = ground arith
