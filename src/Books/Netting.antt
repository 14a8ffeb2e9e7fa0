-- ===== src/Books/Netting.antt =====
-- A reversal undoes its original: per account, and per tax code and direction.
use noryx_platform.Common.{
  ℕ, ◌+◌, ◌≡◌, refl, Bool, Option, List, [], ◌∷◌, map, arith, if◌then◌else◌, sum,
}
use noryx_platform.Database.{Db, Caller, Platform, JournalLine, EntryWithLines, TaxDirection}
use noryx_platform.Database.Tx.{Ensures, Ensures-map, Ensures-bind}
use noryx_platform.Journal.{
  ReverseJournalEntryDto, number_lines, reversal_line, complete_reversal_posting, reverse_in_tx,
  lock_and_validate_original_for_reversal, resolve_and_lock_open_period,
}
use noryx_platform.Books.Shape.{lines_at}
use noryx_platform.Books.Entries.{
  next_entry_id, Completes, complete_shape, accept_shape, resolve_shape,
}

-- The total of one column over the lines that a report counts. A report counts a line by its
-- account and its tax classification.
abbrev pub column :
    (ℕ → Option ℕ → Option TaxDirection → Bool) → (JournalLine → ℕ) → List JournalLine → ℕ
column counts f ls =
    sum (λ l. if counts l.account_id l.tax_code_id l.tax_direction then f l else 0) ls

abbrev pub debits : (ℕ → Option ℕ → Option TaxDirection → Bool) → List JournalLine → ℕ
debits counts ls = column counts (λ l. l.debit_minor) ls

abbrev pub credits : (ℕ → Option ℕ → Option TaxDirection → Bool) → List JournalLine → ℕ
credits counts ls = column counts (λ l. l.credit_minor) ls

module _ (c : Caller) (id : ℕ) (counts : ℕ → Option ℕ → Option TaxDirection → Bool) where
  debits-reversal :
      (k : ℕ) (ls : List JournalLine)
      → debits counts (number_lines c id k (map reversal_line ls)) ≡ credits counts ls
  unfolding number_lines reversal_line
  debits-reversal k [] = refl
  debits-reversal k (l ∷ ls) = ground (arith, debits-reversal (k + 1) ls)

  credits-reversal :
      (k : ℕ) (ls : List JournalLine)
      → credits counts (number_lines c id k (map reversal_line ls)) ≡ debits counts ls
  unfolding number_lines reversal_line
  credits-reversal k [] = refl
  credits-reversal k (l ∷ ls) = ground (arith, credits-reversal (k + 1) ls)

-- Whatever a report counts, original and reversal together have as much debit as credit.
abbrev pub NetsToZero : List JournalLine → List JournalLine → Type 0
NetsToZero original reversal =
    (counts : ℕ → Option ℕ → Option TaxDirection → Bool)
    → (debits counts original + debits counts reversal)
      ≡ (credits counts original + credits counts reversal)

pub complete-NetsToZero :
    (p : Platform) (c : Caller) (db : Db) (original : EntryWithLines) (period : _) (date : ℕ)
    (memo : _)
    → Ensures
        (λ r db'. NetsToZero original.lines r.lines)
        (complete_reversal_posting p c original period date memo db)
complete-NetsToZero p c db original period date memo =
    Ensures-map (λ r db'. Completes p c db db' r original period date memo)
      (λ r db'. NetsToZero original.lines r.lines)
      (complete_reversal_posting p c original period date memo db)
      (λ r db' s counts. rw s.rows (
        omega (
          arith,
          debits-reversal c (next_entry_id p db) counts 0 original.lines,
          credits-reversal c (next_entry_id p db) counts 0 original.lines,
        )))
      (complete_shape p c db original period date memo)

-- A reversal that succeeds has lines that net to zero with those of the entry that it reverses:
-- over the lines of any accounts, tax codes and directions that one selects, both together have
-- as much debit as credit.
pub reverse_in_tx-NetsToZero :
    (p : Platform) (c : Caller) (db : Db) (id : ℕ) (dto : ReverseJournalEntryDto)
    → Ensures
        (λ r db'. NetsToZero (lines_at id db.journal_lines) r.lines)
        (reverse_in_tx p c id dto db)
unfolding reverse_in_tx
reverse_in_tx-NetsToZero p c db id dto =
    Ensures-bind (λ r db'. r.lines ≡ lines_at id db.journal_lines)
      (λ r db'. NetsToZero (lines_at id db.journal_lines) r.lines)
      (lock_and_validate_original_for_reversal c id) _ db
      (Ensures-map _ (λ r db'. r.lines ≡ lines_at id db.journal_lines) _ (λ r db' a. a.rows)
        (accept_shape c id db))
      λ original db1 rows.
        Ensures-bind (λ period db2. db2 ≡ db1)
          (λ r db'. NetsToZero (lines_at id db.journal_lines) r.lines)
          (resolve_and_lock_open_period c _) _ db1
          (Ensures-map _ (λ period db2. db2 ≡ db1) _ (λ period db2 r. r.0) (resolve_shape c _ db1))
          λ period db2 e2. rw (← rows) (complete-NetsToZero p c db2 original period _ _)
