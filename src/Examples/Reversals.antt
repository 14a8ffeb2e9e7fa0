-- ===== src/Examples/Reversals.antt =====
-- The scheduled reversal of the posted entry.
use noryx_platform.Common.{[]}
use noryx_platform.Common.{◌∷◌}
use noryx_platform.Common.{◌≡◌, refl, none, ◌⊎◌, true, map, List, ℕ}
use noryx_platform.Database.Tx.{ok, Answers, Ensures, Achieves}
use noryx_platform.Journal.{
  reverse_in_tx, ReverseJournalEntryDto, lines_accepted, line_accepted, single_sided_nonzero,
  tax_code_direction_pairing, reversal_line, order_by_line_number,
}
use noryx_platform.Books.Shape.{lines_at}
use noryx_platform.ScheduledReversals.{
  CreateScheduledReversalDto, ClaimOutcome, create, cancel, claim_and_execute_one, execute_claimed,
  process_due,
}
use noryx_platform.ScheduledReversals.Claims.{later_claims, claimed_once}
use noryx_platform.Database.{Platform, Caller}
use noryx_platform.ScheduledReversals.Outcomes.{
  Executes, stored_entry, execution_reverses, claim_reverses, manual_reversal_cancels,
}
use noryx_platform.ScheduledReversals.Table.{IsTable, operations-IsTable}
use noryx_platform.ScheduledReversals.Batch.{Counts, process_due_reversals-Counts}
use noryx_platform.Examples.Data.{desk, clerk, january, posted_entry, accrual, books}

abbrev by_hand : ReverseJournalEntryDto
by_hand = record { transaction_date = none; memo = none }

abbrev for_draft : CreateScheduledReversalDto
for_draft = record { original_journal_entry_id = 1; target_date = 150 }

books-IsTable : IsTable books.scheduled_reversals
books-IsTable = record {
  keyed = (refl, tt);
  single = (refl, tt);
  fields = ((refl, refl, refl), tt);
}

abbrev again : List (Platform × Caller × ℕ)
again = (desk, clerk, 1) ∷ (desk, clerk, 2) ∷ []

claimed_once_example :
    Ensures
      (λ o db'.
        ((o ≡ ClaimOutcome.skipped) × (db' ≡ books))
        ⊎ (claim_and_execute_one desk clerk 1 (later_claims again db')
            ≡ ok (ClaimOutcome.skipped, later_claims again db')))
      (claim_and_execute_one desk clerk 1 books)
claimed_once_example = claimed_once desk desk clerk 1 again books

execution_reverses_example :
    Ensures
      (λ o db'.
        Executes desk clerk accrual
          (stored_entry desk clerk posted_entry books)
          1
          desk
          by_hand
          books
          db'
          o)
      (execute_claimed desk clerk accrual
        (stored_entry desk clerk posted_entry books)
        january
        books)
execution_reverses_example =
    execution_reverses desk clerk accrual posted_entry january books desk by_hand refl refl refl

exchanged_accepted :
    lines_accepted books.chart_of_accounts books.tax_codes
      (map reversal_line (lines_at 2 books.journal_lines))
    ≡ true
unfolding lines_accepted line_accepted single_sided_nonzero tax_code_direction_pairing reversal_line
    order_by_line_number
exchanged_accepted = refl

claim_reverses_example :
    Achieves
      (λ o db'.
        Executes desk clerk accrual
          (stored_entry desk clerk posted_entry books)
          1
          desk
          by_hand
          books
          db'
          o)
      (claim_and_execute_one desk clerk 1 books)
claim_reverses_example =
    claim_reverses desk clerk 1 accrual posted_entry january books desk by_hand refl refl refl refl
      refl refl exchanged_accepted refl refl

manual_reversal_cancels_example :
    Ensures
      (λ w db'.
        Answers ClaimOutcome.cancelled (claim_and_execute_one desk clerk 1 db')
        × Ensures
            (λ o db''.
              (db''.journal_entries ≡ db'.journal_entries)
              × (db''.journal_lines ≡ db'.journal_lines))
            (claim_and_execute_one desk clerk 1 db'))
      (reverse_in_tx desk clerk 2 by_hand books)
manual_reversal_cancels_example =
    manual_reversal_cancels desk clerk desk 2 by_hand books accrual refl refl refl

process_due_reversals-Counts_example : Counts 100 (process_due desk clerk none books).0
process_due_reversals-Counts_example = process_due_reversals-Counts desk clerk none books

operations-IsTable_example :
    Ensures (λ r db'. IsTable db'.scheduled_reversals) (create desk clerk for_draft books)
    × Ensures (λ r db'. IsTable db'.scheduled_reversals) (cancel desk clerk 1 none books)
    × Ensures (λ o db'. IsTable db'.scheduled_reversals) (claim_and_execute_one desk clerk 1 books)
operations-IsTable_example = operations-IsTable desk clerk books books-IsTable for_draft 1 none
