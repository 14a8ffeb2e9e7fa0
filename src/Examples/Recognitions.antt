-- ===== src/Examples/Recognitions.antt =====
-- The recognitions of the schedule.
use mathlib.Core.Logic.{◌↔◌}
use native.Mathlib.Omega.{arith}
use noryx_platform.Deferral.Cancelling.{cancel_leaves_nothing_due}
use noryx_platform.Database.{
  Db, closed, expense_recognition, ScheduleStatus, period_closed, Platform, Caller,
}
use noryx_platform.Database.Tx.{ok, Ensures, Achieves}
use noryx_platform.Books.Entries.{next_entry_id}
use noryx_platform.Deferral.{
  validate_accounts_or_throw, find_recognition_by_journal_entry_id, ClaimOutcome,
  CreateDeferralScheduleDto, create, cancel, pending_key, of_schedule, executed_sum, mark_executed,
  execute_claimed, claim_and_execute_one, candidates, process_due,
}
use noryx_platform.Deferral.Success.{FailsWith, claim-Executes, claim_fails_closed}
use noryx_platform.Deferral.DrillDown.{execute_claimed-find_recognition}
use noryx_platform.Common.{◌≡◌, refl, none, [], ◌∷◌, ◌++◌, ◌⊎◌, contains, false, sum, List, ℕ, true}
use noryx_platform.Common.Decimal.{codes}
use noryx_platform.Common.Rows.{exists, select}
use noryx_platform.Deferral.Plan.{IsPlan, create_reconciles}
use noryx_platform.Deferral.Claims.{later_claims, claim_once}
use noryx_platform.Deferral.Execution.{Executes, execution_posts}
use noryx_platform.Deferral.Batch.{Counts, process_due-Counts, DueRow, candidates_exact}
use noryx_platform.Examples.Data.{desk, clerk, january, rent, share, books}

abbrev insurance : CreateDeferralScheduleDto
insurance = record {
  memo = codes "Insurance";
  deferral_type = expense_recognition;
  deferred_account_id = 10;
  recognition_account_id = 20;
  total_amount_minor = 90;
  occurrences =
      record { target_date = 180; amount_minor = 50 }
      ∷ record { target_date = 150; amount_minor = 40 }
      ∷ [];
}

abbrev closed_books : Db
closed_books = record books { accounting_periods = record january { status = closed } ∷ [] }

create_reconciles_example :
    Ensures
      (λ r db'.
        (sum (λ x. x.amount_minor) r.recognitions ≡ r.schedule.total_amount_minor)
        × IsPlan 1 0 r.recognitions
        × (db'.deferral_recognitions ≡ books.deferral_recognitions ++ r.recognitions))
      (create desk clerk insurance books)
create_reconciles_example = create_reconciles desk clerk insurance books

cancel_leaves_nothing_due_example :
    Ensures
      (λ r db'.
        (r.schedule.status ≡ ScheduleStatus.cancelled)
        × (exists (pending_key clerk 1) db'.deferral_recognitions ≡ false)
        × (executed_sum (select (of_schedule 1) db'.deferral_recognitions)
            ≡ executed_sum (select (of_schedule 1) books.deferral_recognitions))
        × (db'.journal_entries ≡ books.journal_entries)
        × (db'.journal_lines ≡ books.journal_lines))
      (cancel desk clerk 1 none books)
cancel_leaves_nothing_due_example = cancel_leaves_nothing_due desk clerk 1 none books

abbrev again : List (Platform × Caller × ℕ)
again = (desk, clerk, 1) ∷ (desk, clerk, 2) ∷ []

claim_once_example :
    Ensures
      (λ o db'.
        ((o ≡ ClaimOutcome.skipped) × (db' ≡ books))
        ⊎ (claim_and_execute_one desk clerk 1 (later_claims again db')
            ≡ ok (ClaimOutcome.skipped, later_claims again db')))
      (claim_and_execute_one desk clerk 1 books)
claim_once_example = claim_once desk desk clerk 1 again books

execution_posts_example :
    Ensures
      (λ o db'. Executes desk clerk (share 1 140 60) rent 1 books db' o)
      (execute_claimed desk clerk (share 1 140 60) rent january books)
execution_posts_example = execution_posts desk clerk (share 1 140 60) rent january books refl

process_due-Counts_example : Counts 100 (process_due desk clerk none books).0
process_due-Counts_example = process_due-Counts desk clerk none books

candidates_exact_example :
    contains 1 (candidates clerk 150 books.deferral_recognitions) ≡ true
    ↔ DueRow clerk 150 1 books.deferral_recognitions
candidates_exact_example = candidates_exact clerk 150 1 books.deferral_recognitions (omega arith)

claim-Executes_example :
    Achieves
      (λ o db'. Executes desk clerk (share 1 140 60) rent 1 books db' o)
      (claim_and_execute_one desk clerk 1 books)
unfolding validate_accounts_or_throw
claim-Executes_example =
    claim-Executes desk clerk 1 (share 1 140 60) rent january books refl refl refl refl refl refl
      (omega arith) refl refl

claim_fails_closed_example :
    Achieves
      (λ o db'.
        FailsWith desk clerk (share 1 140 60) (period_closed january.code 140) closed_books db' o)
      (claim_and_execute_one desk clerk 1 closed_books)
claim_fails_closed_example =
    claim_fails_closed desk clerk 1 (share 1 140 60) rent (record january { status = closed })
      closed_books refl refl refl refl refl

execute_claimed-find_recognition_example :
    Ensures
      (λ o db'.
        find_recognition_by_journal_entry_id clerk (next_entry_id desk books) db'
        ≡ ok (mark_executed desk clerk (next_entry_id desk books) (share 1 140 60), db'))
      (execute_claimed desk clerk (share 1 140 60) rent january books)
execute_claimed-find_recognition_example =
    execute_claimed-find_recognition desk clerk (share 1 140 60) rent january books refl refl
