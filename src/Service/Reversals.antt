-- ===== src/Service/Reversals.antt =====
-- ScheduledReversalsService keeps the books: it reaches the journal only through
-- completeReversalPosting(), on an entry that lockAndValidateOriginalForReversal() accepts.
use noryx_platform.Common.{
  ◌≡◌, refl, or_else, if◌then◌else◌, true, false, none, some, List, [], ◌∷◌, Bool, ℕ, Option, arith,
}
use noryx_platform.Common.Decimal.{Text}
use noryx_platform.Common.Rows.{find}
use noryx_platform.Database.{
  AccountingPeriod, EntryWithLines, Db, Caller, Platform, Reason, ScheduledReversal, Failure,
  bad_request, not_found, conflict, unprocessable, internal, period_closed,
}
use noryx_platform.Database.Tx.{Ensures-bind, ok, err, Result, pure, with_tenant, Ensures}
use noryx_platform.Journal.{
  PeriodResolution, is_open, is_closed, is_not_found, resolve_period_for_date,
  complete_reversal_posting, lock_and_validate_original_for_reversal,
}
use noryx_platform.Books.Entries.{Accepts, accept_shape}
use noryx_platform.ScheduledReversals.{
  CreateScheduledReversalDto, create, cancel, is_waiting, reversal_key, ClaimOutcome, caught,
  already_reversed_text, reversal_memo, transition_to_failed, transition_to_cancelled,
  record_execution, execute_claimed, in_resolution, refused, with_original, execute_waiting,
  with_claim, claim_and_execute_one, ProcessDueResult, count_outcome, candidates, process_each,
  process_due,
}
use noryx_platform.Service.Step.{
  IsBooks, BooksStep, BooksStep-refl, BooksStep-trans, BooksStep-then, SameJournal,
  with_tenant-BooksStep,
}
use noryx_platform.Service.Journals.{complete-BooksStep}
use noryx_platform.Service.Deferrals.{keep_same}

module _ (p : Platform) (c : Caller) where
  pub create-SameJournal :
      (dto : CreateScheduledReversalDto) (db : Db)
      → Ensures (λ r db'. SameJournal db db') (create p c dto db)
  unfolding create
  create-SameJournal dto db = ground arith

  pub cancel-SameJournal :
      (id : ℕ) (reason : Option Text) (db : Db)
      → Ensures (λ r db'. SameJournal db db') (cancel p c id reason db)
  unfolding cancel
  cancel-SameJournal id reason db = ground arith

  fail-SameJournal :
      (claimed : ScheduledReversal) (reason : Reason) (db : Db)
      → Ensures (λ r db'. SameJournal db db') (transition_to_failed p c claimed reason db)
  unfolding transition_to_failed
  fail-SameJournal claimed reason db = ground arith

  give_way-SameJournal :
      (claimed : ScheduledReversal) (text : Text) (db : Db)
      → Ensures (λ r db'. SameJournal db db') (transition_to_cancelled p c claimed text db)
  unfolding transition_to_cancelled
  give_way-SameJournal claimed text db = ground arith

  record-SameJournal :
      (claimed : ScheduledReversal) (w : EntryWithLines) (db : Db)
      → Ensures (λ r db'. SameJournal db db') (record_execution p c claimed w db)
  unfolding record_execution
  record-SameJournal claimed w db = ground arith

  -- What is caught has only read the database, and what it answers was accepted.
  abbrev Caught : ℕ → Db → Result EntryWithLines → Db → Type 0
  Caught id db (ok original) db' = (db' ≡ db) × Accepts c id db db original
  Caught id db (err e) db' = db' ≡ db

  caught-Accepts :
      (id : ℕ) (db : Db)
      → Ensures
          (λ r db'. Caught id db r db')
          (caught (lock_and_validate_original_for_reversal c id) db)
  caught-Accepts id db = go (lock_and_validate_original_for_reversal c id db) (accept_shape c id db)
    where
      go :
          (r : Result (EntryWithLines × Db))
          → Ensures (λ w db'. Accepts c id db db' w) r
          → Ensures
              (λ o db'. Caught id db o db')
              (elim r as (λ _. Result (Result EntryWithLines × Db)) [
                | ok (a, db') ↦ ok (ok a, db')
                | err e ↦ ok (err e, db)
              ])
      go (ok (a, db')) x = (x.unchanged, rw x.unchanged at x)
      go (err e) x = refl

  module _ (claimed : ScheduledReversal) (db : Db) (h : IsBooks db) where
    fail-BooksStep :
        (reason : Reason)
        → Ensures (λ r db'. BooksStep db db') (transition_to_failed p c claimed reason db)
    fail-BooksStep reason =
        keep_same p c db (transition_to_failed p c claimed reason db) h
          (fail-SameJournal claimed reason db)

    refused-BooksStep :
        (e : Failure) → Ensures (λ r db'. BooksStep db db') (refused p c claimed e db)
    unfolding refused
    refused-BooksStep (conflict reason) =
        keep_same p c db (transition_to_cancelled p c claimed already_reversed_text db) h
          (give_way-SameJournal claimed already_reversed_text db)
    refused-BooksStep (not_found reason) = fail-BooksStep reason
    refused-BooksStep (unprocessable reason) = fail-BooksStep reason
    refused-BooksStep (bad_request reason) = fail-BooksStep reason
    refused-BooksStep (internal reason) = fail-BooksStep reason

    execute-BooksStep :
        (original : EntryWithLines) (period : AccountingPeriod)
        → Accepts c claimed.original_journal_entry_id db db original
        → Ensures (λ r db'. BooksStep db db') (execute_claimed p c claimed original period db)
    unfolding execute_claimed
    execute-BooksStep original period a =
        Ensures-bind (λ w db'. BooksStep db db') (λ r db'. BooksStep db db')
          (complete_reversal_posting p c original period claimed.target_date
            (reversal_memo original))
          (record_execution p c claimed) db
          (complete-BooksStep p c db h claimed.original_journal_entry_id original period
            claimed.target_date (reversal_memo original) a)
          λ w db' step.
            BooksStep-then db db' (record_execution p c claimed w db') step
              (record-SameJournal claimed w db')

    resolution-BooksStep :
        (original : EntryWithLines) (r : PeriodResolution)
        → Accepts c claimed.original_journal_entry_id db db original
        → Ensures (λ r db'. BooksStep db db') (in_resolution p c claimed original r db)
    unfolding in_resolution
    resolution-BooksStep original is_not_found a = BooksStep-refl db h
    resolution-BooksStep original (is_closed period) a =
        fail-BooksStep (period_closed period.code claimed.target_date)
    resolution-BooksStep original (is_open period) a = execute-BooksStep original period a

    original-BooksStep :
        (r : Result EntryWithLines) (db' : Db)
        → Caught claimed.original_journal_entry_id db r db'
        → Ensures (λ r db''. BooksStep db db'') (with_original p c claimed r db')
    unfolding with_original resolve_period_for_date
    original-BooksStep (ok original) db' a = rw a.0 (resolution-BooksStep original _ a.1)
    original-BooksStep (err e) db' a = rw a (refused-BooksStep e)

    waiting-BooksStep : Ensures (λ r db'. BooksStep db db') (execute_waiting p c claimed db)
    unfolding execute_waiting
    waiting-BooksStep =
        Ensures-bind (λ r db'. Caught claimed.original_journal_entry_id db r db')
          (λ o db'. BooksStep db db')
          (caught (lock_and_validate_original_for_reversal c claimed.original_journal_entry_id))
          (with_original p c claimed) db (caught-Accepts claimed.original_journal_entry_id db)
          original-BooksStep

    branch-BooksStep :
        (b : Bool)
        → Ensures
            (λ r db'. BooksStep db db')
            ((if b then execute_waiting p c claimed else pure ClaimOutcome.skipped) db)
    branch-BooksStep true = waiting-BooksStep
    branch-BooksStep false = BooksStep-refl db h

  claim-BooksStep :
      (id : ℕ) (db : Db)
      → IsBooks db
      → Ensures (λ r db'. BooksStep db db') (claim_and_execute_one p c id db)
  unfolding claim_and_execute_one with_claim
  claim-BooksStep id db h = go (find (reversal_key c id) db.scheduled_reversals)
    where
      go :
          (claimed : Option ScheduledReversal)
          → Ensures (λ r db'. BooksStep db db') (with_claim p c claimed db)
      go none = BooksStep-refl db h
      go (some claimed) = branch-BooksStep claimed db h (is_waiting claimed.status)

  -- The whole batch, also when a claim throws in the middle of it.
  process_each-BooksStep :
      (ids : List ℕ) (tally : ProcessDueResult) (db : Db)
      → IsBooks db
      → BooksStep db (process_each p c ids tally db).1
  unfolding process_each
  process_each-BooksStep [] tally db h = BooksStep-refl db h
  process_each-BooksStep (id ∷ ids) tally db h =
      let step =
        with_tenant-BooksStep (claim_and_execute_one p c id) db h (claim-BooksStep id db h) in
      go (with_tenant (claim_and_execute_one p c id) db).0 step λ o.
        process_each-BooksStep ids (count_outcome o tally)
          (with_tenant (claim_and_execute_one p c id) db).1 step.books
    where
      go :
          (r : Result ClaimOutcome)
          → BooksStep db (with_tenant (claim_and_execute_one p c id) db).1
          → ((o : ClaimOutcome)
              → BooksStep
                  (with_tenant (claim_and_execute_one p c id) db).1
                  (process_each p c ids
                    (count_outcome o tally)
                    (with_tenant (claim_and_execute_one p c id) db).1).1)
          → BooksStep db
              (elim r as (λ _. Result ProcessDueResult × Db) [
                | ok outcome ↦
                    process_each p c ids
                      (count_outcome outcome tally)
                      (with_tenant (claim_and_execute_one p c id) db).1
                | err e ↦ (err e, (with_tenant (claim_and_execute_one p c id) db).1)
              ]).1
      go (ok o) step rest = BooksStep-trans db _ _ step (rest o)
      go (err e) step rest = step

  pub process_due-BooksStep :
      (as_of_date : Option ℕ) (db : Db)
      → IsBooks db
      → BooksStep db (process_due p c as_of_date db).1
  unfolding process_due
  process_due-BooksStep as_of_date db h =
      process_each-BooksStep (candidates c (or_else as_of_date p.today) db.scheduled_reversals)
        (record { claimed = 0; executed_count = 0; failed_count = 0; cancelled_count = 0 }) db h
