-- ===== src/Service/Deferrals.antt =====
-- DeferralRecognitionService keeps the books: it reaches the journal only through
-- postSystemGeneratedEntry(), with two lines of one amount.
use noryx_platform.Deferral.Claims.{mark, attempt_same, validate_same}
use noryx_platform.Common.{
  or_else, ◌==◌, if◌then◌else◌, ◌∷◌, [], none, some, true, false, List, Bool, ℕ, ◌≤◌, ◌≡◌, arith,
  Option, length, sum,
}
use noryx_platform.Deferral.{
  candidates, process_due, count_outcome, recognition_key, is_scheduled, ProcessDueResult,
  with_claim, after_check, attempt, claim_and_execute_one, in_resolution, process_each,
  recognition_memo, validate_accounts_or_throw, with_schedule, ClaimOutcome,
  complete_schedule_if_done, execute_claimed, update_recognition, CreateDeferralScheduleDto, create,
  cancel, transition_to_failed, recognition_lines,
}
use noryx_platform.Service.Step.{
  with_tenant-BooksStep, BooksStep-then, BooksStep-refl, BooksStep-trans, BooksStep-same, BooksStep,
  IsBooks, SameJournal,
}
use noryx_platform.Common.Rows.{find}
use noryx_platform.Database.{
  period_closed, no_such_row, AccountingPeriod, EntryWithLines, Db, Caller, Platform, Reason,
  DeferralSchedule, DeferralRecognition,
}
use noryx_platform.Database.Tx.{
  Ensures-bind, Ensures-map, ok, err, Result, pure, with_tenant, Ensures,
}
use noryx_platform.Journal.{
  post_system_generated_entry, resolve_period_for_date, PeriodResolution, is_open, is_closed,
  is_not_found,
}
use noryx_platform.Service.Journals.{generate-BooksStep}
use noryx_platform.Common.Decimal.{Text}

module _ (p : Platform) (c : Caller) where
  pub create-SameJournal :
      (dto : CreateDeferralScheduleDto) (db : Db)
      → Ensures (λ r db'. SameJournal db db') (create p c dto db)
  unfolding create
  create-SameJournal dto db = ground arith

  pub cancel-SameJournal :
      (id : ℕ) (reason : Option Text) (db : Db)
      → Ensures (λ r db'. SameJournal db db') (cancel p c id reason db)
  unfolding cancel
  cancel-SameJournal id reason db = ground arith

  fail-SameJournal :
      (claimed : DeferralRecognition) (reason : Reason) (db : Db)
      → Ensures (λ r db'. SameJournal db db') (transition_to_failed p c claimed reason db)
  unfolding transition_to_failed
  fail-SameJournal claimed reason db = ground arith

  -- The two lines of a recognition balance, for both types of deferral.
  pub recognition_lines_balance :
      (s : DeferralSchedule) (amount : ℕ)
      → (2 ≤ length (recognition_lines s amount))
        × (sum (λ l. l.debit_minor) (recognition_lines s amount)
            ≡ sum (λ l. l.credit_minor) (recognition_lines s amount))
  unfolding recognition_lines
  recognition_lines_balance s amount = ground arith

  pub keep_same :
      {A : Type 0} (db : Db) (r : Result (A × Db))
      → IsBooks db
      → Ensures (λ a db'. SameJournal db db') r
      → Ensures (λ a db'. BooksStep db db') r
  keep_same db r h e =
      Ensures-map (λ a db'. SameJournal db db') (λ a db'. BooksStep db db') r
        (λ a db' s. BooksStep-same db db' h s) e

  record-SameJournal :
      (claimed : DeferralRecognition) (schedule : DeferralSchedule) (entry : EntryWithLines)
      (db : Db)
      → Ensures (λ r db'. SameJournal db db') (mark p c claimed schedule entry db)
  unfolding mark update_recognition complete_schedule_if_done
  record-SameJournal claimed schedule entry db = ground arith

  pub execute-BooksStep :
      (claimed : DeferralRecognition) (s : DeferralSchedule) (period : AccountingPeriod) (db : Db)
      → IsBooks db
      → Ensures (λ r db'. BooksStep db db') (execute_claimed p c claimed s period db)
  unfolding execute_claimed mark
  execute-BooksStep claimed s period db h =
      Ensures-bind (λ entry db'. BooksStep db db') (λ r db'. BooksStep db db')
        (post_system_generated_entry p c (recognition_lines s claimed.amount_minor) period
          claimed.target_date (recognition_memo claimed s) s.currency_code)
        (mark p c claimed s) db
        (generate-BooksStep p c db h (recognition_lines s claimed.amount_minor) period
          claimed.target_date (recognition_memo claimed s) s.currency_code
          (recognition_lines_balance s claimed.amount_minor).0
          (recognition_lines_balance s claimed.amount_minor).1)
        λ entry db' step.
          BooksStep-then db db' (mark p c claimed s entry db') step
            (record-SameJournal claimed s entry db')

  fail-BooksStep :
      (claimed : DeferralRecognition) (reason : Reason) (db : Db)
      → IsBooks db
      → Ensures (λ r db'. BooksStep db db') (transition_to_failed p c claimed reason db)
  fail-BooksStep claimed reason db h =
      keep_same db (transition_to_failed p c claimed reason db) h
        (fail-SameJournal claimed reason db)

  after_check-BooksStep :
      (claimed : DeferralRecognition) (s : DeferralSchedule) (period : AccountingPeriod)
      (refused : Option Reason) (db : Db)
      → IsBooks db
      → Ensures (λ r db'. BooksStep db db') (after_check p c claimed s period refused db)
  unfolding after_check
  after_check-BooksStep claimed s period none db h = execute-BooksStep claimed s period db h
  after_check-BooksStep claimed s period (some reason) db h = fail-BooksStep claimed reason db h

  in_resolution-BooksStep :
      (claimed : DeferralRecognition) (s : DeferralSchedule) (r : PeriodResolution) (db : Db)
      → IsBooks db
      → Ensures (λ r db'. BooksStep db db') (in_resolution p c claimed s r db)
  unfolding in_resolution
  in_resolution-BooksStep claimed s is_not_found db h = BooksStep-refl db h
  in_resolution-BooksStep claimed s (is_closed period) db h =
      fail-BooksStep claimed (period_closed period.code claimed.target_date) db h
  in_resolution-BooksStep claimed s (is_open period) db h =
      Ensures-bind (λ u db'. db' ≡ db) (λ r db'. BooksStep db db')
        (attempt
          (validate_accounts_or_throw c (s.deferred_account_id ∷ s.recognition_account_id ∷ [])))
        (after_check p c claimed s period) db
        (attempt_same p c
          (validate_accounts_or_throw c (s.deferred_account_id ∷ s.recognition_account_id ∷ [])) db
          (validate_same p c (s.deferred_account_id ∷ s.recognition_account_id ∷ []) db))
        λ refused db' e. rw e (after_check-BooksStep claimed s period refused db h)

  with_schedule-BooksStep :
      (claimed : DeferralRecognition) (s : Option DeferralSchedule) (db : Db)
      → IsBooks db
      → Ensures (λ r db'. BooksStep db db') (with_schedule p c claimed s db)
  unfolding with_schedule resolve_period_for_date
  with_schedule-BooksStep claimed none db h = fail-BooksStep claimed no_such_row db h
  with_schedule-BooksStep claimed (some s) db h = in_resolution-BooksStep claimed s _ db h

  branch-BooksStep :
      (claimed : DeferralRecognition) (s : Option DeferralSchedule) (db : Db)
      → IsBooks db
      → (b : Bool)
      → Ensures
          (λ r db'. BooksStep db db')
          ((if b then with_schedule p c claimed s else pure ClaimOutcome.skipped) db)
  branch-BooksStep claimed s db h true = with_schedule-BooksStep claimed s db h
  branch-BooksStep claimed s db h false = BooksStep-refl db h

  pub claim-BooksStep :
      (id : ℕ) (db : Db)
      → IsBooks db
      → Ensures (λ r db'. BooksStep db db') (claim_and_execute_one p c id db)
  unfolding claim_and_execute_one with_claim
  claim-BooksStep id db h = go (find (recognition_key c id) db.deferral_recognitions)
    where
      go :
          (claimed : Option DeferralRecognition)
          → Ensures (λ r db'. BooksStep db db') (with_claim p c claimed db)
      go none = BooksStep-refl db h
      go (some claimed) =
          branch-BooksStep claimed
            (find (λ (s : DeferralSchedule). s.id == claimed.schedule_id) db.deferral_schedules) db
            h (is_scheduled claimed.status)

  -- The whole batch, also when a claim throws in the middle of it.
  pub process_each-BooksStep :
      (ids : List ℕ) (tally : ProcessDueResult) (db : Db)
      → IsBooks db
      → BooksStep db (process_each p c ids tally db).1
  unfolding process_each
  process_each-BooksStep [] tally db h = BooksStep-refl db h
  process_each-BooksStep (id ∷ ids) tally db h =
      let step =
        with_tenant-BooksStep (claim_and_execute_one p c id) db h (claim-BooksStep id db h) in
      go (with_tenant (claim_and_execute_one p c id) db).0 step λ o.
        process_each-BooksStep ids (count_outcome o tally)
          (with_tenant (claim_and_execute_one p c id) db).1 step.books
    where
      go :
          (r : Result ClaimOutcome)
          → BooksStep db (with_tenant (claim_and_execute_one p c id) db).1
          → ((o : ClaimOutcome)
              → BooksStep
                  (with_tenant (claim_and_execute_one p c id) db).1
                  (process_each p c ids
                    (count_outcome o tally)
                    (with_tenant (claim_and_execute_one p c id) db).1).1)
          → BooksStep db
              (elim r as (λ _. Result ProcessDueResult × Db) [
                | ok outcome ↦
                    process_each p c ids
                      (count_outcome outcome tally)
                      (with_tenant (claim_and_execute_one p c id) db).1
                | err e ↦ (err e, (with_tenant (claim_and_execute_one p c id) db).1)
              ]).1
      go (ok o) step rest = BooksStep-trans db _ _ step (rest o)
      go (err e) step rest = step

  pub process_due-BooksStep :
      (as_of_date : Option ℕ) (db : Db)
      → IsBooks db
      → BooksStep db (process_due p c as_of_date db).1
  unfolding process_due
  process_due-BooksStep as_of_date db h =
      process_each-BooksStep (candidates c (or_else as_of_date p.today) db.deferral_recognitions)
        (record { claimed = 0; executed_count = 0; failed_count = 0 }) db h
