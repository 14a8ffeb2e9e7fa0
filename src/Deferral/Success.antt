-- ===== src/Deferral/Success.antt =====
-- When a claim executes its recognition, and when it fails it.
use noryx_platform.Deferral.Engine.{
  attempt, ClaimOutcome, recognition_key, recognition_lines, recognition_memo, execute_claimed,
  update_recognition, complete_schedule_if_done, transition_to_failed, claim_and_execute_one,
  with_claim, with_schedule, in_resolution, after_check, mark_failed,
}
use noryx_platform.Common.{
  Option, refl, ap, sym, true, none, some, ℕ, ◌≡◌, [], ◌∷◌, arith, ◌==◌, List, ◌≤◌, ◌∙◌,
}
use noryx_platform.Journal.{
  journal_number_text, mark_posted, new_entry, number_lines, covers, post_system_generated_entry,
  resolve_period_for_date, lines_accepted, line_accepted, single_sided_nonzero,
  tax_code_direction_pairing,
}
use noryx_platform.Books.Shape.{drawn}
use noryx_platform.Books.Entries.{next_entry_id}
use mathlib.Core.Path.{subst}
use noryx_platform.Deferral.Schedules.{is_scheduled, validate_accounts_or_throw}
use noryx_platform.Database.{
  Reason, Db, Caller, Platform, AccountingPeriod, EntryWithLines, DeferralSchedule,
  DeferralRecognition, RecognitionStatus, open_period, closed, Account, TaxCode, period_closed,
}
use noryx_platform.Database.Tx.{
  ok, Answers, Answers-bind, Answers-Returns, Achieves, Achieves-map, Tx, ◌>>=◌, Returns-Achieves,
}
use noryx_platform.Common.Rows.{update_where, exists, find_holds, find-update_where, find}
use noryx_platform.Deferral.Execution.{Executes, execution_posts}
use noryx_platform.Books.Success.{generate_succeeds}
use noryx_platform.Deferral.Claims.{mark}

module _ (p : Platform) (c : Caller) where
  mark-Answers :
      (claimed : DeferralRecognition) (s : DeferralSchedule) (w : EntryWithLines) (db : Db)
      → Answers ClaimOutcome.executed (mark p c claimed s w db)
  unfolding mark update_recognition complete_schedule_if_done
  mark-Answers claimed s w db = ground arith

  execute-Answers :
      (claimed : DeferralRecognition) (s : DeferralSchedule) (period : AccountingPeriod) (db : Db)
      → lines_accepted db.chart_of_accounts db.tax_codes (recognition_lines s claimed.amount_minor)
        ≡ true
      → Answers ClaimOutcome.executed (execute_claimed p c claimed s period db)
  unfolding execute_claimed mark
  execute-Answers claimed s period db accepted =
      let lines = recognition_lines s claimed.amount_minor in
      let memo = recognition_memo claimed s in
      let w : EntryWithLines = record {
        entry = mark_posted p c (journal_number_text (drawn c db).0) period.id (
            new_entry p c (next_entry_id p db) claimed.target_date s.currency_code (some memo)
              none);
        lines = number_lines c (next_entry_id p db) 0 lines;
      } in
      Answers-bind w ClaimOutcome.executed
        (post_system_generated_entry p c lines period claimed.target_date memo s.currency_code)
        (mark p c claimed s) db
        (generate_succeeds p c db lines period claimed.target_date memo s.currency_code accepted)
        (λ db'. mark-Answers claimed s w db')

  -- An amount and accounts that are there make lines that the table accepts.
  recognition_accepted :
      (s : DeferralSchedule) (amount : ℕ) (accounts : List Account) (tax_codes : List TaxCode)
      → 1 ≤ amount
      → exists (λ (a : Account). a.id == s.deferred_account_id) accounts ≡ true
      → exists (λ (a : Account). a.id == s.recognition_account_id) accounts ≡ true
      → lines_accepted accounts tax_codes (recognition_lines s amount) ≡ true
  unfolding recognition_lines lines_accepted line_accepted single_sided_nonzero
      tax_code_direction_pairing
  recognition_accepted s amount accounts tax_codes some_amount a b = ground arith

  -- What a claim that fails leaves: the row failed with this reason, and the journal as it was.
  pub record FailsWith (claimed : DeferralRecognition) (reason : Reason) (db db' : Db)
      (o : ClaimOutcome) : Type 0 where
    pub outcome : o ≡ ClaimOutcome.failed
    pub row : DeferralRecognition
    pub found : find (recognition_key c claimed.id) db'.deferral_recognitions ≡ some row
    pub status : row.status ≡ RecognitionStatus.failed
    pub why : row.failure_reason ≡ some reason
    pub same_entry : row.resulting_journal_entry_id ≡ claimed.resulting_journal_entry_id
    pub entries : db'.journal_entries ≡ db.journal_entries
    pub lines : db'.journal_lines ≡ db.journal_lines

  fail_shape :
      (claimed : DeferralRecognition) (reason : Reason) (db : Db)
      → Achieves
          (λ o db'.
            (o ≡ ClaimOutcome.failed)
            × (db'.deferral_recognitions
                ≡ update_where
                    (recognition_key c claimed.id)
                    (mark_failed p c reason)
                    db.deferral_recognitions)
            × (db'.journal_entries ≡ db.journal_entries)
            × (db'.journal_lines ≡ db.journal_lines))
          (transition_to_failed p c claimed reason db)
  unfolding transition_to_failed complete_schedule_if_done
  fail_shape claimed reason db = ground arith

  fail-Achieves :
      (claimed : DeferralRecognition) (reason : Reason) (db : Db)
      → find (recognition_key c claimed.id) db.deferral_recognitions ≡ some claimed
      → Achieves
          (λ o db'. FailsWith claimed reason db db' o)
          (transition_to_failed p c claimed reason db)
  unfolding mark_failed
  fail-Achieves claimed reason db found =
      Achieves-map _ (λ o db'. FailsWith claimed reason db db' o)
        (transition_to_failed p c claimed reason db)
        (λ o db' s. record {
          outcome = s.0;
          row = mark_failed p c reason claimed;
          found =
              ap (find (recognition_key c claimed.id)) s.1
              ∙ find-update_where (recognition_key c claimed.id) (mark_failed p c reason)
                  db.deferral_recognitions claimed (λ r. refl) found;
          status = refl;
          why = refl;
          same_entry = refl;
          entries = s.2;
          lines = s.3;
        })
        (fail_shape claimed reason db)

  attempt_ok :
      (m : Tx (Unit {0})) (f : Option Reason → Tx ClaimOutcome) (db : Db)
      → m db ≡ ok (tt, db)
      → (attempt m >>= f) db ≡ f none db
  attempt_ok m f db e = ground (arith, e)

  module _ (id : ℕ) (claimed : DeferralRecognition) (s : DeferralSchedule)
      (period : AccountingPeriod) (db : Db)
      (found : find (recognition_key c id) db.deferral_recognitions ≡ some claimed)
      (waits : claimed.status ≡ RecognitionStatus.scheduled)
      (owner : find (λ (x : DeferralSchedule). x.id == claimed.schedule_id) db.deferral_schedules
        ≡ some s)
      (cover : find (covers c claimed.target_date) db.accounting_periods ≡ some period) where
    there : find (recognition_key c claimed.id) db.deferral_recognitions ≡ some claimed
    there =
        let key : recognition_key c id claimed ≡ true =
          find_holds (recognition_key c id) db.deferral_recognitions claimed found in
        let here : claimed.id ≡ id = ground arith in
        ap (λ k. find (recognition_key c k) db.deferral_recognitions) here ∙ found

    -- The guards of a claim let such a recognition through to the execution.
    claim-execute :
        period.status ≡ open_period
        → validate_accounts_or_throw c (s.deferred_account_id ∷ s.recognition_account_id ∷ []) db
          ≡ ok (tt, db)
        → claim_and_execute_one p c id db ≡ execute_claimed p c claimed s period db
    unfolding claim_and_execute_one with_claim with_schedule resolve_period_for_date in_resolution
        after_check
    claim-execute open_ valid =
        let on : is_scheduled claimed.status ≡ true = ap is_scheduled waits in
        let check =
          validate_accounts_or_throw c (s.deferred_account_id ∷ s.recognition_account_id ∷ []) in
        rw (found, on, owner, cover, open_)
          (attempt_ok check (after_check p c claimed s period) db valid)

    -- When its id finds a scheduled recognition of a positive amount, whose schedule is there, an
    -- open period covers its target date, and both accounts of the schedule exist and pass the
    -- check, a claim returns "executed". It has stored a posted entry of the target date in that
    -- period, added its two lines, a debit and a credit of the amount on the accounts that the
    -- schedule says, and the stored row is executed and names the entry.
    pub claim-Executes :
        period.status ≡ open_period
        → validate_accounts_or_throw c (s.deferred_account_id ∷ s.recognition_account_id ∷ []) db
          ≡ ok (tt, db)
        → 1 ≤ claimed.amount_minor
        → exists (λ (a : Account). a.id == s.deferred_account_id) db.chart_of_accounts ≡ true
        → exists (λ (a : Account). a.id == s.recognition_account_id) db.chart_of_accounts ≡ true
        → Achieves
            (λ o db'. Executes p c claimed s period.id db db' o)
            (claim_and_execute_one p c id db)
    claim-Executes open_ valid amount deferred recognition =
        let accepted =
          recognition_accepted s claimed.amount_minor db.chart_of_accounts db.tax_codes amount
            deferred recognition in
        subst (Achieves (λ o db'. Executes p c claimed s period.id db db' o))
          (sym (claim-execute open_ valid))
          (Returns-Achieves (λ o db'. Executes p c claimed s period.id db db' o)
            (execute_claimed p c claimed s period db)
            (Answers-Returns ClaimOutcome.executed (execute_claimed p c claimed s period db)
              (execute-Answers claimed s period db accepted))
            (execution_posts p c claimed s period db there))

    claim-fail :
        period.status ≡ closed
        → claim_and_execute_one p c id db
          ≡ transition_to_failed p c claimed (period_closed period.code claimed.target_date) db
    unfolding claim_and_execute_one with_claim with_schedule resolve_period_for_date in_resolution
    claim-fail shut =
        let on : is_scheduled claimed.status ≡ true = ap is_scheduled waits in
        rw (found, on, owner, cover, shut) refl

    -- When its id finds a scheduled recognition whose schedule is there, and the period that covers
    -- its target date is closed, a claim returns "failed": the stored row is failed, with the
    -- closed period and the date as the reason, names the entry that it named, and entries and lines of
    -- the journal are as they were.
    pub claim_fails_closed :
        period.status ≡ closed
        → Achieves
            (λ o db'. FailsWith claimed (period_closed period.code claimed.target_date) db db' o)
            (claim_and_execute_one p c id db)
    claim_fails_closed shut =
        subst
          (Achieves
            (λ o db'. FailsWith claimed (period_closed period.code claimed.target_date) db db' o))
          (sym (claim-fail shut))
          (fail-Achieves claimed (period_closed period.code claimed.target_date) db there)
