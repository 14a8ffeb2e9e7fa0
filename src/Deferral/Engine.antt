-- ===== src/Deferral/Engine.antt =====
-- claimAndExecuteOne(), transitionToFailed() and completeScheduleIfDone().
use noryx_platform.Common.{
  ℕ, Bool, ◌&&◌, Option, none, some, List, [], ◌∷◌, ◌++◌, ◌==◌, if◌then◌else◌,
}
use noryx_platform.Common.Decimal.{Text, codes, decimal}
use noryx_platform.Common.Rows.{find, exists, update_where}
use noryx_platform.Database.{
  Caller, Platform, AuditLog, AuditAction, EntityType, schedule_row, recognition_row, Failure,
  bad_request, not_found, conflict, unprocessable, internal, Reason, no_such_row, period_closed,
  AccountingPeriod, expense_recognition, revenue_recognition, ScheduleStatus, RecognitionStatus,
  DeferralSchedule, DeferralRecognition,
}
use noryx_platform.Database.Tx.{ok, err, Tx, pure, gets, modify, audit, ◌>>=◌, ◌>>◌}
use noryx_platform.Journal.{
  in_scope, CreateJournalLineDto, PeriodResolution, is_open, is_closed, is_not_found,
  resolve_period_for_date, post_system_generated_entry,
}
use noryx_platform.Deferral.Schedules.{
  is_scheduled, is_active_schedule, of_schedule, schedule_key, schedule_audit,
  validate_accounts_or_throw,
}

-- `ClaimOutcome`
pub data ClaimOutcome : Type 0 where
  executed failed skipped : ClaimOutcome

-- The line that carries the amount as a debit, or as a credit.
abbrev pub debit_line : ℕ → ℕ → CreateJournalLineDto
debit_line account amount = record {
  account_id = account;
  debit_minor = amount;
  credit_minor = 0;
  description = none;
  tax_code_id = none;
  tax_direction = none;
}

abbrev pub credit_line : ℕ → ℕ → CreateJournalLineDto
credit_line account amount = record {
  account_id = account;
  debit_minor = 0;
  credit_minor = amount;
  description = none;
  tax_code_id = none;
  tax_direction = none;
}

unfoldable pub recognition_lines : DeferralSchedule → ℕ → List CreateJournalLineDto
recognition_lines s amount = elim s.deferral_type [
  | expense_recognition ↦
      debit_line s.recognition_account_id amount ∷ credit_line s.deferred_account_id amount ∷ []
  | revenue_recognition ↦
      debit_line s.deferred_account_id amount ∷ credit_line s.recognition_account_id amount ∷ []
]

unfoldable pub recognition_memo : DeferralRecognition → DeferralSchedule → Text
recognition_memo r s =
    codes "Deferral recognition " ++ (decimal r.sequence_number ++ (codes " of " ++ s.memo))

abbrev pub reason_of : Failure → Reason
reason_of (bad_request r) = r
reason_of (not_found r) = r
reason_of (conflict r) = r
reason_of (unprocessable r) = r
reason_of (internal r) = r

-- `try { validate } catch`: the check reads only, so the failure path goes on from the same state.
abbrev pub attempt : Tx (Unit {0}) → Tx (Option Reason)
attempt m db = elim (m db) [ ok (u, db') ↦ ok (none, db') | err e ↦ ok (some (reason_of e), db) ]

module _ (c : Caller) where
  abbrev pub recognition_key : ℕ → DeferralRecognition → Bool
  recognition_key id r = (r.id == id) && in_scope c r.tenant_id r.legal_entity_id

  abbrev pub recognition_audit :
      AuditAction → ℕ → Option DeferralRecognition → Option DeferralRecognition → AuditLog
  recognition_audit action id before after = record {
    tenant_id = c.tenant_id;
    legal_entity_id = c.legal_entity_id;
    actor_user_id = c.actor_user_id;
    action = action;
    entity_type = EntityType.deferral_recognition;
    entity_id = id;
    before_state = elim before [ none ↦ none | some r ↦ some (recognition_row r) ];
    after_state = elim after [ none ↦ none | some r ↦ some (recognition_row r) ];
  }

  abbrev pub active_key : ℕ → DeferralSchedule → Bool
  active_key id s = schedule_key c id s && is_active_schedule s.status

module _ (p : Platform) (c : Caller) where
  unfoldable pub complete_schedule : DeferralSchedule → DeferralSchedule
  complete_schedule s = record s { status = ScheduleStatus.completed; updated_at = p.now }

  unfoldable pub finish_schedule : ℕ → Option DeferralSchedule → Tx (Unit {0})
  unfolding complete_schedule
  finish_schedule id none = pure tt
  finish_schedule id (some s) = do
    modify λ db. record db {
      deferral_schedules = update_where (active_key c id) complete_schedule db.deferral_schedules;
    }
    audit (
        schedule_audit c AuditAction.complete id none (some (schedule_row (complete_schedule s)))
        ∷ [])

  unfoldable pub complete_schedule_if_done : ℕ → Tx (Unit {0})
  unfolding finish_schedule
  complete_schedule_if_done id = do
    remaining ←
        gets λ db. exists (λ r. of_schedule id r && is_scheduled r.status) db.deferral_recognitions
    matched ← gets λ db. find (active_key c id) db.deferral_schedules
    if remaining then pure tt else finish_schedule id matched

  unfoldable pub mark_failed : Reason → DeferralRecognition → DeferralRecognition
  mark_failed reason r = record r {
    status = RecognitionStatus.failed;
    failure_reason = some reason;
    executed_at = some p.now;
    executed_by = c.actor_user_id;
    updated_at = p.now;
  }

  unfoldable pub mark_executed : ℕ → DeferralRecognition → DeferralRecognition
  mark_executed entry_id r = record r {
    status = RecognitionStatus.executed;
    resulting_journal_entry_id = some entry_id;
    executed_at = some p.now;
    executed_by = c.actor_user_id;
    updated_at = p.now;
  }

  -- The update of a recognition by id in scope.
  unfoldable pub update_recognition :
      ℕ → (DeferralRecognition → DeferralRecognition) → Tx (Option DeferralRecognition)
  update_recognition id f = do
    modify λ db. record db {
      deferral_recognitions = update_where (recognition_key c id) f db.deferral_recognitions;
    }
    gets λ db. find (recognition_key c id) db.deferral_recognitions

  unfoldable pub transition_to_failed : DeferralRecognition → Reason → Tx ClaimOutcome
  unfolding update_recognition mark_failed complete_schedule_if_done
  transition_to_failed claimed reason = do
    row ← update_recognition claimed.id (mark_failed reason)
    audit (recognition_audit c AuditAction.fail claimed.id (some claimed) row ∷ [])
    complete_schedule_if_done claimed.schedule_id
    pure ClaimOutcome.failed

  unfoldable pub execute_claimed :
      DeferralRecognition → DeferralSchedule → AccountingPeriod → Tx ClaimOutcome
  unfolding recognition_lines recognition_memo post_system_generated_entry update_recognition
      mark_executed complete_schedule_if_done
  execute_claimed claimed schedule period = do
    entry ←
        post_system_generated_entry p c (recognition_lines schedule claimed.amount_minor) period
          claimed.target_date (recognition_memo claimed schedule) schedule.currency_code
    row ← update_recognition claimed.id (mark_executed entry.entry.id)
    audit (recognition_audit c AuditAction.execute claimed.id (some claimed) row ∷ [])
    complete_schedule_if_done schedule.id
    pure ClaimOutcome.executed

  unfoldable pub after_check :
      DeferralRecognition → DeferralSchedule → AccountingPeriod → Option Reason → Tx ClaimOutcome
  unfolding transition_to_failed execute_claimed
  after_check claimed schedule period none = execute_claimed claimed schedule period
  after_check claimed schedule period (some reason) = transition_to_failed claimed reason

  unfoldable pub in_resolution :
      DeferralRecognition → DeferralSchedule → PeriodResolution → Tx ClaimOutcome
  unfolding transition_to_failed validate_accounts_or_throw after_check
  in_resolution claimed schedule is_not_found = pure ClaimOutcome.skipped
  in_resolution claimed schedule (is_closed period) =
      transition_to_failed claimed (period_closed period.code claimed.target_date)
  in_resolution claimed schedule (is_open period) = do
    refused ← attempt (
        validate_accounts_or_throw c
          (schedule.deferred_account_id ∷ schedule.recognition_account_id ∷ []))
    after_check claimed schedule period refused

  unfoldable pub with_schedule : DeferralRecognition → Option DeferralSchedule → Tx ClaimOutcome
  unfolding transition_to_failed resolve_period_for_date in_resolution
  with_schedule claimed none = transition_to_failed claimed no_such_row
  with_schedule claimed (some schedule) = do
    resolution ← resolve_period_for_date c claimed.target_date
    in_resolution claimed schedule resolution

  unfoldable pub with_claim : Option DeferralRecognition → Tx ClaimOutcome
  unfolding with_schedule
  with_claim none = pure ClaimOutcome.skipped
  with_claim (some claimed) = do
    schedule ←
        gets
          λ db. find (λ (s : DeferralSchedule). s.id == claimed.schedule_id) db.deferral_schedules
    if is_scheduled claimed.status
        then with_schedule claimed schedule
        else pure ClaimOutcome.skipped

  unfoldable pub claim_and_execute_one : ℕ → Tx ClaimOutcome
  unfolding with_claim
  claim_and_execute_one id = do
    claimed ← gets λ db. find (recognition_key c id) db.deferral_recognitions
    with_claim claimed
