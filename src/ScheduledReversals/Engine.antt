-- ===== src/ScheduledReversals/Engine.antt =====
-- claimAndExecuteOne(), transitionToFailed() and transitionToCancelled().
use noryx_platform.Common.{ℕ, Option, none, some, [], ◌∷◌, ◌++◌, if◌then◌else◌}
use noryx_platform.Common.Decimal.{Text, codes}
use noryx_platform.Common.Rows.{find}
use noryx_platform.Database.{
  Caller, Platform, AuditAction, Snapshot, reversal_row, reversal_cancelled, Failure, bad_request,
  not_found, conflict, unprocessable, internal, Reason, period_closed, AccountingPeriod,
  EntryWithLines, ScheduledReversal, ScheduledReversalStatus,
}
use noryx_platform.Database.Tx.{Result, ok, err, Tx, pure, gets, audit, ◌>>=◌, ◌>>◌}
use noryx_platform.Journal.{
  PeriodResolution, is_open, is_closed, is_not_found, resolve_period_for_date,
  lock_and_validate_original_for_reversal, complete_reversal_posting, shown,
}
use noryx_platform.ScheduledReversals.Schedules.{
  is_waiting, reversal_key, reversal_audit, mark_cancelled, update_reversal,
}

-- `ClaimOutcome`
pub data ClaimOutcome : Type 0 where
  executed failed cancelled skipped : ClaimOutcome

-- `try { await m } catch (err)`, where `m` only reads: the rest goes on from the same state.
abbrev pub caught : {A : Type 0} → Tx A → Tx (Result A)
caught m db = elim (m db) [ ok (a, db') ↦ ok (ok a, db') | err e ↦ ok (err e, db) ]

abbrev pub already_reversed_text : Text
already_reversed_text =
    codes
      "The original journal entry was already reversed (by a manual reversal, or an earlier scheduled execution) before this schedule's target date was processed."

abbrev pub reversal_memo : EntryWithLines → Text
reversal_memo original = codes "Scheduled reversal of " ++ shown original.entry.journal_number

abbrev pub map_row : Option ScheduledReversal → Option Snapshot
map_row none = none
map_row (some r) = some (reversal_row r)

module _ (p : Platform) (c : Caller) where
  unfoldable pub mark_failed : Reason → ScheduledReversal → ScheduledReversal
  mark_failed reason r = record r {
    status = ScheduledReversalStatus.failed;
    failure_reason = some reason;
    executed_at = some p.now;
    executed_by = c.actor_user_id;
    updated_at = p.now;
  }

  unfoldable pub mark_executed : ℕ → ScheduledReversal → ScheduledReversal
  mark_executed entry_id r = record r {
    status = ScheduledReversalStatus.executed;
    resulting_reversal_journal_entry_id = some entry_id;
    executed_at = some p.now;
    executed_by = c.actor_user_id;
    updated_at = p.now;
  }

  unfoldable pub transition_to_failed : ScheduledReversal → Reason → Tx ClaimOutcome
  unfolding update_reversal mark_failed
  transition_to_failed claimed reason = do
    row ← update_reversal p c claimed.id (mark_failed reason)
    audit (
        reversal_audit c AuditAction.fail claimed.id (some (reversal_row claimed)) (map_row row)
        ∷ [])
    pure ClaimOutcome.failed

  unfoldable pub transition_to_cancelled : ScheduledReversal → Text → Tx ClaimOutcome
  unfolding update_reversal mark_cancelled
  transition_to_cancelled claimed reason = do
    row ← update_reversal p c claimed.id (mark_cancelled p c)
    audit (
        reversal_audit c AuditAction.cancel claimed.id (some (reversal_row claimed))
          (some (reversal_cancelled row (some reason)))
        ∷ [])
    pure ClaimOutcome.cancelled

  -- What an execution does after the reversal is posted.
  unfoldable pub record_execution : ScheduledReversal → EntryWithLines → Tx ClaimOutcome
  unfolding update_reversal mark_executed
  record_execution claimed reversal = do
    row ← update_reversal p c claimed.id (mark_executed reversal.entry.id)
    audit (
        reversal_audit c AuditAction.execute claimed.id (some (reversal_row claimed)) (map_row row)
        ∷ [])
    pure ClaimOutcome.executed

  unfoldable pub execute_claimed :
      ScheduledReversal → EntryWithLines → AccountingPeriod → Tx ClaimOutcome
  unfolding complete_reversal_posting record_execution
  execute_claimed claimed original period = do
    reversal ←
        complete_reversal_posting p c original period claimed.target_date (reversal_memo original)
    record_execution claimed reversal

  unfoldable pub in_resolution :
      ScheduledReversal → EntryWithLines → PeriodResolution → Tx ClaimOutcome
  unfolding transition_to_failed execute_claimed
  in_resolution claimed original is_not_found = pure ClaimOutcome.skipped
  in_resolution claimed original (is_closed period) =
      transition_to_failed claimed (period_closed period.code claimed.target_date)
  in_resolution claimed original (is_open period) = execute_claimed claimed original period

  -- The `catch`: a conflict cancels the schedule, any other error fails it.
  unfoldable pub refused : ScheduledReversal → Failure → Tx ClaimOutcome
  unfolding transition_to_cancelled transition_to_failed
  refused claimed (conflict reason) = transition_to_cancelled claimed already_reversed_text
  refused claimed (not_found reason) = transition_to_failed claimed reason
  refused claimed (unprocessable reason) = transition_to_failed claimed reason
  refused claimed (bad_request reason) = transition_to_failed claimed reason
  refused claimed (internal reason) = transition_to_failed claimed reason

  unfoldable pub with_original : ScheduledReversal → Result EntryWithLines → Tx ClaimOutcome
  unfolding refused resolve_period_for_date in_resolution
  with_original claimed (err e) = refused claimed e
  with_original claimed (ok original) = do
    resolution ← resolve_period_for_date c claimed.target_date
    in_resolution claimed original resolution

  unfoldable pub execute_waiting : ScheduledReversal → Tx ClaimOutcome
  unfolding lock_and_validate_original_for_reversal with_original
  execute_waiting claimed = do
    original ← caught (lock_and_validate_original_for_reversal c claimed.original_journal_entry_id)
    with_original claimed original

  unfoldable pub with_claim : Option ScheduledReversal → Tx ClaimOutcome
  unfolding execute_waiting
  with_claim none = pure ClaimOutcome.skipped
  with_claim (some claimed) =
      if is_waiting claimed.status then execute_waiting claimed else pure ClaimOutcome.skipped

  unfoldable pub claim_and_execute_one : ℕ → Tx ClaimOutcome
  unfolding with_claim
  claim_and_execute_one id = do
    claimed ← gets λ db. find (reversal_key c id) db.scheduled_reversals
    with_claim claimed
