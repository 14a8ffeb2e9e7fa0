-- ===== src/ScheduledReversals/Processing.antt =====
-- processDue(): the candidates, and the loop over them.
use noryx_platform.Common.{ℕ, ◌+◌, Bool, ◌&&◌, Option, List, [], ◌∷◌, map, leb, or_else}
use noryx_platform.Common.Ordering.{take, order_by}
use noryx_platform.Common.Rows.{select}
use noryx_platform.Database.{Db, Caller, Platform, ScheduledReversal}
use noryx_platform.Database.Tx.{Result, ok, err, with_tenant}
use noryx_platform.Journal.{in_scope}
use noryx_platform.ScheduledReversals.Schedules.{is_waiting, comes_before}
use noryx_platform.ScheduledReversals.Engine.{ClaimOutcome, claim_and_execute_one}

pub record ProcessDueResult : Type 0 where
  pub claimed : ℕ
  pub executed_count : ℕ
  pub failed_count : ℕ
  pub cancelled_count : ℕ

abbrev pub candidate_batch_size : ℕ
candidate_batch_size = 100

abbrev pub count_outcome : ClaimOutcome → ProcessDueResult → ProcessDueResult
count_outcome ClaimOutcome.skipped t = t
count_outcome ClaimOutcome.executed t = record t {
  claimed = t.claimed + 1;
  executed_count = t.executed_count + 1;
}
count_outcome ClaimOutcome.failed t = record t {
  claimed = t.claimed + 1;
  failed_count = t.failed_count + 1;
}
count_outcome ClaimOutcome.cancelled t = record t {
  claimed = t.claimed + 1;
  cancelled_count = t.cancelled_count + 1;
}

module _ (c : Caller) where
  abbrev pub due_key : ℕ → ScheduledReversal → Bool
  due_key cutoff r =
      in_scope c r.tenant_id r.legal_entity_id && is_waiting r.status && leb r.target_date cutoff

  unfoldable pub candidates : ℕ → List ScheduledReversal → List ℕ
  unfolding comes_before
  candidates cutoff rows =
      map (λ r. r.id)
        (take candidate_batch_size (order_by comes_before (select (due_key cutoff) rows)))

module _ (p : Platform) (c : Caller) where
  -- Each candidate is claimed in a transaction of its own; one that throws ends the batch.
  unfoldable pub process_each : List ℕ → ProcessDueResult → Db → Result ProcessDueResult × Db
  unfolding claim_and_execute_one
  process_each [] tally db = (ok tally, db)
  process_each (id ∷ ids) tally db = elim (with_tenant (claim_and_execute_one p c id) db).0 [
    | ok outcome ↦
        process_each ids (count_outcome outcome tally)
          (with_tenant (claim_and_execute_one p c id) db).1
    | err e ↦ (err e, (with_tenant (claim_and_execute_one p c id) db).1)
  ]

  unfoldable pub process_due : Option ℕ → Db → Result ProcessDueResult × Db
  unfolding candidates process_each
  process_due as_of_date db =
      let cutoff = or_else as_of_date p.today in
      process_each (candidates c cutoff db.scheduled_reversals)
        (record { claimed = 0; executed_count = 0; failed_count = 0; cancelled_count = 0 }) db
