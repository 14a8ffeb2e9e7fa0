-- ===== src/ScheduledReversals/Schedules.antt =====
-- create(), cancel(), list() and findOne(), with the two constraints of the table that they
-- meet: scheduled_reversals_one_active_per_original and the fields that go with each status.
use noryx_platform.Common.{
  ℕ, Bool, true, false, not, ◌&&◌, ◌||◌, Option, none, some, List, [], ◌∷◌, ◌++◌, map, leb, ltb,
  ◌==◌,
}
use noryx_platform.Common.Decimal.{Text}
use noryx_platform.Common.Rows.{find, exists, update_where, select}
use noryx_platform.Common.Ordering.{order_by}
use noryx_platform.Database.{
  Caller, Platform, AuditLog, AuditAction, EntityType, Snapshot, reversal_row, reversal_cancelled,
  not_found, conflict, unprocessable, internal, no_such_row, already_scheduled,
  schedule_not_scheduled, period_closed, ScheduledReversal, ScheduledReversalStatus,
}
use noryx_platform.Database.Tx.{Tx, pure, throw, gets, or_throw, guard, modify, audit, ◌>>=◌, ◌>>◌}
use noryx_platform.Journal.{
  in_scope, PeriodResolution, is_open, is_closed, is_not_found, resolve_period_for_date,
  lock_and_validate_original_for_reversal,
}

pub record CreateScheduledReversalDto : Type 0 where
  pub original_journal_entry_id : ℕ
  pub target_date : ℕ

abbrev pub is_waiting : ScheduledReversalStatus → Bool
is_waiting ScheduledReversalStatus.scheduled = true
is_waiting ScheduledReversalStatus.executed = false
is_waiting ScheduledReversalStatus.failed = false
is_waiting ScheduledReversalStatus.cancelled = false

abbrev pub same_status : ScheduledReversalStatus → ScheduledReversalStatus → Bool
same_status ScheduledReversalStatus.scheduled s = is_waiting s
same_status ScheduledReversalStatus.executed s = elim s [
  | ScheduledReversalStatus.executed ↦ true
  | _ ↦ false
]
same_status ScheduledReversalStatus.failed s = elim s [
  | ScheduledReversalStatus.failed ↦ true
  | _ ↦ false
]
same_status ScheduledReversalStatus.cancelled s = elim s [
  | ScheduledReversalStatus.cancelled ↦ true
  | _ ↦ false
]

-- `orderBy(asc(targetDate), asc(id))`
unfoldable pub comes_before : ScheduledReversal → ScheduledReversal → Bool
comes_before r x =
    ltb r.target_date x.target_date || ((r.target_date == x.target_date) && leb r.id x.id)

-- An active row for this original, of any tenant: the key of the partial unique index.
abbrev pub active_for : ℕ → ScheduledReversal → Bool
active_for original r = (r.original_journal_entry_id == original) && is_waiting r.status

-- A period of the target date that is already closed is refused, a missing one is not.
abbrev pub refuse_closed : ℕ → PeriodResolution → Tx (Unit {0})
refuse_closed date (is_closed q) = throw (unprocessable (period_closed q.code date))
refuse_closed date (is_open q) = pure tt
refuse_closed date is_not_found = pure tt

abbrev pub has_status : Option ScheduledReversalStatus → ScheduledReversal → Bool
has_status none r = true
has_status (some s) r = same_status s r.status

module _ (c : Caller) where
  abbrev pub reversal_key : ℕ → ScheduledReversal → Bool
  reversal_key id r = (r.id == id) && in_scope c r.tenant_id r.legal_entity_id

  abbrev pub reversal_audit : AuditAction → ℕ → Option Snapshot → Option Snapshot → AuditLog
  reversal_audit action id before after = record {
    tenant_id = c.tenant_id;
    legal_entity_id = c.legal_entity_id;
    actor_user_id = c.actor_user_id;
    action = action;
    entity_type = EntityType.scheduled_reversal;
    entity_id = id;
    before_state = before;
    after_state = after;
  }

module _ (p : Platform) (c : Caller) where
  unfoldable pub new_reversal : ℕ → CreateScheduledReversalDto → ScheduledReversal
  new_reversal id dto = record {
    id = id;
    tenant_id = c.tenant_id;
    legal_entity_id = c.legal_entity_id;
    original_journal_entry_id = dto.original_journal_entry_id;
    target_date = dto.target_date;
    status = ScheduledReversalStatus.scheduled;
    resulting_reversal_journal_entry_id = none;
    failure_reason = none;
    executed_at = none;
    executed_by = none;
    created_by = c.actor_user_id;
    updated_at = p.now;
  }

  -- The guard is the unique index, whose error 23505 the service turns into a conflict.
  unfoldable pub create : CreateScheduledReversalDto → Tx ScheduledReversal
  unfolding lock_and_validate_original_for_reversal resolve_period_for_date new_reversal
  create dto = do
    original ← lock_and_validate_original_for_reversal c dto.original_journal_entry_id
    resolution ← resolve_period_for_date c dto.target_date
    refuse_closed dto.target_date resolution
    taken ← gets λ db. exists (active_for dto.original_journal_entry_id) db.scheduled_reversals
    guard (not taken) (conflict already_scheduled)
    id ← gets λ db. p.new_id (map (λ r. r.id) db.scheduled_reversals)
    let created = new_reversal id dto
    modify λ db. record db { scheduled_reversals = db.scheduled_reversals ++ created ∷ [] }
    audit (reversal_audit c AuditAction.create id none (some (reversal_row created)) ∷ [])
    pure created

  unfoldable pub mark_cancelled : ScheduledReversal → ScheduledReversal
  mark_cancelled r = record r { status = ScheduledReversalStatus.cancelled; updated_at = p.now }

  -- The update of a row by id in scope, and the row that it returns.
  unfoldable pub update_reversal :
      ℕ → (ScheduledReversal → ScheduledReversal) → Tx (Option ScheduledReversal)
  update_reversal id f = do
    modify λ db. record db {
      scheduled_reversals = update_where (reversal_key c id) f db.scheduled_reversals;
    }
    gets λ db. find (reversal_key c id) db.scheduled_reversals

  unfoldable pub cancel : ℕ → Option Text → Tx ScheduledReversal
  unfolding update_reversal mark_cancelled
  cancel id reason = do
    found ← gets λ db. find (reversal_key c id) db.scheduled_reversals
    existing ← or_throw found (not_found no_such_row)
    guard (is_waiting existing.status) (conflict schedule_not_scheduled)
    row ← update_reversal id mark_cancelled
    updated ← or_throw row (internal no_such_row)
    audit (
        reversal_audit c AuditAction.cancel id (some (reversal_row existing))
          (some (reversal_cancelled (some updated) reason))
        ∷ [])
    pure updated

module _ (c : Caller) where
  unfoldable pub list : Option ScheduledReversalStatus → Tx (List ScheduledReversal)
  unfolding comes_before
  list status = gets λ db. order_by comes_before (
      select (λ r. in_scope c r.tenant_id r.legal_entity_id && has_status status r)
        db.scheduled_reversals)

  unfoldable pub find_one : ℕ → Tx ScheduledReversal
  find_one id = do
    row ← gets λ db. find (reversal_key c id) db.scheduled_reversals
    or_throw row (not_found no_such_row)
