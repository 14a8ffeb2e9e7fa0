-- ===== src/Deferral/Schedules.antt =====
-- create(), cancel(), findOne(), listRecognitions() and the helpers that they share.
use noryx_platform.Common.{
  ℕ, ◌+◌, Bool, true, false, not, ◌&&◌, Option, none, some, List, [], ◌∷◌, ◌++◌, map, sum, leb,
  ◌==◌, if◌then◌else◌, contains,
}
use noryx_platform.Common.Decimal.{Text}
use noryx_platform.Common.Int.{ℤ, sub_ℕ}
use noryx_platform.Common.Rows.{select, find, update_where}
use noryx_platform.Database.{
  Caller, Platform, AuditLog, AuditAction, EntityType, Snapshot, schedule_row, schedule_full,
  not_found, conflict, unprocessable, internal, no_values, no_such_row, inactive_accounts,
  same_accounts, sum_mismatch, duplicate_target_date, schedule_not_active, DeferralType,
  ScheduleStatus, RecognitionStatus, DeferralSchedule, DeferralRecognition,
  ScheduleWithRecognitions,
}
use noryx_platform.Database.Tx.{Tx, pure, throw, gets, or_throw, guard, modify, audit, ◌>>=◌, ◌>>◌}
use noryx_platform.Journal.{in_scope, find_invalid_account_ids, resolve_currency, is_empty}

pub record CreateDeferralOccurrenceDto : Type 0 where
  pub target_date : ℕ
  pub amount_minor : ℕ

pub record CreateDeferralScheduleDto : Type 0 where
  pub memo : Text
  pub deferral_type : DeferralType
  pub deferred_account_id : ℕ
  pub recognition_account_id : ℕ
  pub total_amount_minor : ℕ
  pub occurrences : List CreateDeferralOccurrenceDto

abbrev pub is_scheduled : RecognitionStatus → Bool
is_scheduled RecognitionStatus.scheduled = true
is_scheduled _ = false

abbrev pub is_executed : RecognitionStatus → Bool
is_executed RecognitionStatus.executed = true
is_executed _ = false

abbrev pub is_active_schedule : ScheduleStatus → Bool
is_active_schedule ScheduleStatus.active = true
is_active_schedule _ = false

-- The loop over the occurrences with the set of the dates seen: the first date that comes again.
unfoldable pub repeated_date : List ℕ → List CreateDeferralOccurrenceDto → Option ℕ
repeated_date seen [] = none
repeated_date seen (o ∷ os) =
    let rest = repeated_date (o.target_date ∷ seen) os in
    if contains o.target_date seen then some o.target_date else rest

abbrev pub repeated_or_go_on : Option ℕ → Tx (Unit {0})
repeated_or_go_on none = pure tt
repeated_or_go_on (some d) = throw (unprocessable (duplicate_target_date d))

-- `sort((a, b) => a.targetDate.localeCompare(b.targetDate))`: stable, and on ISO dates the order
-- of the days.
unfoldable pub insert_by_date :
    CreateDeferralOccurrenceDto
    → List CreateDeferralOccurrenceDto
    → List CreateDeferralOccurrenceDto
insert_by_date o [] = o ∷ []
insert_by_date o (x ∷ xs) =
    if leb o.target_date x.target_date then o ∷ x ∷ xs else x ∷ insert_by_date o xs

unfoldable pub sort_by_date : List CreateDeferralOccurrenceDto → List CreateDeferralOccurrenceDto
unfolding insert_by_date
sort_by_date [] = []
sort_by_date (o ∷ os) = insert_by_date o (sort_by_date os)

-- `orderBy(asc(sequenceNumber))`
unfoldable pub insert_by_sequence :
    DeferralRecognition → List DeferralRecognition → List DeferralRecognition
insert_by_sequence r [] = r ∷ []
insert_by_sequence r (x ∷ xs) =
    if leb r.sequence_number x.sequence_number then r ∷ x ∷ xs else x ∷ insert_by_sequence r xs

unfoldable pub order_by_sequence : List DeferralRecognition → List DeferralRecognition
unfolding insert_by_sequence
order_by_sequence [] = []
order_by_sequence (r ∷ rs) = insert_by_sequence r (order_by_sequence rs)

abbrev pub of_schedule : ℕ → DeferralRecognition → Bool
of_schedule id r = r.schedule_id == id

unfoldable pub recognitions_of : ℕ → List DeferralRecognition → List DeferralRecognition
unfolding order_by_sequence
recognitions_of id rows = order_by_sequence (select (of_schedule id) rows)

abbrev pub executed_sum : List DeferralRecognition → ℕ
executed_sum rs = sum (λ r. r.amount_minor) (select (λ r. is_executed r.status) rs)

unfoldable pub with_remaining_balance :
    DeferralSchedule → List DeferralRecognition → ScheduleWithRecognitions
with_remaining_balance schedule recognitions = record {
  schedule = schedule;
  recognitions = recognitions;
  remaining_balance_minor = sub_ℕ schedule.total_amount_minor (executed_sum recognitions);
}

module _ (c : Caller) where
  abbrev pub schedule_key : ℕ → DeferralSchedule → Bool
  schedule_key id s = (s.id == id) && in_scope c s.tenant_id s.legal_entity_id

  abbrev pub schedule_audit : AuditAction → ℕ → Option Snapshot → Option Snapshot → AuditLog
  schedule_audit action id before after = record {
    tenant_id = c.tenant_id;
    legal_entity_id = c.legal_entity_id;
    actor_user_id = c.actor_user_id;
    action = action;
    entity_type = EntityType.deferral_schedule;
    entity_id = id;
    before_state = before;
    after_state = after;
  }

  abbrev pub pending_key : ℕ → DeferralRecognition → Bool
  pending_key id r =
      (r.schedule_id == id) && in_scope c r.tenant_id r.legal_entity_id && is_scheduled r.status

  unfoldable pub validate_accounts_or_throw : List ℕ → Tx (Unit {0})
  unfolding find_invalid_account_ids
  validate_accounts_or_throw account_ids = do
    invalid ← find_invalid_account_ids c account_ids
    guard (is_empty invalid) (unprocessable (inactive_accounts invalid))

module _ (p : Platform) (c : Caller) where
  unfoldable pub new_schedule : ℕ → Text → CreateDeferralScheduleDto → DeferralSchedule
  new_schedule id currency dto = record {
    id = id;
    tenant_id = c.tenant_id;
    legal_entity_id = c.legal_entity_id;
    memo = dto.memo;
    currency_code = currency;
    total_amount_minor = dto.total_amount_minor;
    deferral_type = dto.deferral_type;
    deferred_account_id = dto.deferred_account_id;
    recognition_account_id = dto.recognition_account_id;
    status = ScheduleStatus.active;
    created_by = c.actor_user_id;
    updated_at = p.now;
    cancelled_at = none;
    cancelled_by = none;
    cancellation_reason = none;
  }

  unfoldable pub new_recognition : ℕ → ℕ → ℕ → CreateDeferralOccurrenceDto → DeferralRecognition
  new_recognition id schedule_id sequence o = record {
    id = id;
    schedule_id = schedule_id;
    tenant_id = c.tenant_id;
    legal_entity_id = c.legal_entity_id;
    sequence_number = sequence;
    target_date = o.target_date;
    amount_minor = o.amount_minor;
    status = RecognitionStatus.scheduled;
    resulting_journal_entry_id = none;
    failure_reason = none;
    executed_at = none;
    executed_by = none;
    updated_at = p.now;
  }

  -- Rows numbered from 1 in the order given; `ids` are those of the table so far.
  unfoldable pub number_recognitions :
      List ℕ → ℕ → ℕ → List CreateDeferralOccurrenceDto → List DeferralRecognition
  unfolding new_recognition
  number_recognitions ids schedule_id index [] = []
  number_recognitions ids schedule_id index (o ∷ os) =
      new_recognition (p.new_id ids) schedule_id (index + 1) o
      ∷ number_recognitions (p.new_id ids ∷ ids) schedule_id (index + 1) os

  unfoldable pub create : CreateDeferralScheduleDto → Tx ScheduleWithRecognitions
  unfolding validate_accounts_or_throw resolve_currency new_schedule sort_by_date
      number_recognitions
  create dto = do
    guard (not (dto.deferred_account_id == dto.recognition_account_id))
        (unprocessable same_accounts)
    validate_accounts_or_throw c (dto.deferred_account_id ∷ dto.recognition_account_id ∷ [])
    let total = sum (λ o. o.amount_minor) dto.occurrences
    guard (total == dto.total_amount_minor)
        (unprocessable (sum_mismatch total dto.total_amount_minor))
    repeated_or_go_on (repeated_date [] dto.occurrences)
    currency ← resolve_currency c
    id ← gets λ db. p.new_id (map (λ s. s.id) db.deferral_schedules)
    let schedule = new_schedule id currency dto
    modify λ db. record db { deferral_schedules = db.deferral_schedules ++ schedule ∷ [] }
    -- `values([])` throws.
    guard (not (is_empty dto.occurrences)) (internal no_values)
    rows ← gets λ db.
        number_recognitions (map (λ r. r.id) db.deferral_recognitions) id 0
          (sort_by_date dto.occurrences)
    modify λ db. record db { deferral_recognitions = db.deferral_recognitions ++ rows }
    let full : ScheduleWithRecognitions = record {
      schedule = schedule;
      recognitions = rows;
      remaining_balance_minor = ℤ.pos schedule.total_amount_minor;
    }
    audit (schedule_audit c AuditAction.create id none (some (schedule_full full)) ∷ [])
    pure full

  -- The update of the recognitions that are still to come.
  unfoldable pub cancel_recognition : DeferralRecognition → DeferralRecognition
  cancel_recognition r = record r { status = RecognitionStatus.cancelled; updated_at = p.now }

  unfoldable pub cancel_schedule : Option Text → DeferralSchedule → DeferralSchedule
  cancel_schedule reason s = record s {
    status = ScheduleStatus.cancelled;
    updated_at = p.now;
    cancelled_at = some p.now;
    cancelled_by = c.actor_user_id;
    cancellation_reason = reason;
  }

  unfoldable pub cancel : ℕ → Option Text → Tx ScheduleWithRecognitions
  unfolding cancel_recognition cancel_schedule recognitions_of with_remaining_balance
  cancel id reason = do
    found ← gets λ db. find (schedule_key c id) db.deferral_schedules
    existing ← or_throw found (not_found no_such_row)
    guard (is_active_schedule existing.status) (conflict schedule_not_active)
    modify λ db. record db {
      deferral_recognitions =
          update_where (pending_key c id) cancel_recognition db.deferral_recognitions;
    }
    modify λ db. record db {
      deferral_schedules =
          update_where (schedule_key c id) (cancel_schedule reason) db.deferral_schedules;
    }
    row ← gets λ db. find (schedule_key c id) db.deferral_schedules
    updated ← or_throw row (internal no_such_row)
    rows ← gets λ db. recognitions_of id db.deferral_recognitions
    let full = with_remaining_balance updated rows
    audit (
        schedule_audit c AuditAction.cancel id (some (schedule_row existing))
          (some (schedule_full full))
        ∷ [])
    pure full

module _ (c : Caller) where
  unfoldable pub find_schedule_or_throw : ℕ → Tx DeferralSchedule
  find_schedule_or_throw id = do
    row ← gets λ db. find (schedule_key c id) db.deferral_schedules
    or_throw row (not_found no_such_row)

  unfoldable pub find_one : ℕ → Tx ScheduleWithRecognitions
  unfolding find_schedule_or_throw recognitions_of with_remaining_balance
  find_one id = do
    schedule ← find_schedule_or_throw id
    rows ← gets λ db. recognitions_of id db.deferral_recognitions
    pure (with_remaining_balance schedule rows)
