-- ===== src/Periods.antt =====
-- services/sphere-finance/src/accounting-periods/accounting-periods.service.ts: the class
-- AccountingPeriodsService. `Calendar` proves that the periods of an entity never overlap.
pub mod Calendar
pub mod Refusals
use noryx_platform.Common.{
  ℕ, ◌≤◌, Bool, true, false, not, ◌&&◌, ◌||◌, Option, none, some, List, [], ◌∷◌, ◌++◌, map, leb,
  ltb, ◌==◌, if◌then◌else◌,
}
use noryx_platform.Common.Decimal.{Text}
use noryx_platform.Common.Rows.{select, find, exists, update_where}
use noryx_platform.Database.{
  Db, Caller, Platform, AuditLog, AuditAction, EntityType, Snapshot, period_row, not_found,
  conflict, no_such_row, period_overlaps, period_conflicts, period_already_closed, internal,
  constraint_violated, AccountingPeriod, PeriodStatus, open_period, closed,
}
use noryx_platform.Database.Tx.{Tx, pure, throw, gets, or_throw, guard, modify, audit, ◌>>=◌, ◌>>◌}
use noryx_platform.Journal.{in_scope}

-- dto/create-accounting-period.dto.ts, whose validator asks for an end after the start.
pub record CreateAccountingPeriodDto : Type 0 where
  pub code : Text
  pub start_date : ℕ
  pub end_date : ℕ

text_eq : Text → Text → Bool
text_eq [] [] = true
text_eq [] (b ∷ t) = false
text_eq (a ∷ s) [] = false
text_eq (a ∷ s) (b ∷ t) = (a == b) && text_eq s t

module _ (c : Caller) where
  abbrev pub overlaps : ℕ → ℕ → AccountingPeriod → Bool
  overlaps start end_ q =
      in_scope c q.tenant_id q.legal_entity_id && leb q.start_date end_ && leb start q.end_date

  -- The unique constraint on (tenant, legal entity, code), and
  -- drizzle/constraints/001_period_overlap_exclusion.sql: the ranges are closed at both ends.
  pub violates : CreateAccountingPeriodDto → AccountingPeriod → Bool
  unfolding text_eq
  violates dto q =
      (in_scope c q.tenant_id q.legal_entity_id && text_eq q.code dto.code)
      || overlaps dto.start_date dto.end_date q

  abbrev pub period_key : ℕ → AccountingPeriod → Bool
  period_key id q = (q.id == id) && in_scope c q.tenant_id q.legal_entity_id

  abbrev is_open_status : PeriodStatus → Bool
  is_open_status open_period = true
  is_open_status closed = false

  abbrev pub open_key : ℕ → AccountingPeriod → Bool
  open_key id q = period_key id q && is_open_status q.status

  abbrev pub period_audit : AuditAction → ℕ → Option Snapshot → Option Snapshot → AuditLog
  period_audit action id before after = record {
    tenant_id = c.tenant_id;
    legal_entity_id = c.legal_entity_id;
    actor_user_id = c.actor_user_id;
    action = action;
    entity_type = EntityType.accounting_period;
    entity_id = id;
    before_state = before;
    after_state = after;
  }

  abbrev overlap_or_throw : Option AccountingPeriod → Tx (Unit {0})
  overlap_or_throw none = pure tt
  overlap_or_throw (some q) = throw (conflict (period_overlaps q.code))

module _ (p : Platform) (c : Caller) where
  pub new_period : ℕ → CreateAccountingPeriodDto → AccountingPeriod
  new_period id dto = record {
    id = id;
    tenant_id = c.tenant_id;
    legal_entity_id = c.legal_entity_id;
    code = dto.code;
    start_date = dto.start_date;
    end_date = dto.end_date;
    status = open_period;
    closed_at = none;
    closed_by = none;
    created_at = p.now;
    updated_at = p.now;
  }

  -- `insert(accountingPeriods)`, with its CHECK constraint and the catch of the codes 23P01 and 23505.
  pub insert_period : CreateAccountingPeriodDto → Tx AccountingPeriod
  unfolding violates new_period
  insert_period dto = do
    -- CHECK accounting_periods_end_after_start, whose error is not caught.
    guard (ltb dto.start_date dto.end_date) (internal constraint_violated)
    clash ← gets λ db. exists (violates c dto) db.accounting_periods
    guard (not clash) (conflict period_conflicts)
    id ← gets λ db. p.new_id (map (λ q. q.id) db.accounting_periods)
    let row = new_period id dto
    modify λ db. record db { accounting_periods = db.accounting_periods ++ row ∷ [] }
    pure row

  unfoldable pub create : CreateAccountingPeriodDto → Tx AccountingPeriod
  unfolding insert_period
  create dto = do
    overlapping ← gets λ db. find (overlaps c dto.start_date dto.end_date) db.accounting_periods
    overlap_or_throw c overlapping
    created ← insert_period dto
    audit (period_audit c AuditAction.create created.id none (some (period_row created)) ∷ [])
    pure created

  pub list : Tx (List AccountingPeriod)
  list = gets λ db. select (λ q. in_scope c q.tenant_id q.legal_entity_id) db.accounting_periods

  pub mark_closed : AccountingPeriod → AccountingPeriod
  mark_closed q = record q {
    status = closed;
    closed_at = some p.now;
    closed_by = c.actor_user_id;
    updated_at = p.now;
  }

  -- The follow-up read tells a period that is not there from one that is closed. It has no
  -- tenant predicate.
  pub refuse_close : ℕ → Option AccountingPeriod → Tx AccountingPeriod
  refuse_close id none = throw (not_found no_such_row)
  refuse_close id (some q) = throw (conflict (period_already_closed q.code))

  pub finish_close : ℕ → Option AccountingPeriod → Tx AccountingPeriod
  unfolding refuse_close mark_closed
  finish_close id none = do
    existing ← gets λ db.
        find (λ (q : AccountingPeriod). (q.id == id) && (q.legal_entity_id == c.legal_entity_id))
          db.accounting_periods
    refuse_close id existing
  finish_close id (some q) = do
    let updated = mark_closed q
    modify λ db. record db {
      accounting_periods = update_where (open_key c id) mark_closed db.accounting_periods;
    }
    let before = record updated { status = open_period; closed_at = none; closed_by = none }
    audit (
        period_audit c AuditAction.close id (some (period_row before)) (some (period_row updated))
        ∷ [])
    pure updated

  -- The update repeats the status test in its predicate: it matches an open period or nothing.
  unfoldable pub close : ℕ → Tx AccountingPeriod
  unfolding finish_close
  close id = do
    matched ← gets λ db. find (open_key c id) db.accounting_periods
    finish_close id matched
