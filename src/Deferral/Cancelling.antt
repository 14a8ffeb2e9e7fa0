-- ===== src/Deferral/Cancelling.antt =====
-- What cancel() leaves of a schedule.
use mathlib.Core.Option.{some-injective}
use noryx_platform.Common.{
  some, Option, ap, sym, ◌∙◌, false, inr, inl, Bool-cases, ℕ, ◌≡◌, refl, List, [], ◌∷◌, arith,
}
use noryx_platform.Deferral.Schedules.{
  cancel_schedule, schedule_key, cancel, cancel_recognition, pending_key, executed_sum, of_schedule,
}
use noryx_platform.Common.Rows.{find, find-update_where, select, exists, update_where}
use noryx_platform.Database.{
  DeferralSchedule, Db, Caller, Platform, ScheduleStatus, ScheduleWithRecognitions,
  DeferralRecognition,
}
use noryx_platform.Database.Tx.{Ensures, Ensures-map}
use noryx_platform.Common.Decimal.{Text}

module _ (p : Platform) (c : Caller) where
  pending_gone :
      (id : ℕ) (rs : List DeferralRecognition)
      → exists (pending_key c id) (update_where (pending_key c id) (cancel_recognition p c) rs)
        ≡ false
  unfolding cancel_recognition
  pending_gone id [] = refl
  pending_gone id (r ∷ rs) = elim (Bool-cases (pending_key c id r)) [
    | inl t ↦ ground (arith, pending_gone id rs)
    | inr n ↦ ground (arith, pending_gone id rs)
  ]

  executed_kept :
      (id j : ℕ) (rs : List DeferralRecognition)
      → executed_sum
          (select (of_schedule j) (update_where (pending_key c id) (cancel_recognition p c) rs))
        ≡ executed_sum (select (of_schedule j) rs)
  unfolding cancel_recognition
  executed_kept id j [] = refl
  executed_kept id j (r ∷ rs) = elim (Bool-cases (pending_key c id r)) [
    | inl t ↦ ground (arith, executed_kept id j rs)
    | inr n ↦ ground (arith, executed_kept id j rs)
  ]

  record Cancels (id : ℕ) (reason : Option Text) (db db' : Db) (r : ScheduleWithRecognitions)
      : Type 0 where
    before : DeferralSchedule
    found : find (schedule_key c id) db.deferral_schedules ≡ some before
    row :
        find
          (schedule_key c id)
          (update_where (schedule_key c id) (cancel_schedule p c reason) db.deferral_schedules)
        ≡ some r.schedule
    rows :
        db'.deferral_recognitions
        ≡ update_where (pending_key c id) (cancel_recognition p c) db.deferral_recognitions
    entries : db'.journal_entries ≡ db.journal_entries
    lines : db'.journal_lines ≡ db.journal_lines

  cancel_shape :
      (id : ℕ) (reason : Option Text) (db : Db)
      → Ensures (λ r db'. Cancels id reason db db' r) (cancel p c id reason db)
  unfolding cancel
  cancel_shape id reason db = ground arith

  -- A successful cancel() of a schedule leaves it cancelled with none of its recognitions
  -- waiting, keeps the amount recognised so far, and does not touch the journal.
  pub cancel_leaves_nothing_due :
      (id : ℕ) (reason : Option Text) (db : Db)
      → Ensures
          (λ r db'.
            (r.schedule.status ≡ ScheduleStatus.cancelled)
            × (exists (pending_key c id) db'.deferral_recognitions ≡ false)
            × (executed_sum (select (of_schedule id) db'.deferral_recognitions)
                ≡ executed_sum (select (of_schedule id) db.deferral_recognitions))
            × (db'.journal_entries ≡ db.journal_entries)
            × (db'.journal_lines ≡ db.journal_lines))
          (cancel p c id reason db)
  unfolding cancel_schedule
  cancel_leaves_nothing_due id reason db =
      Ensures-map (λ r db'. Cancels id reason db db' r) _ (cancel p c id reason db)
        (λ r db' s.
          let row : some r.schedule ≡ some (cancel_schedule p c reason s.before) =
            sym s.row
            ∙ find-update_where (schedule_key c id) (cancel_schedule p c reason)
                db.deferral_schedules s.before (λ x. refl) s.found in
          let status : r.schedule.status ≡ ScheduleStatus.cancelled =
            ap (λ x. x.status)
              (some-injective r.schedule (cancel_schedule p c reason s.before) row) in
          (
            status,
            ap (exists (pending_key c id)) s.rows ∙ pending_gone id db.deferral_recognitions,
            ap (λ rs. executed_sum (select (of_schedule id) rs)) s.rows
                ∙ executed_kept id id db.deferral_recognitions,
            s.entries,
            s.lines,
          ))
        (cancel_shape id reason db)
