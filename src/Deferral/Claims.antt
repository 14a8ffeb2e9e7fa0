-- ===== src/Deferral/Claims.antt =====
-- A due recognition is handled once: claimAndExecuteOne() takes a row that waits, and leaves it
-- executed or failed.
use noryx_platform.Common.{
  Bool-cases, ℕ, ◌≡◌, refl, ap, ◌∙◌, Bool, true, false, Option, none, some, List, [], ◌∷◌, arith,
  ◌==◌, inl, inr, ◌⊎◌, if◌then◌else◌,
}
use noryx_platform.Common.Rows.{find-update_if, find, update_where, find_holds, find-update_where}
use noryx_platform.Database.Tx.{
  with_tenant, with_tenant-keeps, ok, err, Result, Tx, pure, audit, ◌>>=◌, ◌>>◌, Ensures,
  Ensures-map, Ensures-bind,
}
use noryx_platform.Database.{
  Db, Caller, Platform, AuditAction, Reason, no_such_row, period_closed, AccountingPeriod,
  EntryWithLines, DeferralSchedule, DeferralRecognition,
}
use noryx_platform.Journal.{
  PeriodResolution, is_open, is_closed, is_not_found, resolve_period_for_date,
  post_system_generated_entry,
}
use noryx_platform.Books.Entries.{Generates, generate_shape}
use noryx_platform.Deferral.Schedules.{is_scheduled, validate_accounts_or_throw}
use noryx_platform.Deferral.Engine.{
  ClaimOutcome, recognition_key, recognition_audit, mark_failed, mark_executed, update_recognition,
  complete_schedule_if_done, transition_to_failed, recognition_lines, recognition_memo,
  execute_claimed, attempt, after_check, in_resolution, with_schedule, with_claim,
  claim_and_execute_one,
}

-- The recognition is there and no longer waits.
record IsHandled (c : Caller) (id : ℕ) (db : Db) : Type 0 where
  row : DeferralRecognition
  found : find (recognition_key c id) db.deferral_recognitions ≡ some row
  done : is_scheduled row.status ≡ false

-- A change that ends the wait of a row, and that no lookup of a row notices.
record Ends (f : DeferralRecognition → DeferralRecognition) : Type 0 where
  key :
      (c : Caller) (id : ℕ) (r : DeferralRecognition)
      → recognition_key c id (f r) ≡ recognition_key c id r
  off : (r : DeferralRecognition) → is_scheduled (f r).status ≡ false

-- The row of this id, which is there, is changed so.
record Settles (c : Caller) (id : ℕ) (db db' : Db) : Type 0 where
  row : DeferralRecognition
  found : find (recognition_key c id) db.deferral_recognitions ≡ some row
  change : DeferralRecognition → DeferralRecognition
  ends : Ends change
  after :
      db'.deferral_recognitions
      ≡ update_where (recognition_key c id) change db.deferral_recognitions

abbrev Claims : Caller → ℕ → Db → ClaimOutcome → Db → Type 0
Claims c id db o db' = ((o ≡ ClaimOutcome.skipped) × (db' ≡ db)) ⊎ Settles c id db db'

module _ (p : Platform) (c : Caller) where
  fails :
      (claimed : DeferralRecognition) (reason : Reason) (db : Db)
      → Ensures
          (λ o db'.
            db'.deferral_recognitions
            ≡ update_where
                (recognition_key c claimed.id)
                (mark_failed p c reason)
                db.deferral_recognitions)
          (transition_to_failed p c claimed reason db)
  unfolding transition_to_failed
  fails claimed reason db = ground arith

  -- What `execute_claimed` does after the entry is posted.
  unfoldable pub mark : DeferralRecognition → DeferralSchedule → EntryWithLines → Tx ClaimOutcome
  mark claimed schedule entry = do
    row ← update_recognition p c claimed.id (mark_executed p c entry.entry.id)
    audit (recognition_audit c AuditAction.execute claimed.id (some claimed) row ∷ [])
    complete_schedule_if_done p c schedule.id
    pure ClaimOutcome.executed

  marks :
      (claimed : DeferralRecognition) (schedule : DeferralSchedule) (entry : EntryWithLines)
      (db : Db)
      → Ensures
          (λ o db'.
            db'.deferral_recognitions
            ≡ update_where
                (recognition_key c claimed.id)
                (mark_executed p c entry.entry.id)
                db.deferral_recognitions)
          (mark claimed schedule entry db)
  unfolding mark update_recognition complete_schedule_if_done
  marks claimed schedule entry db = ground arith

  failed-Ends : (reason : Reason) → Ends (mark_failed p c reason)
  unfolding mark_failed
  failed-Ends reason = record { key = λ c' id r. refl; off = λ r. refl }

  executed-Ends : (entry : ℕ) → Ends (mark_executed p c entry)
  unfolding mark_executed
  executed-Ends entry = record { key = λ c' id r. refl; off = λ r. refl }

  -- The check of the accounts reads only.
  pub attempt_same :
      (m : Tx (Unit {0})) (db : Db)
      → Ensures (λ u db'. db' ≡ db) (m db)
      → Ensures (λ u db'. db' ≡ db) (attempt m db)
  attempt_same m db e = go (m db) refl e
    where
      go :
          (r : Result (Unit {0} × Db))
          → m db ≡ r
          → Ensures (λ u db'. db' ≡ db) r
          → Ensures (λ u db'. db' ≡ db) (attempt m db)
      go (ok (u, db')) q x = rw (q, attempt) x
      go (err e) q x = rw (q, attempt) refl

  pub validate_same :
      (ids : List ℕ) (db : Db) → Ensures (λ u db'. db' ≡ db) (validate_accounts_or_throw c ids db)
  unfolding validate_accounts_or_throw
  validate_same ids db = ground arith

  module _ (id : ℕ) (claimed : DeferralRecognition) (db : Db)
      (found : find (recognition_key c id) db.deferral_recognitions ≡ some claimed) where
    here : claimed.id ≡ id
    here =
        let key : recognition_key c id claimed ≡ true =
          find_holds (recognition_key c id) db.deferral_recognitions claimed found in
        ground arith

    settles :
        (f : DeferralRecognition → DeferralRecognition) (db' : Db)
        → Ends f
        → db'.deferral_recognitions
          ≡ update_where (recognition_key c claimed.id) f db.deferral_recognitions
        → Settles c id db db'
    settles f db' ends e = record {
      row = claimed;
      found = found;
      change = f;
      ends = ends;
      after = e ∙ ap (λ k. update_where (recognition_key c k) f db.deferral_recognitions) here;
    }

    fail-Claims :
        (reason : Reason)
        → Ensures (λ o db'. Claims c id db o db') (transition_to_failed p c claimed reason db)
    unfolding mark_failed
    fail-Claims reason =
        Ensures-map _ (λ o db'. Claims c id db o db') (transition_to_failed p c claimed reason db)
          (λ o db' e. inr (settles (mark_failed p c reason) db' (failed-Ends reason) e))
          (fails claimed reason db)

    execute-Claims :
        (s : DeferralSchedule) (period : AccountingPeriod)
        → Ensures (λ o db'. Claims c id db o db') (execute_claimed p c claimed s period db)
    unfolding execute_claimed mark mark_executed
    execute-Claims s period =
        let lines = recognition_lines s claimed.amount_minor in
        let memo = recognition_memo claimed s in
        Ensures-bind (λ r db'. db'.deferral_recognitions ≡ db.deferral_recognitions)
          (λ o db'. Claims c id db o db')
          (post_system_generated_entry p c lines period claimed.target_date memo s.currency_code)
          (mark claimed s) db
          (Ensures-map
            (λ r db'. Generates p c db db' r lines period claimed.target_date memo s.currency_code)
            (λ r db'. db'.deferral_recognitions ≡ db.deferral_recognitions) _
            (λ r db' g. g.reference.deferral_recognitions)
            (generate_shape p c db lines period claimed.target_date memo s.currency_code))
          λ entry db1 same.
            Ensures-map _ (λ o db'. Claims c id db o db') (mark claimed s entry db1)
              (λ o db' e. inr (
                settles (mark_executed p c entry.entry.id) db' (executed-Ends entry.entry.id) (
                  e
                  ∙ ap
                      (update_where (recognition_key c claimed.id)
                        (mark_executed p c entry.entry.id))
                      same)))
              (marks claimed s entry db1)

    check-Claims :
        (s : DeferralSchedule) (period : AccountingPeriod) (refused : Option Reason)
        → Ensures (λ o db'. Claims c id db o db') (after_check p c claimed s period refused db)
    unfolding after_check
    check-Claims s period none = execute-Claims s period
    check-Claims s period (some reason) = fail-Claims reason

    resolution-Claims :
        (s : DeferralSchedule) (r : PeriodResolution)
        → Ensures (λ o db'. Claims c id db o db') (in_resolution p c claimed s r db)
    unfolding in_resolution
    resolution-Claims s is_not_found = inl (refl, refl)
    resolution-Claims s (is_closed period) =
        fail-Claims (period_closed period.code claimed.target_date)
    resolution-Claims s (is_open period) =
        let ids = s.deferred_account_id ∷ s.recognition_account_id ∷ [] in
        Ensures-bind (λ u db'. db' ≡ db) (λ o db'. Claims c id db o db')
          (attempt (validate_accounts_or_throw c ids)) (after_check p c claimed s period) db
          (attempt_same (validate_accounts_or_throw c ids) db (validate_same ids db))
          λ refused db' e. rw e (check-Claims s period refused)

    schedule-Claims :
        (s : Option DeferralSchedule)
        → Ensures (λ o db'. Claims c id db o db') (with_schedule p c claimed s db)
    unfolding with_schedule resolve_period_for_date
    schedule-Claims none = fail-Claims no_such_row
    schedule-Claims (some s) = resolution-Claims s _

    branch-Claims :
        (s : Option DeferralSchedule) (b : Bool)
        → Ensures
            (λ o db'. Claims c id db o db')
            ((if b then with_schedule p c claimed s else pure ClaimOutcome.skipped) db)
    branch-Claims s true = schedule-Claims s
    branch-Claims s false = inl (refl, refl)

  claim-Claims :
      (id : ℕ) (db : Db) → Ensures (λ o db'. Claims c id db o db') (claim_and_execute_one p c id db)
  unfolding claim_and_execute_one with_claim
  claim-Claims id db = go (find (recognition_key c id) db.deferral_recognitions) refl
    where
      go :
          (claimed : Option DeferralRecognition)
          → find (recognition_key c id) db.deferral_recognitions ≡ claimed
          → Ensures (λ o db'. Claims c id db o db') (with_claim p c claimed db)
      go none e = inl (refl, refl)
      go (some claimed) e =
          branch-Claims id claimed db e
            (find (λ (s : DeferralSchedule). s.id == claimed.schedule_id) db.deferral_schedules)
            (is_scheduled claimed.status)

Settles-IsHandled : (c : Caller) (id : ℕ) (db db' : Db) → Settles c id db db' → IsHandled c id db'
Settles-IsHandled c id db db' s = record {
  row = s.change s.row;
  found =
      ap (find (recognition_key c id)) s.after
      ∙ find-update_where (recognition_key c id) s.change db.deferral_recognitions s.row
          (s.ends.key c id) s.found;
  done = s.ends.off s.row;
}

-- A claim of any row keeps a handled one handled.
Settles-keeps :
    (c c' : Caller) (id id' : ℕ) (db db' : Db)
    → IsHandled c id db
    → Settles c' id' db db'
    → IsHandled c id db'
Settles-keeps c c' id id' db db' h s = record {
  row = if recognition_key c' id' h.row then s.change h.row else h.row;
  found =
      ap (find (recognition_key c id)) s.after
      ∙ find-update_if (recognition_key c id) (recognition_key c' id') s.change
          db.deferral_recognitions h.row (s.ends.key c id) h.found;
  done = elim (Bool-cases (recognition_key c' id' h.row)) [
    | inl y ↦ rw y (s.ends.off h.row)
    | inr n ↦ rw n h.done
  ];
}

-- Claims one after another, each by a caller of its own and in a transaction of its own.
abbrev pub later_claims : List (Platform × Caller × ℕ) → Db → Db
later_claims [] db = db
later_claims (r ∷ runs) db =
    later_claims runs (with_tenant (claim_and_execute_one r.0 r.1 r.2) db).1

later_claims-IsHandled :
    (c : Caller) (id : ℕ) (runs : List (Platform × Caller × ℕ)) (db : Db)
    → IsHandled c id db
    → IsHandled c id (later_claims runs db)
later_claims-IsHandled c id [] db h = h
later_claims-IsHandled c id (r ∷ runs) db h =
    later_claims-IsHandled c id runs (with_tenant (claim_and_execute_one r.0 r.1 r.2) db).1 (
      with_tenant-keeps (λ (db' : Db). IsHandled c id db') (claim_and_execute_one r.0 r.1 r.2) db h
        (Ensures-map (λ o db'. Claims r.1 r.2 db o db') (λ o db'. IsHandled c id db')
          (claim_and_execute_one r.0 r.1 r.2 db)
          (λ o db' k. elim k [
            | inl same ↦ rw same.1 h
            | inr s ↦ Settles-keeps c r.1 id r.2 db db' h s
          ])
          (claim-Claims r.0 r.1 r.2 db)))

skips :
    (p : Platform) (c : Caller) (id : ℕ) (db : Db)
    → IsHandled c id db
    → claim_and_execute_one p c id db ≡ ok (ClaimOutcome.skipped, db)
unfolding claim_and_execute_one with_claim
skips p c id db h = rw (h.found, h.done) refl

-- A claim that returns either skips the recognition and changes nothing, or, after any run of
-- further claims, of any rows and by any callers, a claim of it by the same caller skips it and
-- changes nothing.
pub claim_once :
    (p p' : Platform) (c : Caller) (id : ℕ) (runs : List (Platform × Caller × ℕ)) (db : Db)
    → Ensures
        (λ o db'.
          ((o ≡ ClaimOutcome.skipped) × (db' ≡ db))
          ⊎ (claim_and_execute_one p' c id (later_claims runs db')
              ≡ ok (ClaimOutcome.skipped, later_claims runs db')))
        (claim_and_execute_one p c id db)
claim_once p p' c id runs db =
    Ensures-map (λ o db'. Claims c id db o db') _ (claim_and_execute_one p c id db)
      (λ o db' h. elim h [
        | inl same ↦ inl same
        | inr done ↦ inr (
            skips p' c id (later_claims runs db')
              (later_claims-IsHandled c id runs db' (Settles-IsHandled c id db db' done)))
      ])
      (claim-Claims p c id db)
