-- ===== src/ScheduledReversals/Claims.antt =====
-- A due reversal is handled once: claimAndExecuteOne() takes a row that waits, and leaves it
-- executed, failed or cancelled.
use noryx_platform.Common.{
  List, [], ◌∷◌, Bool-cases, ap, ◌∙◌, ℕ, ◌≡◌, refl, Bool, true, false, Option, none, some, arith,
  inl, inr, ◌⊎◌, if◌then◌else◌,
}
use noryx_platform.Common.Rows.{find-update_if, find, update_where, find_holds, find-update_where}
use noryx_platform.Database.Tx.{
  with_tenant, with_tenant-keeps, ok, err, Result, pure, Ensures, Ensures-map, Ensures-bind,
}
use noryx_platform.Database.{
  Db, Caller, Platform, Reason, period_closed, AccountingPeriod, EntryWithLines, ScheduledReversal,
  Failure, bad_request, not_found, conflict, unprocessable, internal,
}
use noryx_platform.Journal.{
  PeriodResolution, is_open, is_closed, is_not_found, resolve_period_for_date,
  complete_reversal_posting, lock_and_validate_original_for_reversal,
}
use noryx_platform.Books.Entries.{Completes, complete_shape}
use noryx_platform.ScheduledReversals.Transitions.{
  Ends, Settles, caught_same, RowsAfter, failed-Ends, cancelled-Ends, executed-Ends, fail_rows,
  cancel_rows, record_rows, validate_original_same,
}
use noryx_platform.ScheduledReversals.{
  is_waiting, reversal_key, ClaimOutcome, caught, already_reversed_text, reversal_memo, mark_failed,
  mark_cancelled, mark_executed, transition_to_failed, transition_to_cancelled, record_execution,
  execute_claimed, in_resolution, refused, with_original, execute_waiting, with_claim,
  claim_and_execute_one,
}

abbrev pub Claims : Caller → ℕ → Db → ClaimOutcome → Db → Type 0
Claims c id db o db' =
    ((o ≡ ClaimOutcome.skipped) × (db' ≡ db))
    ⊎ Settles c id db.scheduled_reversals db'.scheduled_reversals

module _ (p : Platform) (c : Caller) where
  module _ (id : ℕ) (claimed : ScheduledReversal) (db : Db)
      (found : find (reversal_key c id) db.scheduled_reversals ≡ some claimed)
      (waits : is_waiting claimed.status ≡ true) where
    here : claimed.id ≡ id
    here =
        let key : reversal_key c id claimed ≡ true =
          find_holds (reversal_key c id) db.scheduled_reversals claimed found in
        ground arith

    settles :
        (f : ScheduledReversal → ScheduledReversal) (db' : Db)
        → Ends f
        → RowsAfter p c claimed.id f db db'
        → Settles c id db.scheduled_reversals db'.scheduled_reversals
    settles f db' ends e = record {
      row = claimed;
      found = found;
      waited = waits;
      change = f;
      ends = ends;
      after = e ∙ ap (λ k. update_where (reversal_key c k) f db.scheduled_reversals) here;
    }

    fail-Claims :
        (reason : Reason)
        → Ensures (λ o db'. Claims c id db o db') (transition_to_failed p c claimed reason db)
    fail-Claims reason =
        Ensures-map _ (λ o db'. Claims c id db o db') (transition_to_failed p c claimed reason db)
          (λ o db' e. inr (settles (mark_failed p c reason) db' (failed-Ends p c reason) e))
          (fail_rows p c claimed reason db)

    refused-Claims :
        (e : Failure) → Ensures (λ o db'. Claims c id db o db') (refused p c claimed e db)
    unfolding refused
    refused-Claims (conflict reason) =
        Ensures-map _ (λ o db'. Claims c id db o db')
          (transition_to_cancelled p c claimed already_reversed_text db)
          (λ o db' e. inr (settles (mark_cancelled p c) db' (cancelled-Ends p c) e))
          (cancel_rows p c claimed already_reversed_text db)
    refused-Claims (not_found reason) = fail-Claims reason
    refused-Claims (unprocessable reason) = fail-Claims reason
    refused-Claims (bad_request reason) = fail-Claims reason
    refused-Claims (internal reason) = fail-Claims reason

    execute-Claims :
        (original : EntryWithLines) (period : AccountingPeriod)
        → Ensures (λ o db'. Claims c id db o db') (execute_claimed p c claimed original period db)
    unfolding execute_claimed
    execute-Claims original period =
        let memo = reversal_memo original in
        Ensures-bind (λ r db'. db'.scheduled_reversals ≡ db.scheduled_reversals)
          (λ o db'. Claims c id db o db')
          (complete_reversal_posting p c original period claimed.target_date memo)
          (record_execution p c claimed) db
          (Ensures-map (λ r db'. Completes p c db db' r original period claimed.target_date memo)
            (λ r db'. db'.scheduled_reversals ≡ db.scheduled_reversals) _
            (λ r db' g. g.reference.scheduled_reversals)
            (complete_shape p c db original period claimed.target_date memo))
          λ w db1 same.
            Ensures-map _ (λ o db'. Claims c id db o db') (record_execution p c claimed w db1)
              (λ o db' e. inr (
                settles (mark_executed p c w.entry.id) db' (executed-Ends p c w.entry.id) (
                  e
                  ∙ ap (update_where (reversal_key c claimed.id) (mark_executed p c w.entry.id))
                      same)))
              (record_rows p c claimed w db1)

    resolution-Claims :
        (original : EntryWithLines) (r : PeriodResolution)
        → Ensures (λ o db'. Claims c id db o db') (in_resolution p c claimed original r db)
    unfolding in_resolution
    resolution-Claims original is_not_found = inl (refl, refl)
    resolution-Claims original (is_closed period) =
        fail-Claims (period_closed period.code claimed.target_date)
    resolution-Claims original (is_open period) = execute-Claims original period

    original-Claims :
        (r : Result EntryWithLines)
        → Ensures (λ o db'. Claims c id db o db') (with_original p c claimed r db)
    unfolding with_original resolve_period_for_date
    original-Claims (ok original) = resolution-Claims original _
    original-Claims (err e) = refused-Claims e

    waiting-Claims : Ensures (λ o db'. Claims c id db o db') (execute_waiting p c claimed db)
    unfolding execute_waiting
    waiting-Claims =
        let check = lock_and_validate_original_for_reversal c claimed.original_journal_entry_id in
        Ensures-bind (λ r db'. db' ≡ db) (λ o db'. Claims c id db o db') (caught check)
          (with_original p c claimed) db
          (caught_same check db (validate_original_same p c claimed.original_journal_entry_id db))
          λ r db' e. rw e (original-Claims r)

  branch-Claims :
      (id : ℕ) (claimed : ScheduledReversal) (db : Db)
      → find (reversal_key c id) db.scheduled_reversals ≡ some claimed
      → (b : Bool) → is_waiting claimed.status ≡ b
      → Ensures
          (λ o db'. Claims c id db o db')
          ((if b then execute_waiting p c claimed else pure ClaimOutcome.skipped) db)
  branch-Claims id claimed db found true w = waiting-Claims id claimed db found w
  branch-Claims id claimed db found false w = inl (refl, refl)

  pub claim-Claims :
      (id : ℕ) (db : Db) → Ensures (λ o db'. Claims c id db o db') (claim_and_execute_one p c id db)
  unfolding claim_and_execute_one with_claim
  claim-Claims id db = go (find (reversal_key c id) db.scheduled_reversals) refl
    where
      go :
          (claimed : Option ScheduledReversal)
          → find (reversal_key c id) db.scheduled_reversals ≡ claimed
          → Ensures (λ o db'. Claims c id db o db') (with_claim p c claimed db)
      go none e = inl (refl, refl)
      go (some claimed) e = branch-Claims id claimed db e (is_waiting claimed.status) refl

-- The reversal is there and no longer waits.
record IsSettled (c : Caller) (id : ℕ) (rows : List ScheduledReversal) : Type 0 where
  row : ScheduledReversal
  found : find (reversal_key c id) rows ≡ some row
  done : is_waiting row.status ≡ false

-- What Ends keeps of a row is what a lookup reads.
key-Ends :
    (c : Caller) (id : ℕ) (f : ScheduledReversal → ScheduledReversal)
    → Ends f
    → (r : ScheduledReversal) → reversal_key c id (f r) ≡ reversal_key c id r
key-Ends c id f e r = rw (e.same_id r, e.same_tenant r, e.same_entity r) refl

Settles-IsSettled :
    (c : Caller) (id : ℕ) (rows rows' : List ScheduledReversal)
    → Settles c id rows rows'
    → IsSettled c id rows'
Settles-IsSettled c id rows rows' s = record {
  row = s.change s.row;
  found =
      ap (find (reversal_key c id)) s.after
      ∙ find-update_where (reversal_key c id) s.change rows s.row (key-Ends c id s.change s.ends)
          s.found;
  done = s.ends.off s.row;
}

-- A claim of any row keeps a settled one settled.
Settles-keeps :
    (c c' : Caller) (id id' : ℕ) (rows rows' : List ScheduledReversal)
    → IsSettled c id rows
    → Settles c' id' rows rows'
    → IsSettled c id rows'
Settles-keeps c c' id id' rows rows' h s = record {
  row = if reversal_key c' id' h.row then s.change h.row else h.row;
  found =
      ap (find (reversal_key c id)) s.after
      ∙ find-update_if (reversal_key c id) (reversal_key c' id') s.change rows h.row
          (key-Ends c id s.change s.ends) h.found;
  done = elim (Bool-cases (reversal_key c' id' h.row)) [
    | inl y ↦ rw y (s.ends.off h.row)
    | inr n ↦ rw n h.done
  ];
}

-- Claims one after another, each by a caller of its own and in a transaction of its own.
abbrev pub later_claims : List (Platform × Caller × ℕ) → Db → Db
later_claims [] db = db
later_claims (r ∷ runs) db =
    later_claims runs (with_tenant (claim_and_execute_one r.0 r.1 r.2) db).1

later_claims-IsSettled :
    (c : Caller) (id : ℕ) (runs : List (Platform × Caller × ℕ)) (db : Db)
    → IsSettled c id db.scheduled_reversals
    → IsSettled c id (later_claims runs db).scheduled_reversals
later_claims-IsSettled c id [] db h = h
later_claims-IsSettled c id (r ∷ runs) db h =
    later_claims-IsSettled c id runs (with_tenant (claim_and_execute_one r.0 r.1 r.2) db).1 (
      with_tenant-keeps (λ (db' : Db). IsSettled c id db'.scheduled_reversals)
        (claim_and_execute_one r.0 r.1 r.2) db h
        (Ensures-map (λ o db'. Claims r.1 r.2 db o db')
          (λ o db'. IsSettled c id db'.scheduled_reversals) (claim_and_execute_one r.0 r.1 r.2 db)
          (λ o db' k. elim k [
            | inl same ↦ rw same.1 h
            | inr s ↦ Settles-keeps c r.1 id r.2 db.scheduled_reversals db'.scheduled_reversals h s
          ])
          (claim-Claims r.0 r.1 r.2 db)))

skips :
    (p : Platform) (c : Caller) (id : ℕ) (db : Db)
    → IsSettled c id db.scheduled_reversals
    → claim_and_execute_one p c id db ≡ ok (ClaimOutcome.skipped, db)
unfolding claim_and_execute_one with_claim
skips p c id db h = rw (h.found, h.done) refl

-- A claim of a scheduled reversal that returns either skips it and changes nothing, or, after any
-- run of further claims, of any rows and by any callers, a claim of it by the same caller skips it
-- and changes nothing.
pub claimed_once :
    (p p' : Platform) (c : Caller) (id : ℕ) (runs : List (Platform × Caller × ℕ)) (db : Db)
    → Ensures
        (λ o db'.
          ((o ≡ ClaimOutcome.skipped) × (db' ≡ db))
          ⊎ (claim_and_execute_one p' c id (later_claims runs db')
              ≡ ok (ClaimOutcome.skipped, later_claims runs db')))
        (claim_and_execute_one p c id db)
claimed_once p p' c id runs db =
    Ensures-map (λ o db'. Claims c id db o db') _ (claim_and_execute_one p c id db)
      (λ o db' h. elim h [
        | inl same ↦ inl same
        | inr done ↦ inr (
            skips p' c id (later_claims runs db') (
              later_claims-IsSettled c id runs db'
                (Settles-IsSettled c id db.scheduled_reversals db'.scheduled_reversals done)))
      ])
      (claim-Claims p c id db)
