-- ===== src/ScheduledReversals/Transitions.antt =====
-- What the steps that end a wait leave of a row: executed, failed or cancelled.
use noryx_platform.Common.{List, is_some, ℕ, ◌≡◌, refl, true, false, none, some, arith}
use noryx_platform.Common.Rows.{find, update_where}
use noryx_platform.Database.{
  Db, Caller, Platform, Reason, EntryWithLines, ScheduledReversal, ScheduledReversalStatus,
}
use noryx_platform.Database.Tx.{ok, err, Result, Tx, Ensures, Ensures-map}
use noryx_platform.Journal.{lock_and_validate_original_for_reversal}
use noryx_platform.Books.Entries.{Accepts, accept_shape}
use noryx_platform.ScheduledReversals.{
  is_waiting, reversal_key, caught, mark_failed, mark_cancelled, mark_executed,
  transition_to_failed, transition_to_cancelled, record_execution,
}

-- The fields that go with each status: the constraint
-- scheduled_reversals_terminal_fields_consistent.
abbrev pub TerminalFields : ScheduledReversal → Type 0
TerminalFields r = elim r.status [
  | ScheduledReversalStatus.scheduled ↦
      (r.resulting_reversal_journal_entry_id ≡ none)
      × (r.failure_reason ≡ none)
      × (r.executed_at ≡ none)
  | ScheduledReversalStatus.executed ↦
      (is_some r.resulting_reversal_journal_entry_id ≡ true)
      × (r.failure_reason ≡ none)
      × (is_some r.executed_at ≡ true)
  | ScheduledReversalStatus.failed ↦
      (r.resulting_reversal_journal_entry_id ≡ none)
      × (is_some r.failure_reason ≡ true)
      × (is_some r.executed_at ≡ true)
  | ScheduledReversalStatus.cancelled ↦
      (r.resulting_reversal_journal_entry_id ≡ none) × (r.executed_at ≡ none)
]

-- A change of a row that ends its wait.
pub record Ends (f : ScheduledReversal → ScheduledReversal) : Type 0 where
  pub same_id : (r : ScheduledReversal) → (f r).id ≡ r.id
  pub same_tenant : (r : ScheduledReversal) → (f r).tenant_id ≡ r.tenant_id
  pub same_entity : (r : ScheduledReversal) → (f r).legal_entity_id ≡ r.legal_entity_id
  pub off : (r : ScheduledReversal) → is_waiting (f r).status ≡ false
  pub fields :
      (r : ScheduledReversal)
      → r.status ≡ ScheduledReversalStatus.scheduled
      → TerminalFields r
      → TerminalFields (f r)

-- A row that waited is changed so.
pub record Settles (c : Caller) (id : ℕ) (rows rows' : List ScheduledReversal) : Type 0 where
  pub row : ScheduledReversal
  pub found : find (reversal_key c id) rows ≡ some row
  pub waited : is_waiting row.status ≡ true
  pub change : ScheduledReversal → ScheduledReversal
  pub ends : Ends change
  pub after : rows' ≡ update_where (reversal_key c id) change rows

-- What is caught only read the database.
pub caught_same :
    {A : Type 0} (m : Tx A) (db : Db)
    → Ensures (λ a db'. db' ≡ db) (m db)
    → Ensures (λ r db'. db' ≡ db) (caught m db)
caught_same {A = A} m db e = go (m db) refl e
  where
    go :
        (r : Result (A × Db))
        → m db ≡ r
        → Ensures (λ a db'. db' ≡ db) r
        → Ensures (λ a db'. db' ≡ db) (caught m db)
    go (ok (a, db')) q x = rw (q, caught) x
    go (err f) q x = rw (q, caught) refl

module _ (p : Platform) (c : Caller) where
  -- The rows after an update of one of them.
  abbrev pub RowsAfter : ℕ → (ScheduledReversal → ScheduledReversal) → Db → Db → Type 0
  RowsAfter id f db db' =
      db'.scheduled_reversals ≡ update_where (reversal_key c id) f db.scheduled_reversals

  pub failed-Ends : (reason : Reason) → Ends (mark_failed p c reason)
  unfolding mark_failed
  failed-Ends reason = record {
    same_id = λ r. refl;
    same_tenant = λ r. refl;
    same_entity = λ r. refl;
    off = λ r. refl;
    fields = λ r w t. ((rw w at t).0, refl, refl);
  }

  pub cancelled-Ends : Ends (mark_cancelled p c)
  unfolding mark_cancelled
  cancelled-Ends = record {
    same_id = λ r. refl;
    same_tenant = λ r. refl;
    same_entity = λ r. refl;
    off = λ r. refl;
    fields = λ r w t. let t' = rw w at t in (t'.0, t'.2);
  }

  pub executed-Ends : (id : ℕ) → Ends (mark_executed p c id)
  unfolding mark_executed
  executed-Ends id = record {
    same_id = λ r. refl;
    same_tenant = λ r. refl;
    same_entity = λ r. refl;
    off = λ r. refl;
    fields = λ r w t. (refl, (rw w at t).1, refl);
  }

  pub fail_rows :
      (claimed : ScheduledReversal) (reason : Reason) (db : Db)
      → Ensures
          (λ o db'. RowsAfter claimed.id (mark_failed p c reason) db db')
          (transition_to_failed p c claimed reason db)
  unfolding transition_to_failed
  fail_rows claimed reason db = ground arith

  pub cancel_rows :
      (claimed : ScheduledReversal) (text : _) (db : Db)
      → Ensures
          (λ o db'. RowsAfter claimed.id (mark_cancelled p c) db db')
          (transition_to_cancelled p c claimed text db)
  unfolding transition_to_cancelled
  cancel_rows claimed text db = ground arith

  pub record_rows :
      (claimed : ScheduledReversal) (w : EntryWithLines) (db : Db)
      → Ensures
          (λ o db'. RowsAfter claimed.id (mark_executed p c w.entry.id) db db')
          (record_execution p c claimed w db)
  unfolding record_execution
  record_rows claimed w db = ground arith

  pub validate_original_same :
      (id : ℕ) (db : Db)
      → Ensures (λ r db'. db' ≡ db) (lock_and_validate_original_for_reversal c id db)
  validate_original_same id db =
      Ensures-map (λ r db'. Accepts c id db db' r) (λ r db'. db' ≡ db) _ (λ r db' a. a.unchanged)
        (accept_shape c id db)
