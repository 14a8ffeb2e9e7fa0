-- ===== src/Deferral/Batch.antt =====
-- processDue(): which recognitions a batch takes, in which order, and what it counts.
use mathlib.Core.Logic.{◌↔◌}
use noryx_platform.Common.{
  Bool-cases, inl, inr, ◌⊎◌, true, sym, contains, ◌∙◌, ap, ◌&&◌, ◌==◌, ℕ, ◌+◌, ◌≤◌, ◌≡◌, refl, List,
  [], ◌∷◌, map, arith, length, Option, or_else,
}
use noryx_platform.Deferral.Schedules.{is_scheduled}
use noryx_platform.Database.{RecognitionStatus, Db, Caller, Platform, DeferralRecognition}
use noryx_platform.Deferral.Engine.{ClaimOutcome, claim_and_execute_one}
use noryx_platform.Deferral.Processing.{
  ProcessDueResult, comes_before, candidate_batch_size, due_key, candidates, count_outcome,
  process_each, process_due,
}
use noryx_platform.Common.Ordering.{
  take, order_by, length-take, take-all, length-map, length-order_by, contains-order_by,
  contains-select,
}
use noryx_platform.Common.Rows.{exists, select}
use noryx_platform.Database.Tx.{Result, ok, err, with_tenant}

-- A batch that comes to its end counts each candidate at most once, and each one counted as
-- either executed or failed.
abbrev pub Counts : ℕ → Result ProcessDueResult → Type 0
Counts n (ok t) = (t.claimed ≡ t.executed_count + t.failed_count) × (t.claimed ≤ n)
Counts n (err e) = Unit

module _ (p : Platform) (c : Caller) where
  Counts-process_each :
      (ids : List ℕ) (tally : ProcessDueResult) (n : ℕ) (db : Db)
      → tally.claimed ≡ tally.executed_count + tally.failed_count
      → tally.claimed + length ids ≤ n
      → Counts n (process_each p c ids tally db).0
  unfolding process_each
  Counts-process_each [] tally n db h k = (h, ground arith)
  Counts-process_each (id ∷ ids) tally n db h k =
      go (with_tenant (claim_and_execute_one p c id) db).0
        λ o db'. next o db' (λ q r. Counts-process_each ids (count_outcome o tally) n db' q r)
    where
      next :
          (o : ClaimOutcome) (db' : Db)
          → ((count_outcome o tally).claimed
                ≡ (count_outcome o tally).executed_count + (count_outcome o tally).failed_count
              → (count_outcome o tally).claimed + length ids ≤ n
              → Counts n (process_each p c ids (count_outcome o tally) db').0)
          → Counts n (process_each p c ids (count_outcome o tally) db').0
      next ClaimOutcome.skipped db' f = f h (ground arith)
      next ClaimOutcome.executed db' f = f (ground arith) (ground arith)
      next ClaimOutcome.failed db' f = f (ground arith) (ground arith)

      go :
          (r : Result ClaimOutcome)
          → ((o : ClaimOutcome) (db' : Db)
              → Counts n (process_each p c ids (count_outcome o tally) db').0)
          → Counts n
              (elim r as (λ _. Result ProcessDueResult × Db) [
                | ok outcome ↦
                    process_each p c ids
                      (count_outcome outcome tally)
                      (with_tenant (claim_and_execute_one p c id) db).1
                | err e ↦ (err e, (with_tenant (claim_and_execute_one p c id) db).1)
              ]).0
      go (ok o) f = f o (with_tenant (claim_and_execute_one p c id) db).1
      go (err e) f = tt

  -- A batch that comes to its end has claimed as many recognitions as it has executed and failed
  -- together, and at most 100.
  pub process_due-Counts :
      (as_of_date : Option ℕ) (db : Db)
      → Counts candidate_batch_size (process_due p c as_of_date db).0
  unfolding process_due candidates
  process_due-Counts as_of_date db =
      let due =
        order_by comes_before
          (select (due_key c (or_else as_of_date p.today)) db.deferral_recognitions) in
      Counts-process_each (map (λ r. r.id) (take 100 due))
        (record { claimed = 0; executed_count = 0; failed_count = 0 }) 100 db refl
        (omega (
          arith,
          length-map (λ (r : DeferralRecognition). r.id) (take 100 due),
          length-take 100 due,
        ))

-- A recognition of the caller's entity that waits, with a target date up to the cutoff.
pub record IsDue (c : Caller) (cutoff : ℕ) (r : DeferralRecognition) : Type 0 where
  pub of_tenant : r.tenant_id ≡ c.tenant_id
  pub of_entity : r.legal_entity_id ≡ c.legal_entity_id
  pub waits : r.status ≡ RecognitionStatus.scheduled
  pub on_time : r.target_date ≤ cutoff

-- One of the rows has this id and is due.
abbrev pub DueRow : Caller → ℕ → ℕ → List DeferralRecognition → Type 0
DueRow c cutoff a [] = ⊥
DueRow c cutoff a (r ∷ rs) = ((r.id ≡ a) × IsDue c cutoff r) ⊎ DueRow c cutoff a rs

module _ (c : Caller) (cutoff : ℕ) where
  status_scheduled :
      (s : RecognitionStatus) → is_scheduled s ≡ true → s ≡ RecognitionStatus.scheduled
  status_scheduled RecognitionStatus.scheduled h = refl
  status_scheduled RecognitionStatus.executed h = ground arith
  status_scheduled RecognitionStatus.failed h = ground arith
  status_scheduled RecognitionStatus.cancelled h = ground arith

  due_key-IsDue : (r : DeferralRecognition) → due_key c cutoff r ≡ true → IsDue c cutoff r
  due_key-IsDue r h = record {
    of_tenant = ground arith;
    of_entity = ground arith;
    waits = status_scheduled r.status (ground arith);
    on_time = ground arith;
  }

  IsDue-due_key : (r : DeferralRecognition) → IsDue c cutoff r → due_key c cutoff r ≡ true
  IsDue-due_key r d =
      let on : is_scheduled r.status ≡ true = ap is_scheduled d.waits in
      let a = d.of_tenant in let b = d.of_entity in let t = d.on_time in ground (arith, on, a, b, t)

  exists-DueRow :
      (a : ℕ) (rows : List DeferralRecognition)
      → exists (λ r. (r.id == a) && due_key c cutoff r) rows ≡ true
      → DueRow c cutoff a rows
  exists-DueRow a [] h = ground arith
  exists-DueRow a (r ∷ rs) h = elim (Bool-cases ((r.id == a) && due_key c cutoff r)) [
    | inl y ↦ inl (ground arith, due_key-IsDue r (ground arith))
    | inr n ↦ inr (exists-DueRow a rs (ground arith))
  ]

  DueRow-exists :
      (a : ℕ) (rows : List DeferralRecognition)
      → DueRow c cutoff a rows
      → exists (λ r. (r.id == a) && due_key c cutoff r) rows ≡ true
  DueRow-exists a [] h = absurd h
  DueRow-exists a (r ∷ rs) (inl (e, d)) = let due = IsDue-due_key r d in ground (arith, e, due)
  DueRow-exists a (r ∷ rs) (inr later) = ground (arith, DueRow-exists a rs later)

  candidates_due :
      (a : ℕ) (rows : List DeferralRecognition)
      → length (select (due_key c cutoff) rows) ≤ candidate_batch_size
      → contains a (candidates c cutoff rows) ≡ exists (λ r. (r.id == a) && due_key c cutoff r) rows
  unfolding candidates
  candidates_due a rows few =
      let due = select (due_key c cutoff) rows in
      let all : take 100 (order_by comes_before due) ≡ order_by comes_before due =
        take-all 100 (order_by comes_before due)
          (omega (arith, length-order_by comes_before due, few)) in
      ap (λ rs. contains a (map (λ (x : DeferralRecognition). x.id) rs)) all
      ∙ contains-order_by comes_before (λ (x : DeferralRecognition). x.id) a due
      ∙ contains-select (λ (x : DeferralRecognition). x.id) a (due_key c cutoff) rows

  -- When the query finds at most 100 rows, the batch takes the id of every row of the caller's
  -- tenant and entity that is scheduled with a target date up to the cutoff, and no other id.
  pub candidates_exact :
      (a : ℕ) (rows : List DeferralRecognition)
      → length (select (due_key c cutoff) rows) ≤ 100
      → contains a (candidates c cutoff rows) ≡ true ↔ DueRow c cutoff a rows
  candidates_exact a rows few = (
    λ h. exists-DueRow a rows (sym (candidates_due a rows few) ∙ h),
    λ d. candidates_due a rows few ∙ DueRow-exists a rows d,
  )
