-- ===== src/ScheduledReversals/Batch.antt =====
-- processDue(): what a batch counts.
use noryx_platform.ScheduledReversals.{
  ClaimOutcome, claim_and_execute_one, ProcessDueResult, comes_before, candidate_batch_size,
  due_key, candidates, count_outcome, process_each, process_due,
}
use noryx_platform.Common.{
  ℕ, ◌+◌, ◌≤◌, ◌≡◌, refl, List, [], ◌∷◌, map, arith, length, Option, or_else,
}
use noryx_platform.Common.Ordering.{take, order_by, length-take, length-map}
use noryx_platform.Common.Rows.{select}
use noryx_platform.Database.{Db, Caller, Platform, ScheduledReversal}
use noryx_platform.Database.Tx.{Result, ok, err, with_tenant}

abbrev pub Sums : ProcessDueResult → Type 0
Sums t = t.claimed ≡ t.executed_count + t.failed_count + t.cancelled_count

-- A batch that comes to its end counts each candidate at most once, and each one counted as
-- executed, failed or cancelled.
abbrev pub Counts : ℕ → Result ProcessDueResult → Type 0
Counts n (ok t) = Sums t × (t.claimed ≤ n)
Counts n (err e) = Unit

module _ (p : Platform) (c : Caller) where
  Counts-process_each :
      (ids : List ℕ) (tally : ProcessDueResult) (n : ℕ) (db : Db)
      → Sums tally
      → tally.claimed + length ids ≤ n
      → Counts n (process_each p c ids tally db).0
  unfolding process_each
  Counts-process_each [] tally n db h k = (h, ground arith)
  Counts-process_each (id ∷ ids) tally n db h k =
      go (with_tenant (claim_and_execute_one p c id) db).0
        λ o db'. next o db' (λ q r. Counts-process_each ids (count_outcome o tally) n db' q r)
    where
      next :
          (o : ClaimOutcome) (db' : Db)
          → (Sums (count_outcome o tally)
              → (count_outcome o tally).claimed + length ids ≤ n
              → Counts n (process_each p c ids (count_outcome o tally) db').0)
          → Counts n (process_each p c ids (count_outcome o tally) db').0
      next ClaimOutcome.skipped db' f = f h (ground arith)
      next ClaimOutcome.executed db' f = f (ground arith) (ground arith)
      next ClaimOutcome.failed db' f = f (ground arith) (ground arith)
      next ClaimOutcome.cancelled db' f = f (ground arith) (ground arith)

      go :
          (r : Result ClaimOutcome)
          → ((o : ClaimOutcome) (db' : Db)
              → Counts n (process_each p c ids (count_outcome o tally) db').0)
          → Counts n
              (elim r as (λ _. Result ProcessDueResult × Db) [
                | ok outcome ↦
                    process_each p c ids
                      (count_outcome outcome tally)
                      (with_tenant (claim_and_execute_one p c id) db).1
                | err e ↦ (err e, (with_tenant (claim_and_execute_one p c id) db).1)
              ]).0
      go (ok o) f = f o (with_tenant (claim_and_execute_one p c id) db).1
      go (err e) f = tt

  -- A batch of reversals that comes to its end has claimed as many as it has executed, failed and
  -- cancelled together, and at most 100.
  pub process_due_reversals-Counts :
      (as_of_date : Option ℕ) (db : Db)
      → Counts candidate_batch_size (process_due p c as_of_date db).0
  unfolding process_due candidates
  process_due_reversals-Counts as_of_date db =
      let due =
        order_by comes_before
          (select (due_key c (or_else as_of_date p.today)) db.scheduled_reversals) in
      Counts-process_each (map (λ r. r.id) (take 100 due))
        (record { claimed = 0; executed_count = 0; failed_count = 0; cancelled_count = 0 }) 100 db
        refl
        (omega
          (arith, length-map (λ (r : ScheduledReversal). r.id) (take 100 due), length-take 100 due))
