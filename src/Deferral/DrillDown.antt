-- ===== src/Deferral/DrillDown.antt =====
-- The way from a journal entry back to the recognition that posted it.
use noryx_platform.Common.{ap, ◌∙◌, false, some, ◌≡◌, Bool, true, List, [], ◌∷◌, arith}
use noryx_platform.Database.{
  Db, Caller, Platform, AccountingPeriod, DeferralSchedule, DeferralRecognition, not_found,
  no_such_row,
}
use noryx_platform.Database.Tx.{ok, or_throw, Ensures, Ensures-map, Ensures-bind}
use noryx_platform.Journal.{post_system_generated_entry}
use noryx_platform.Books.Entries.{next_entry_id, Generates, generate_shape}
use noryx_platform.Books.Tables.{id-find}
use noryx_platform.Deferral.Engine.{
  recognition_key, mark_executed, execute_claimed, recognition_lines, recognition_memo,
}
use noryx_platform.Deferral.Queries.{resulting_key, find_recognition_by_journal_entry_id}
use noryx_platform.Deferral.Claims.{mark}
use noryx_platform.Deferral.Execution.{Marks, mark_shape}
use noryx_platform.Common.Rows.{find, exists, update_where}

-- An update that makes a query see the rows that it changes, where it saw none before.
find-update_first :
    {A : Type 0} (q p : A → Bool) (f : A → A) (xs : List A) (a : A)
    → exists q xs ≡ false
    → ((x : A) → p x ≡ true → q (f x) ≡ true)
    → find p xs ≡ some a
    → find q (update_where p f xs) ≡ some (f a)
find-update_first q p f [] a none_there k h = absurd (cc)
find-update_first q p f (x ∷ xs) a none_there k h =
    ground (arith, k x, find-update_first q p f xs a)

-- If its id finds the claimed row, and no row in scope names the id that the next journal entry
-- takes, then after an execution that returns the entry with that id leads back to this row, now
-- executed.
pub execute_claimed-find_recognition :
    (p : Platform) (c : Caller) (claimed : DeferralRecognition) (s : DeferralSchedule)
    (period : AccountingPeriod) (db : Db)
    → find (recognition_key c claimed.id) db.deferral_recognitions ≡ some claimed
    → exists (resulting_key c (next_entry_id p db)) db.deferral_recognitions ≡ false
    → Ensures
        (λ o db'.
          find_recognition_by_journal_entry_id c (next_entry_id p db) db'
          ≡ ok (mark_executed p c (next_entry_id p db) claimed, db'))
        (execute_claimed p c claimed s period db)
unfolding execute_claimed mark mark_executed find_recognition_by_journal_entry_id
execute_claimed-find_recognition p c claimed s period db there none_there =
    let lines = recognition_lines s claimed.amount_minor in
    let memo = recognition_memo claimed s in
    let next = next_entry_id p db in
    Ensures-bind
      (λ w db1. (w.entry.id ≡ next) × (db1.deferral_recognitions ≡ db.deferral_recognitions)) _
      (post_system_generated_entry p c lines period claimed.target_date memo s.currency_code)
      (mark p c claimed s) db
      (Ensures-map
        (λ w db1. Generates p c db db1 w lines period claimed.target_date memo s.currency_code) _ _
        (λ w db1 g.
          (id-find c next db1.journal_entries w.entry g.entry, g.reference.deferral_recognitions))
        (generate_shape p c db lines period claimed.target_date memo s.currency_code))
      λ w db1 posting.
        Ensures-map (λ o db'. Marks p c claimed w db1 db' o)
          (λ o db'.
            find_recognition_by_journal_entry_id c next db'
            ≡ ok (mark_executed p c next claimed, db'))
          (mark p c claimed s w db1)
          (λ o db' m.
            let row : find (resulting_key c next) db'.deferral_recognitions
                ≡ some (mark_executed p c next claimed) =
              ap (find (resulting_key c next)) m.rows
              ∙ ap
                  (λ k. find (resulting_key c next) (
                    update_where (recognition_key c claimed.id) (mark_executed p c k)
                      db1.deferral_recognitions))
                  posting.0
              ∙ ap
                  (λ rs.
                    find (resulting_key c next)
                      (update_where (recognition_key c claimed.id) (mark_executed p c next) rs))
                  posting.1
              ∙ find-update_first (resulting_key c next) (recognition_key c claimed.id)
                  (mark_executed p c next) db.deferral_recognitions claimed none_there
                  (λ x t. ground arith) there in
            ap (λ r. or_throw r (not_found no_such_row) db') row)
          (mark_shape p c claimed s w db1)
