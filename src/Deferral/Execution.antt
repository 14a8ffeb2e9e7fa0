-- ===== src/Deferral/Execution.antt =====
-- What the execution of a recognition posts.
use noryx_platform.Database.{
  JournalEntry, RecognitionStatus, expense_recognition, revenue_recognition, Db, Caller, Platform,
  AccountingPeriod, EntryWithLines, DeferralSchedule, DeferralRecognition,
}
use mathlib.Core.Option.{some-injective}
use noryx_platform.Books.Appended.{find-appended}
use noryx_platform.Books.Outcomes.{IsTransfer, IsEntered, next-number}
use noryx_platform.Books.Shape.{drawn}
use noryx_platform.Common.{◌++◌, none, ℕ, ◌≡◌, refl, sym, ap, ◌∙◌, some, arith}
use noryx_platform.Common.Rows.{find, update_where, find-update_where}
use noryx_platform.Database.Tx.{Ensures, Ensures-map, Ensures-bind}
use noryx_platform.Journal.{
  journal_number_text, entry_key, new_entry, mark_posted, number_lines, post_system_generated_entry,
}
use noryx_platform.Books.Entries.{next_entry_id, Generates, generate_shape}
use noryx_platform.Deferral.Engine.{
  ClaimOutcome, recognition_key, mark_executed, execute_claimed, recognition_lines,
  recognition_memo, complete_schedule_if_done, update_recognition,
}
use noryx_platform.Deferral.Claims.{mark}

-- The account that a recognition charges, and the one that it credits.
abbrev pub charged : DeferralSchedule → ℕ
charged s = elim s.deferral_type [
  | expense_recognition ↦ s.recognition_account_id
  | revenue_recognition ↦ s.deferred_account_id
]

abbrev pub credited : DeferralSchedule → ℕ
credited s = elim s.deferral_type [
  | expense_recognition ↦ s.deferred_account_id
  | revenue_recognition ↦ s.recognition_account_id
]

-- A stored posted entry of the recognition's date, whose two lines are the ones that are added.
pub record Recognises (p : Platform) (c : Caller) (claimed : DeferralRecognition)
    (s : DeferralSchedule) (period : ℕ) (db db' : Db) (w : EntryWithLines) : Type 0 where
  pub entered : IsEntered p c period db db' w.entry
  pub dated : w.entry.transaction_date ≡ claimed.target_date
  pub lines : IsTransfer w.entry.id (credited s) (charged s) claimed.amount_minor w.lines
  pub added : db'.journal_lines ≡ db.journal_lines ++ w.lines

-- The stored row of the recognition: executed now, by this entry.
pub record IsExecuted (p : Platform) (c : Caller) (claimed : DeferralRecognition) (entry : ℕ)
    (db' : Db) : Type 0 where
  pub row : DeferralRecognition
  pub found : find (recognition_key c claimed.id) db'.deferral_recognitions ≡ some row
  pub status : row.status ≡ RecognitionStatus.executed
  pub entry_id : row.resulting_journal_entry_id ≡ some entry
  pub at : row.executed_at ≡ some p.now
  pub same_amount : row.amount_minor ≡ claimed.amount_minor
  pub same_date : row.target_date ≡ claimed.target_date

pub record Executes (p : Platform) (c : Caller) (claimed : DeferralRecognition)
    (s : DeferralSchedule) (period : ℕ) (db db' : Db) (o : ClaimOutcome) : Type 0 where
  pub outcome : o ≡ ClaimOutcome.executed
  pub entry : EntryWithLines
  pub posting : Recognises p c claimed s period db db' entry
  pub execution : IsExecuted p c claimed entry.entry.id db'

module _ (p : Platform) (c : Caller) where
  pub record Marks (claimed : DeferralRecognition) (w : EntryWithLines) (db db' : Db)
      (o : ClaimOutcome) : Type 0 where
    pub outcome : o ≡ ClaimOutcome.executed
    pub rows :
        db'.deferral_recognitions
        ≡ update_where
            (recognition_key c claimed.id)
            (mark_executed p c w.entry.id)
            db.deferral_recognitions
    pub entries : db'.journal_entries ≡ db.journal_entries
    pub lines : db'.journal_lines ≡ db.journal_lines

  pub mark_shape :
      (claimed : DeferralRecognition) (s : DeferralSchedule) (w : EntryWithLines) (db : Db)
      → Ensures (λ o db'. Marks claimed w db db' o) (mark p c claimed s w db)
  unfolding mark update_recognition complete_schedule_if_done
  mark_shape claimed s w db = ground arith

  recognition_lines-IsTransfer :
      (s : DeferralSchedule) (amount id : ℕ)
      → IsTransfer id
          (credited s)
          (charged s)
          amount
          (number_lines c id 0 (recognition_lines s amount))
  unfolding recognition_lines number_lines
  recognition_lines-IsTransfer s amount id =
      elim s.deferral_type
        as (λ t.
          IsTransfer id
            (elim t [
              | expense_recognition ↦ s.deferred_account_id
              | revenue_recognition ↦ s.recognition_account_id
            ])
            (elim t [
              | expense_recognition ↦ s.recognition_account_id
              | revenue_recognition ↦ s.deferred_account_id
            ])
            amount
            (number_lines c id 0 (recognition_lines (record s { deferral_type = t }) amount))) [
              | expense_recognition ↦ record {
                debit = _;
                credit = _;
                two = refl;
                owned = (refl, refl);
                accounts = (refl, refl);
                debited = (refl, refl);
                credited = (refl, refl);
              }
              | revenue_recognition ↦ record {
                debit = _;
                credit = _;
                two = refl;
                owned = (refl, refl);
                accounts = (refl, refl);
                debited = (refl, refl);
                credited = (refl, refl);
              }
            ]

  generated :
      (claimed : DeferralRecognition) (s : DeferralSchedule) (period : AccountingPeriod)
      (db db1 : Db) (w : EntryWithLines)
      → Generates p c db db1 w
          (recognition_lines s claimed.amount_minor)
          period
          claimed.target_date
          (recognition_memo claimed s)
          s.currency_code
      → Recognises p c claimed s period.id db db1 w
  unfolding new_entry mark_posted
  generated claimed s period db db1 w g =
      let memo = recognition_memo claimed s in
      let same : w.entry
          ≡ mark_posted p c (journal_number_text (drawn c db).0) period.id (
              new_entry p c (next_entry_id p db) claimed.target_date s.currency_code (some memo)
                none) =
        some-injective _ _ (
          sym g.entry
          ∙ ap (find (entry_key c (next_entry_id p db))) g.entries
          ∙ find-appended p c db claimed.target_date s.currency_code memo none period) in
      record {
        entered = record {
          stored =
              ap (λ k. find (entry_key c k) db1.journal_entries) (ap (λ e. e.id) same) ∙ g.entry;
          is_posted = ap (λ e. e.status) same;
          number =
              ap (λ e. e.journal_number) same
              ∙ ap (λ k. some (journal_number_text k)) (next-number c db);
          in_period = ap (λ e. e.period_id) same;
          posted_now = ap (λ e. e.posted_at) same;
          posted_by_caller = ap (λ e. e.posted_by) same;
        };
        dated = ap (λ e. e.transaction_date) same;
        lines =
            rw (g.rows, ap (λ (e : JournalEntry). e.id) same)
              (recognition_lines-IsTransfer s claimed.amount_minor (next_entry_id p db));
        added = g.lines ∙ ap (λ t. db.journal_lines ++ t) (sym g.rows);
      }

  -- If its id finds the claimed row, an execution of it that returns answers "executed". It has
  -- stored one posted entry of the target date, in the period, with the number after the last one
  -- of the scope, and added the entry's two lines: the recognition's amount as a debit of the
  -- account that its schedule charges, and as a credit of the other. The stored row is executed,
  -- names that entry, and keeps its amount and date.
  pub execution_posts :
      (claimed : DeferralRecognition) (s : DeferralSchedule) (period : AccountingPeriod) (db : Db)
      → find (recognition_key c claimed.id) db.deferral_recognitions ≡ some claimed
      → Ensures
          (λ o db'. Executes p c claimed s period.id db db' o)
          (execute_claimed p c claimed s period db)
  unfolding execute_claimed mark mark_executed
  execution_posts claimed s period db there =
      let lines = recognition_lines s claimed.amount_minor in
      let memo = recognition_memo claimed s in
      Ensures-bind
        (λ w db1.
          Recognises p c claimed s period.id db db1 w
          × (db1.deferral_recognitions ≡ db.deferral_recognitions))
        _ (post_system_generated_entry p c lines period claimed.target_date memo s.currency_code)
        (mark p c claimed s) db
        (Ensures-map
          (λ w db1. Generates p c db db1 w lines period claimed.target_date memo s.currency_code) _
          _ (λ w db1 g. (generated claimed s period db db1 w g, g.reference.deferral_recognitions))
          (generate_shape p c db lines period claimed.target_date memo s.currency_code))
        λ w db1 posting.
          Ensures-map (λ o db'. Marks claimed w db1 db' o)
            (λ o db'. Executes p c claimed s period.id db db' o) (mark p c claimed s w db1)
            (λ o db' m. record {
              outcome = m.outcome;
              entry = w;
              posting = record {
                entered = record {
                  stored = ap (find (entry_key c w.entry.id)) m.entries ∙ posting.0.entered.stored;
                  is_posted = posting.0.entered.is_posted;
                  number = posting.0.entered.number;
                  in_period = posting.0.entered.in_period;
                  posted_now = posting.0.entered.posted_now;
                  posted_by_caller = posting.0.entered.posted_by_caller;
                };
                dated = posting.0.dated;
                lines = posting.0.lines;
                added = m.lines ∙ posting.0.added;
              };
              execution = record {
                row = mark_executed p c w.entry.id claimed;
                found =
                    ap (find (recognition_key c claimed.id)) m.rows
                    ∙ find-update_where (recognition_key c claimed.id)
                        (mark_executed p c w.entry.id) db1.deferral_recognitions claimed (λ r. refl)
                        (ap (find (recognition_key c claimed.id)) posting.1 ∙ there);
                status = refl;
                entry_id = refl;
                at = refl;
                same_amount = refl;
                same_date = refl;
              };
            })
            (mark_shape claimed s w db1)
