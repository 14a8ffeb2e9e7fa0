-- ===== src/GeneralLedger/Reconcile.antt =====
-- The trial balance reconciles: the check at the end of getTrialBalance() never fails.
use noryx_platform.Common.{
  ℕ, ◌+◌, ◌≡◌, ◌⊎◌, inl, inr, refl, Bool, not, ◌&&◌, Option, none, some, List, [], ◌∷◌, map, arith,
  ◌==◌, leb, Bool-cases, Option-cases, sum, All, or_else,
}
use noryx_platform.Common.Decimal.{Text}
use noryx_platform.Common.Rows.{select, find}
use noryx_platform.Common.Ordering.{order_by}
use noryx_platform.Database.{Db, Caller, Platform, Account, JournalLine, not_found, no_such_row}
use noryx_platform.Database.Tx.{Result, ok, err}
use noryx_platform.Books.DoubleEntry.{IsSound}
use noryx_platform.Periods.{period_key}
use noryx_platform.GeneralLedger.Lines.{
  ledger_lines, account_scope, account_total, resolve_period_in_scope,
}
use noryx_platform.GeneralLedger.TrialBalance.{
  TrialBalanceQueryDto, RawRow, TrialBalanceRow, TrialBalanceResult, AsOf, trial_row, trial_rows,
  total_debits, total_credits, raw_row, raw_rows, resolve_as_of, report, get_trial_balance,
}
use noryx_platform.GeneralLedger.Joins.{sum-map}
use noryx_platform.GeneralLedger.Posted.{IsReportable, debit, credit, lines_balance, accounts-total}

-- The columns show the difference of the totals on one side.
rows_balance :
    (z : Bool) (rs : List RawRow)
    → total_debits (trial_rows z rs) + sum (λ (r : RawRow). r.raw_credit) rs
      ≡ total_credits (trial_rows z rs) + sum (λ (r : RawRow). r.raw_debit) rs
unfolding trial_rows trial_row
rows_balance z [] = refl
rows_balance z (r ∷ rs) = ground (arith, rows_balance z rs)

-- A row shows the difference of the totals of its account, on one side only.
pub record IsNet (lines : List JournalLine) (r : TrialBalanceRow) : Type 0 where
  pub net :
      r.debit_minor + account_total credit r.account_id lines
      ≡ r.credit_minor + account_total debit r.account_id lines
  pub one_sided : (r.debit_minor ≡ 0) ⊎ (r.credit_minor ≡ 0)

trial_row-IsNet :
    (lines : List JournalLine) (a : Account) → IsNet lines (trial_row (raw_row lines a))
unfolding trial_row raw_row
trial_row-IsNet lines a = record { net = omega arith; one_sided = ground arith }

trial_rows-IsNet :
    (z : Bool) (lines : List JournalLine) (accounts : List Account)
    → All (IsNet lines) (trial_rows z (map (raw_row lines) accounts))
unfolding trial_rows
trial_rows-IsNet z lines [] = tt
trial_rows-IsNet z lines (a ∷ accounts) =
    let row = raw_row lines a in
    elim (Bool-cases ((row.raw_debit == row.raw_credit) && not z)) [
      | inl t ↦ rw t (trial_rows-IsNet z lines accounts)
      | inr t ↦ rw t (trial_row-IsNet lines a, trial_rows-IsNet z lines accounts)
    ]

-- A report that reads the lines up to its date, and whose totals are equal.
pub record Reconciles (c : Caller) (db : Db) (x : TrialBalanceResult) : Type 0 where
  pub rows : All (IsNet (ledger_lines c (λ d. leb d x.meta.as_of) db)) x.rows
  pub debits : x.meta.total_debit_minor ≡ total_debits x.rows
  pub credits : x.meta.total_credit_minor ≡ total_credits x.rows
  pub equal : x.meta.total_debit_minor ≡ x.meta.total_credit_minor

module _ (c : Caller) (db : Db) where
  -- What getTrialBalance() answers, or why it does not.
  abbrev pub Reports : TrialBalanceQueryDto → Result (TrialBalanceResult × Db) → Type 0
  Reports q (ok (x, db')) = (db' ≡ db) × Reconciles c db x
  Reports q (err e) =
      (e ≡ not_found no_such_row)
      × ((id : ℕ) × (q.period_id ≡ some id) × (find (period_key c id) db.accounting_periods ≡ none))

module _ (collates : Text → Text → Bool) (p : Platform) (c : Caller) (db : Db) (h : IsSound db)
    (r : IsReportable c db) where
  totals_equal :
      (z : Bool) (date : ℕ)
      → total_debits (trial_rows z (raw_rows collates p c date db))
        ≡ total_credits (trial_rows z (raw_rows collates p c date db))
  unfolding raw_rows raw_row
  totals_equal z date =
      let dated : ℕ → Bool = λ d. leb d date in
      let before : Account → Account → Bool = λ (a b : Account). collates a.code b.code in
      let accounts = order_by before (select (account_scope c) db.chart_of_accounts) in
      let row = raw_row (ledger_lines c dated db) in
      omega (
        arith,
        rows_balance z (map row accounts),
        sum-map (λ (x : RawRow). x.raw_debit) row accounts,
        sum-map (λ (x : RawRow). x.raw_credit) row accounts,
        accounts-total c dated db r debit before,
        accounts-total c dated db r credit before,
        lines_balance c dated db r h,
      )

  rows-IsNet :
      (z : Bool) (date : ℕ)
      → All
          (IsNet (ledger_lines c (λ d. leb d date) db))
          (trial_rows z (raw_rows collates p c date db))
  unfolding raw_rows
  rows-IsNet z date = trial_rows-IsNet z (ledger_lines c (λ d. leb d date) db) _

  report_lem : (q : TrialBalanceQueryDto) (at : AsOf) → Reports c db q (report collates p c q at db)
  unfolding report
  report_lem q at =
      let e = totals_equal q.include_zero_balance at.date in
      let nets = rows-IsNet q.include_zero_balance at.date in ground (arith, e, nets)

  -- A query with this period.
  abbrev query : Bool → Option ℕ → Option ℕ → TrialBalanceQueryDto
  query z as_of period_id = record {
    as_of = as_of;
    period_id = period_id;
    include_zero_balance = z;
  }

  query_reconciles :
      (z : Bool) (as_of period_id : Option ℕ)
      → Reports c db
          (query z as_of period_id)
          (get_trial_balance collates p c (query z as_of period_id) db)
  unfolding get_trial_balance resolve_as_of resolve_period_in_scope
  query_reconciles z as_of none =
      report_lem (query z as_of none) (record { date = or_else as_of p.today; period_id = none })
  query_reconciles z as_of (some id) =
      elim (Option-cases (find (period_key c id) db.accounting_periods)) [
        | inl n ↦ rw (Reports, n) (refl, (id, refl, n))
        | inr (period, n) ↦
            rw (Reports, n)
              (report_lem (query z as_of (some id))
                (record { date = period.end_date; period_id = some period.id }))
      ]

  -- In sound books whose posted lines are on accounts of their entity, getTrialBalance() answers
  -- with totals that are equal and are those of its rows, each row with the difference of debit
  -- and credit of its account on one side, unless a period is named that is not there.
  pub get_trial_balance_reconciles :
      (q : TrialBalanceQueryDto) → Reports c db q (get_trial_balance collates p c q db)
  get_trial_balance_reconciles q = query_reconciles q.include_zero_balance q.as_of q.period_id
