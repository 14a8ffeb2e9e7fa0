-- ===== src/GeneralLedger/TrialBalance.antt =====
-- getTrialBalance().
use noryx_platform.Common.{
  ℕ, ◌-◌, Bool, not, ◌&&◌, Option, none, some, List, [], ◌∷◌, map, leb, ◌==◌, sum, length, or_else,
  if◌then◌else◌,
}
use noryx_platform.Common.Decimal.{Text}
use noryx_platform.Common.Rows.{select}
use noryx_platform.Common.Ordering.{order_by}
use noryx_platform.Database.{
  Db, Caller, Platform, Account, AccountType, JournalLine, internal, unreconciled,
}
use noryx_platform.Database.Tx.{Tx, pure, gets, guard, ◌>>=◌, ◌>>◌}
use noryx_platform.GeneralLedger.Lines.{
  NormalBalance, sign_for, ledger_lines, account_scope, account_total, resolve_period_in_scope,
}

-- dto/trial-balance-query.dto.ts, whose validator refuses asOf together with periodId.
pub record TrialBalanceQueryDto : Type 0 where
  pub as_of : Option ℕ
  pub period_id : Option ℕ
  pub include_zero_balance : Bool

-- A row of the query: an account with its totals.
pub record RawRow : Type 0 where
  pub account : Account
  pub raw_debit : ℕ
  pub raw_credit : ℕ

pub record TrialBalanceRow : Type 0 where
  pub account_id : ℕ
  pub account_code : Text
  pub account_name : Text
  pub account_type : AccountType
  pub normal_balance : NormalBalance
  pub is_active : Bool
  pub debit_minor : ℕ
  pub credit_minor : ℕ

pub record TrialBalanceMetaResult : Type 0 where
  pub as_of : ℕ
  pub period_id : Option ℕ
  pub legal_entity_id : ℕ
  pub total_debit_minor : ℕ
  pub total_credit_minor : ℕ
  pub account_count : ℕ
  pub include_zero_balance : Bool

pub record TrialBalanceResult : Type 0 where
  pub rows : List TrialBalanceRow
  pub meta : TrialBalanceMetaResult

-- The date of the report, and the period that it was taken from.
pub record AsOf : Type 0 where
  pub date : ℕ
  pub period_id : Option ℕ

-- `netMinor` is `rawDebit - rawCredit`: what is above zero of it is the subtraction of ℕ, and what
-- is below zero the subtraction the other way round.
unfoldable pub trial_row : RawRow → TrialBalanceRow
unfolding sign_for
trial_row r = record {
  account_id = r.account.id;
  account_code = r.account.code;
  account_name = r.account.name;
  account_type = r.account.account_type;
  normal_balance = sign_for r.account.account_type;
  is_active = r.account.is_active;
  debit_minor = r.raw_debit - r.raw_credit;
  credit_minor = r.raw_credit - r.raw_debit;
}

-- The loop. Its two totals are the sums over the rows that it keeps.
unfoldable pub trial_rows : Bool → List RawRow → List TrialBalanceRow
unfolding trial_row
trial_rows include_zero [] = []
trial_rows include_zero (r ∷ rest) =
    let rows = trial_rows include_zero rest in
    if (r.raw_debit == r.raw_credit) && not include_zero then rows else trial_row r ∷ rows

abbrev pub total_debits : List TrialBalanceRow → ℕ
total_debits rows = sum (λ (r : TrialBalanceRow). r.debit_minor) rows

abbrev pub total_credits : List TrialBalanceRow → ℕ
total_credits rows = sum (λ (r : TrialBalanceRow). r.credit_minor) rows

-- `GROUP BY` of the left join: a row for each account, with the totals of its lines.
unfoldable pub raw_row : List JournalLine → Account → RawRow
unfolding account_total
raw_row lines a = record {
  account = a;
  raw_debit = account_total (λ l. l.debit_minor) a.id lines;
  raw_credit = account_total (λ l. l.credit_minor) a.id lines;
}

-- `collates` is the order of codes that the database has.
module _ (collates : Text → Text → Bool) (p : Platform) (c : Caller) where
  unfoldable pub raw_rows : ℕ → Db → List RawRow
  unfolding raw_row ledger_lines
  raw_rows date db = map (raw_row (ledger_lines c (λ d. leb d date) db)) (
      order_by (λ (a b : Account). collates a.code b.code)
        (select (account_scope c) db.chart_of_accounts))

  unfoldable pub resolve_as_of : TrialBalanceQueryDto → Tx AsOf
  unfolding resolve_period_in_scope
  resolve_as_of q = elim q.period_id [
    | some id ↦ do
      period ← resolve_period_in_scope c id
      pure (record { date = period.end_date; period_id = some period.id })
    | none ↦ pure (record { date = or_else q.as_of p.today; period_id = none })
  ]

  -- The rest of the report, for its date.
  unfoldable pub report : TrialBalanceQueryDto → AsOf → Tx TrialBalanceResult
  unfolding raw_rows trial_rows
  report q at = do
    raw ← gets λ db. raw_rows at.date db
    let rows = trial_rows q.include_zero_balance raw
    guard (total_debits rows == total_credits rows)
        (internal (unreconciled (total_debits rows) (total_credits rows)))
    pure (record {
      rows = rows;
      meta = record {
        as_of = at.date;
        period_id = at.period_id;
        legal_entity_id = c.legal_entity_id;
        total_debit_minor = total_debits rows;
        total_credit_minor = total_credits rows;
        account_count = length rows;
        include_zero_balance = q.include_zero_balance;
      };
    })

  unfoldable pub get_trial_balance : TrialBalanceQueryDto → Tx TrialBalanceResult
  unfolding resolve_as_of report
  get_trial_balance q = do at ← resolve_as_of q; report q at
