-- ===== src/GeneralLedger/Balance.antt =====
-- getBalance().
use noryx_platform.Common.{
  ◌==◌, ℕ, Bool, true, ◌&&◌, ◌||◌, Option, none, some, ltb, leb, or_else, is_some, if◌then◌else◌,
}
use noryx_platform.Common.Decimal.{Text}
use noryx_platform.Common.Int.{ℤ, pos, sub_ℕ, ◌+ℤ◌}
use noryx_platform.Common.Rows.{find}
use noryx_platform.Database.{Db, Caller, Platform, Account, AccountType, not_found, no_such_row}
use noryx_platform.Database.Tx.{Tx, pure, gets, or_throw, ◌>>=◌}
use noryx_platform.GeneralLedger.Lines.{
  NormalBalance, debit_normal, credit_normal, sign_for, ledger_lines, account_scope, account_total,
  resolve_period_in_scope,
}

-- dto/account-balance-query.dto.ts, whose validators let through one kind of query at a time.
pub record AccountBalanceQueryDto : Type 0 where
  pub as_of : Option ℕ
  pub date_from : Option ℕ
  pub date_to : Option ℕ
  pub period_id : Option ℕ

pub record AccountBalanceResult : Type 0 where
  pub account_id : ℕ
  pub account_code : Text
  pub account_name : Text
  pub account_type : AccountType
  pub normal_balance : NormalBalance
  pub effective_date_from : Option ℕ
  pub effective_date_to : ℕ
  pub opening_balance_minor : ℤ
  pub period_movement_minor : ℤ
  pub closing_balance_minor : ℤ
  pub total_debit_minor : ℕ
  pub total_credit_minor : ℕ

pub record RawTotals : Type 0 where
  pub raw_debit : ℕ
  pub raw_credit : ℕ

-- `effectiveDateFrom` and `effectiveDateTo`.
pub record DateRange : Type 0 where
  pub date_from : Option ℕ
  pub date_to : ℕ

-- `sign * netDelta`
unfoldable pub signed : NormalBalance → RawTotals → ℤ
signed debit_normal t = sub_ℕ t.raw_debit t.raw_credit
signed credit_normal t = sub_ℕ t.raw_credit t.raw_debit

abbrev pub is_from : Option ℕ → ℕ → Bool
is_from none d = true
is_from (some from) d = leb from d

module _ (c : Caller) where
  -- The totals of an account over the lines with a condition on their date.
  unfoldable pub raw_totals : (ℕ → Bool) → ℕ → Db → RawTotals
  unfolding account_total ledger_lines
  raw_totals dated id db = record {
    raw_debit = account_total (λ l. l.debit_minor) id (ledger_lines c dated db);
    raw_credit = account_total (λ l. l.credit_minor) id (ledger_lines c dated db);
  }

  unfoldable pub raw_totals_before : ℕ → ℕ → Db → RawTotals
  unfolding raw_totals
  raw_totals_before id date db = raw_totals (λ d. ltb d date) id db

  unfoldable pub raw_totals_within_range : ℕ → DateRange → Db → RawTotals
  unfolding raw_totals
  raw_totals_within_range id range db =
      raw_totals (λ d. is_from range.date_from d && leb d range.date_to) id db

  abbrev pub account_key : ℕ → Account → Bool
  account_key id a = (a.id == id) && account_scope c a

  unfoldable pub resolve_account : ℕ → Tx Account
  resolve_account id = do
    found ← gets λ db. find (account_key id) db.chart_of_accounts
    or_throw found (not_found no_such_row)

  unfoldable pub opening_balance : Account → Option ℕ → Db → ℤ
  unfolding signed raw_totals_before sign_for
  opening_balance account none db = pos 0
  opening_balance account (some from) db =
      signed (sign_for account.account_type) (raw_totals_before account.id from db)

  -- The rest of the report, for its account and range.
  unfoldable pub account_balance : Account → DateRange → Db → AccountBalanceResult
  unfolding opening_balance raw_totals_within_range signed
  account_balance account range db =
      let sign = sign_for account.account_type in
      let opening = opening_balance account range.date_from db in
      let movement = raw_totals_within_range account.id range db in
      record {
        account_id = account.id;
        account_code = account.code;
        account_name = account.name;
        account_type = account.account_type;
        normal_balance = sign;
        effective_date_from = range.date_from;
        effective_date_to = range.date_to;
        opening_balance_minor = opening;
        period_movement_minor = signed sign movement;
        closing_balance_minor = opening +ℤ signed sign movement;
        total_debit_minor = movement.raw_debit;
        total_credit_minor = movement.raw_credit;
      }

module _ (p : Platform) (c : Caller) where
  unfoldable pub resolve_range : AccountBalanceQueryDto → Tx DateRange
  unfolding resolve_period_in_scope
  resolve_range q = elim q.period_id [
    | some id ↦ do
      period ← resolve_period_in_scope c id
      pure (record { date_from = some period.start_date; date_to = period.end_date })
    | none ↦ pure (
        if is_some q.date_from || is_some q.date_to
        then record { date_from = q.date_from; date_to = or_else q.date_to p.today }
        else record { date_from = none; date_to = or_else q.as_of p.today })
  ]

  unfoldable pub get_balance : ℕ → AccountBalanceQueryDto → Tx AccountBalanceResult
  unfolding resolve_account resolve_range account_balance
  get_balance id q = do
    account ← resolve_account c id
    range ← resolve_range q
    gets λ db. account_balance c account range db
