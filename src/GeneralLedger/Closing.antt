-- ===== src/GeneralLedger/Closing.antt =====
-- The closing balance of a range of dates is the balance of the account on its last date.
use mathlib.Core.Path.{subst}
use noryx_platform.Common.{
  ℕ, ◌+◌, ◌<◌, ◌≡◌, ◌⊎◌, inl, inr, refl, sym, Bool, ◌&&◌, Option, none, some, arith, ltb, leb,
  Bool-cases, Option-cases, ==_iff,
}
use noryx_platform.Common.Int.{ℤ, pos, ◌+ℤ◌, sub_ℕ-add}
use noryx_platform.Common.Rows.{find, find_holds}
use noryx_platform.Database.{Db, Caller, Platform, Account, not_found, no_such_row}
use noryx_platform.Database.Tx.{Result, ok, err}
use noryx_platform.Books.DoubleEntry.{IsSound}
use noryx_platform.Periods.{period_key}
use noryx_platform.GeneralLedger.Lines.{
  NormalBalance, debit_normal, credit_normal, sign_for, resolve_period_in_scope,
}
use noryx_platform.GeneralLedger.Balance.{
  AccountBalanceQueryDto, AccountBalanceResult, DateRange, signed, raw_totals, raw_totals_before,
  raw_totals_within_range, resolve_account, resolve_range, account_key, opening_balance,
  account_balance, get_balance,
}
use noryx_platform.GeneralLedger.Posted.{debit, credit}
use noryx_platform.GeneralLedger.Spans.{Splits, account_total-split}

-- A range that ends more than a day before it begins, as one from a day to come up to today.
abbrev pub IsInverted : Option ℕ → ℕ → Type 0
IsInverted none to = ⊥
IsInverted (some from) to = to + 1 < from

signed-add :
    (sign : NormalBalance) (a b x y : ℕ)
    → signed sign (record { raw_debit = a + x; raw_credit = b + y })
      ≡ signed sign (record { raw_debit = a; raw_credit = b })
        +ℤ signed sign (record { raw_debit = x; raw_credit = y })
unfolding signed
signed-add debit_normal a b x y = sub_ℕ-add a b x y
signed-add credit_normal a b x y = sub_ℕ-add b a y x

zero_add : (x : ℤ) → pos 0 +ℤ x ≡ x
zero_add x = ground arith

module _ (c : Caller) (db : Db) where
  -- The report on an account names the account, and its closing balance is what all lines up to
  -- the last date make of it.
  pub record Closes (id : ℕ) (x : AccountBalanceResult) : Type 0 where
    pub account : x.account_id ≡ id
    pub closing :
        IsInverted x.effective_date_from x.effective_date_to
        ⊎ (x.closing_balance_minor
            ≡ signed x.normal_balance (raw_totals c (λ d. leb d x.effective_date_to) id db))

  module _ (h : IsSound db) where
    abbrev before : ℕ → ℕ → Bool
    before from d = ltb d from

    abbrev between : ℕ → ℕ → ℕ → Bool
    between from to d = leb from d && leb d to

    abbrev up_to : ℕ → ℕ → Bool
    up_to to d = leb d to

    spans : (from to : ℕ) → (to + 1 < from) ⊎ Splits (before from) (between from to) (up_to to)
    spans from to = elim (Bool-cases (ltb (to + 1) from)) [
      | inl t ↦ inl (ground arith)
      | inr t ↦ inr (record { both = λ d. ground arith; apart = λ d k. ground arith })
    ]

    -- The opening balance and the movement make the balance on the last date.
    abbrev IsClosed : Account → Option ℕ → ℕ → Type 0
    IsClosed a from to =
        opening_balance c a from db
          +ℤ signed (sign_for a.account_type)
              (raw_totals_within_range c a.id (record { date_from = from; date_to = to }) db)
        ≡ signed (sign_for a.account_type) (raw_totals c (up_to to) a.id db)

    closed_always : (a : Account) (to : ℕ) → IsClosed a none to
    unfolding opening_balance raw_totals_within_range raw_totals
    closed_always a to = zero_add _

    closed_from :
        (a : Account) (from to : ℕ)
        → Splits (before from) (between from to) (up_to to)
        → IsClosed a (some from) to
    unfolding opening_balance raw_totals_within_range raw_totals_before raw_totals
    closed_from a from to s =
        let total = account_total-split c (before from) (between from to) (up_to to) s in
        sym (
          rw (total debit a.id db h, total credit a.id db h)
            (signed-add (sign_for a.account_type) _ _ _ _))

    closed : (a : Account) (from : Option ℕ) (to : ℕ) → IsInverted from to ⊎ IsClosed a from to
    closed a none to = inr (closed_always a to)
    closed a (some from) to = elim (spans from to) [
      | inl t ↦ inl t
      | inr s ↦ inr (closed_from a from to s)
    ]

    account_balance-Closes :
        (a : Account) (range : DateRange) → Closes a.id (account_balance c a range db)
    unfolding account_balance
    account_balance-Closes a range = record {
      account = refl;
      closing = closed a range.date_from range.date_to;
    }

  -- What getBalance() answers, or why it does not.
  abbrev pub Balances : ℕ → Result (AccountBalanceResult × Db) → Type 0
  Balances id (ok (x, db')) = (db' ≡ db) × Closes id x
  Balances id (err e) = e ≡ not_found no_such_row

  module _ (p : Platform) (h : IsSound db) where
    resolve_range_lem :
        (as_of from to period_id : Option ℕ)
        → let r =
            resolve_range p c
              (record { as_of = as_of; date_from = from; date_to = to; period_id = period_id })
              db in
          (r ≡ err (not_found no_such_row)) ⊎ ((range : DateRange) × (r ≡ ok (range, db)))
    unfolding resolve_range resolve_period_in_scope
    resolve_range_lem as_of from to none = inr (_, refl)
    resolve_range_lem as_of from to (some id) =
        elim (Option-cases (find (period_key c id) db.accounting_periods)) [
          | inl n ↦ inl (ground arith)
          | inr (period, n) ↦ inr (
            record { date_from = some period.start_date; date_to = period.end_date },
            ground arith,
          )
        ]

    -- In sound books getBalance() answers, unless it does not find the account or the period, with
    -- a closing balance that is the balance of all lines up to the last date, unless the range
    -- ends more than a day before it begins.
    pub get_balance_closes :
        (id : ℕ) (q : AccountBalanceQueryDto) → Balances id (get_balance p c id q db)
    unfolding get_balance resolve_account
    get_balance_closes id q = elim (Option-cases (find (account_key c id) db.chart_of_accounts)) [
      | inl n ↦ rw (Balances, n) refl
      | inr (a, n) ↦ elim (resolve_range_lem q.as_of q.date_from q.date_to q.period_id) [
        | inl e ↦ rw (Balances, n, e) refl
        | inr (range, e) ↦
            let same : a.id ≡ id =
              (==_iff a.id id).0
                (ground (arith, find_holds (account_key c id) db.chart_of_accounts a n)) in
            rw (Balances, n, e)
              (
                refl,
                subst (λ k. Closes k (account_balance c a range db)) same
                    (account_balance-Closes h a range),
              )
      ]
    ]
