-- ===== src/Settlement.antt =====
-- services/sphere-finance/src/common/reversal/reversal.util.ts, which the reversal of every
-- document shares, and the step of
-- services/sphere-finance/src/accounts-payable/supplier-payments/supplier-payments.service.ts
-- that it undoes. `Mirror` and `Reversed` have the proofs.
pub mod Mirror
pub mod Reversed
use noryx_platform.Common.{
  ℕ, ◌+◌, ◌-◌, Bool, Option, none, some, List, leb, ltb, ◌==◌, if◌then◌else◌,
}
use noryx_platform.Common.Decimal.{Text}
use noryx_platform.Common.Rows.{find, update_where}
use noryx_platform.Database.{
  Caller, PaymentStatus, AccountingPeriod, JournalEntry, internal, negative_paid, unprocessable,
  no_period, period_closed,
}
use noryx_platform.Database.Tx.{Result, ok, err, Tx, pure, throw, gets, ◌>>=◌}
use noryx_platform.Journal.{
  PeriodResolution, is_open, is_closed, is_not_found, resolve_period_for_date,
}

-- `UnsettleableTargetRow`: a supplier bill or a customer invoice.
pub record TargetRow : Type 0 where
  pub id : ℕ
  pub paid_minor : ℕ
  pub payment_status : PaymentStatus
  pub total_minor : ℕ

-- The status that post() of a payment computes.
unfoldable pub settled_status : ℕ → ℕ → PaymentStatus
settled_status total new_paid =
    if new_paid == total
    then PaymentStatus.paid
    else if ltb 0 new_paid
    then PaymentStatus.partially_paid
    else PaymentStatus.unpaid

-- What `UnsettleableTargetTable` asks of a table: the four columns of a row, and the update that
-- sets two of them.
pub record Settleable (T : Type 0) : Type 0 where
  pub row_id : T → ℕ
  pub paid : T → ℕ
  pub total : T → ℕ
  pub set_paid : ℕ → PaymentStatus → T → T

abbrev pub target_row : Settleable TargetRow
target_row = record {
  row_id = λ t. t.id;
  paid = λ t. t.paid_minor;
  total = λ t. t.total_minor;
  set_paid = λ n s t. record t { paid_minor = n; payment_status = s };
}

module _ {T : Type 0} (i : Settleable T) where
  -- The check of post(), an allocation against what is outstanding, without the subtraction.
  unfoldable pub fits : T → ℕ → Bool
  fits bill amount = leb (i.paid bill + amount) (i.total bill)

  -- The row after one allocation is settled: `bill` is the row that was read, `x` the row of the
  -- table that is updated.
  unfoldable pub settle : ℕ → T → T → T
  unfolding settled_status
  settle amount bill x =
      i.set_paid (i.paid bill + amount) (settled_status (i.total bill) (i.paid bill + amount)) x

-- The status that `unsettleTarget` computes.
unfoldable pub unsettled_status : ℕ → ℕ → PaymentStatus
unsettled_status total new_paid =
    if new_paid == 0
    then PaymentStatus.unpaid
    else if new_paid == total
    then PaymentStatus.paid
    else PaymentStatus.partially_paid

module _ {T : Type 0} (i : Settleable T) where
  -- The row after an amount is unsettled.
  unfoldable pub unsettle : ℕ → T → T → T
  unfolding unsettled_status
  unsettle amount target x =
      i.set_paid (i.paid target - amount)
        (unsettled_status (i.total target) (i.paid target - amount)) x

  -- `unsettleTarget` on the table of the target: the row that the update returns, and the table
  -- after. The check of a negative amount comes before the subtraction here.
  unfoldable pub unsettle_target : List T → T → ℕ → Result (Option T × List T)
  unfolding unsettle
  unsettle_target table target amount =
      let after =
        update_where (λ x. i.row_id x == i.row_id target) (unsettle amount target) table in
      if leb amount (i.paid target)
      then ok (find (λ x. i.row_id x == i.row_id target) after, after)
      else err (internal negative_paid)

abbrev pub period_or_throw : ℕ → PeriodResolution → Tx AccountingPeriod
period_or_throw date is_not_found = throw (unprocessable (no_period date))
period_or_throw date (is_closed q) = throw (unprocessable (period_closed q.code date))
period_or_throw date (is_open q) = pure q

-- `resolveOpenPeriodOrThrow`
unfoldable pub resolve_open_period_or_throw : Caller → ℕ → Tx AccountingPeriod
unfolding resolve_period_for_date
resolve_open_period_or_throw c date = do
  resolution ← resolve_period_for_date c date
  period_or_throw date resolution

-- `ReversalInfo`; the number of a posted entry is there.
pub record ReversalInfo : Type 0 where
  pub journal_entry_id : ℕ
  pub journal_number : Option Text
  pub transaction_date : ℕ
  pub posted_at : Option ℕ
  pub posted_by : Option ℕ

abbrev pub info_of : JournalEntry → ReversalInfo
info_of e = record {
  journal_entry_id = e.id;
  journal_number = e.journal_number;
  transaction_date = e.transaction_date;
  posted_at = e.posted_at;
  posted_by = e.posted_by;
}

abbrev pub entry_at : ℕ → List JournalEntry → Option JournalEntry
entry_at id es = find (λ (e : JournalEntry). e.id == id) es

abbrev pub info_or_none : Option JournalEntry → Option ReversalInfo
info_or_none none = none
info_or_none (some r) = some (info_of r)

abbrev pub reversal_at : Option ℕ → List JournalEntry → Option ReversalInfo
reversal_at none es = none
reversal_at (some id) es = info_or_none (entry_at id es)

abbrev pub reversal_of : Option JournalEntry → List JournalEntry → Option ReversalInfo
reversal_of none es = none
reversal_of (some original) es = reversal_at original.reversed_by_journal_entry_id es

-- `resolveReversalInfo`
unfoldable pub resolve_reversal_info : Option ℕ → Tx (Option ReversalInfo)
resolve_reversal_info none = pure none
resolve_reversal_info (some id) =
    gets λ db. reversal_of (entry_at id db.journal_entries) db.journal_entries
