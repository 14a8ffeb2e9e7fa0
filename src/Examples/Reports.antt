-- ===== src/Examples/Reports.antt =====
-- The trial balance of the books, and the balance of an account.
use noryx_platform.Common.{some, refl, Bool, true, none, length, leb}
use noryx_platform.Common.Decimal.{Text}
use noryx_platform.GeneralLedger.Lines.{joined, is_within}
use noryx_platform.GeneralLedger.TrialBalance.{TrialBalanceQueryDto, get_trial_balance}
use noryx_platform.GeneralLedger.Reconcile.{Reports, get_trial_balance_reconciles}
use noryx_platform.GeneralLedger.Posted.{IsReportable}
use noryx_platform.GeneralLedger.Balance.{AccountBalanceQueryDto, get_balance}
use noryx_platform.GeneralLedger.Closing.{Balances, get_balance_closes}
use noryx_platform.Examples.Data.{desk, clerk, books, books-IsBooks}

abbrev shorter : Text → Text → Bool
shorter a b = leb (length a) (length b)

abbrev of_today : TrialBalanceQueryDto
of_today = record { as_of = none; period_id = none; include_zero_balance = true }

books-IsReportable : IsReportable clerk books
unfolding joined is_within
books-IsReportable = record {
  accounts = (refl, (refl, (refl, tt)));
  tenants = (refl, (refl, (refl, (refl, tt))));
  booked = (refl, (refl, (refl, (refl, tt))));
}

get_trial_balance_reconciles_example :
    Reports clerk books of_today (get_trial_balance shorter desk clerk of_today books)
get_trial_balance_reconciles_example =
    get_trial_balance_reconciles shorter desk clerk books books-IsBooks.sound books-IsReportable
      of_today

abbrev from_today : AccountBalanceQueryDto
from_today = record { as_of = none; date_from = some 100; date_to = none; period_id = none }

get_balance_closes_example : Balances clerk books 10 (get_balance desk clerk 10 from_today books)
get_balance_closes_example = get_balance_closes clerk books desk books-IsBooks.sound 10 from_today
