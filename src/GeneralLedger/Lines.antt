-- ===== src/GeneralLedger/Lines.antt =====
-- The lines that the reports read, their totals, and the lookups that the reports share.
use noryx_platform.Common.{ℕ, Bool, true, false, ◌&&◌, List, ◌==◌, sum}
use noryx_platform.Common.Rows.{select, find, exists}
use noryx_platform.Database.{
  Db, Caller, JournalEntry, JournalLine, EntryStatus, draft, posted, Account, AccountType, asset,
  liability, equity, revenue, expense, AccountingPeriod, not_found, no_such_row,
}
use noryx_platform.Database.Tx.{Tx, gets, or_throw, ◌>>=◌}
use noryx_platform.Journal.{in_scope}
use noryx_platform.Periods.{period_key}

pub data NormalBalance : Type 0 where
  debit_normal credit_normal : NormalBalance

-- `signFor`: 1 reads as a debit balance, -1 as a credit balance.
unfoldable pub sign_for : AccountType → NormalBalance
sign_for asset = debit_normal
sign_for expense = debit_normal
sign_for liability = credit_normal
sign_for equity = credit_normal
sign_for revenue = credit_normal

abbrev pub is_posted : EntryStatus → Bool
is_posted draft = false
is_posted posted = true

module _ (c : Caller) where
  -- The conditions on the entry, with a condition on its date.
  unfoldable pub is_within : (ℕ → Bool) → JournalEntry → Bool
  is_within dated e =
      in_scope c e.tenant_id e.legal_entity_id && is_posted e.status && dated e.transaction_date

  -- The inner join: ids of entries are unique, so a line has at most one entry.
  unfoldable pub joined : (ℕ → Bool) → List JournalEntry → JournalLine → Bool
  unfolding is_within
  joined dated es l =
      (l.tenant_id == c.tenant_id)
      && exists (λ e. (l.journal_entry_id == e.id) && is_within dated e) es

  unfoldable pub ledger_lines : (ℕ → Bool) → Db → List JournalLine
  unfolding joined
  ledger_lines dated db = select (joined dated db.journal_entries) db.journal_lines

  abbrev pub account_scope : Account → Bool
  account_scope a = in_scope c a.tenant_id a.legal_entity_id

  -- `resolvePeriodInScope`
  unfoldable pub resolve_period_in_scope : ℕ → Tx AccountingPeriod
  resolve_period_in_scope id = do
    found ← gets λ db. find (period_key c id) db.accounting_periods
    or_throw found (not_found no_such_row)

-- `pl.account_id = coa.id`
abbrev pub line_on : ℕ → JournalLine → Bool
line_on id l = l.account_id == id

-- `COALESCE(SUM(…), 0)` over the lines of an account.
unfoldable pub account_total : (JournalLine → ℕ) → ℕ → List JournalLine → ℕ
account_total f id lines = sum f (select (line_on id) lines)
