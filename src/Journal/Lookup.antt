-- ===== src/Journal/Lookup.antt =====
-- resolveCurrency(), resolvePeriodForDate(), resolveAndLockOpenPeriod(), allocateJournalNumber()
-- and findByIdInTx().
use noryx_platform.Common.{
  ℕ, ◌+◌, Bool, ◌&&◌, Option, none, some, List, [], ◌∷◌, ◌++◌, leb, ◌==◌, if◌then◌else◌,
}
use noryx_platform.Common.Decimal.{Text, codes, decimal, pad_start}
use noryx_platform.Common.Rows.{select, find, update_where}
use noryx_platform.Database.{
  Caller, not_found, unprocessable, no_legal_entity, no_period, period_closed, LegalEntity,
  AccountingPeriod, open_period, closed, JournalNumberCounter, JournalEntry, JournalLine,
  EntryWithLines,
}
use noryx_platform.Database.Tx.{Tx, pure, throw, gets, or_throw, ◌>>=◌}

-- `PeriodResolution`
pub data PeriodResolution : Type 0 where
  is_open : AccountingPeriod → PeriodResolution
  is_closed : AccountingPeriod → PeriodResolution
  is_not_found : PeriodResolution

-- The scope of a query: `eq(tenantId)` and `eq(legalEntityId)`.
abbrev pub in_scope : Caller → ℕ → ℕ → Bool
in_scope c tenant_id legal_entity_id =
    (tenant_id == c.tenant_id) && (legal_entity_id == c.legal_entity_id)

module _ (c : Caller) where
  abbrev pub entry_key : ℕ → JournalEntry → Bool
  entry_key id e = (e.id == id) && in_scope c e.tenant_id e.legal_entity_id

  abbrev pub entity_key : LegalEntity → Bool
  entity_key l = (l.id == c.legal_entity_id) && (l.tenant_id == c.tenant_id)

  unfoldable pub resolve_currency : Tx Text
  resolve_currency = do
    entity ← gets λ db. find entity_key db.legal_entities
    found ← or_throw entity (not_found no_legal_entity)
    pure found.currency_code

  abbrev pub covers : ℕ → AccountingPeriod → Bool
  covers date p =
      in_scope c p.tenant_id p.legal_entity_id && leb p.start_date date && leb date p.end_date

  abbrev pub resolution_of : Option AccountingPeriod → PeriodResolution
  resolution_of none = is_not_found
  resolution_of (some p) = elim p.status [ open_period ↦ is_open p | closed ↦ is_closed p ]

  unfoldable pub resolve_period_for_date : ℕ → Tx PeriodResolution
  resolve_period_for_date date = gets λ db. resolution_of (find (covers date) db.accounting_periods)

  abbrev pub open_or_throw : ℕ → PeriodResolution → Tx AccountingPeriod
  open_or_throw date (is_open p) = pure p
  open_or_throw date (is_closed p) = throw (unprocessable (period_closed p.code date))
  open_or_throw date is_not_found = throw (unprocessable (no_period date))

  unfoldable pub resolve_and_lock_open_period : ℕ → Tx AccountingPeriod
  unfolding resolve_period_for_date
  resolve_and_lock_open_period date = do
    resolution ← resolve_period_for_date date
    open_or_throw date resolution

  abbrev pub counter_key : JournalNumberCounter → Bool
  counter_key n = in_scope c n.tenant_id n.legal_entity_id

  -- `INSERT … ON CONFLICT DO UPDATE … RETURNING`: the table after, and the number.
  unfoldable pub next_number :
      List JournalNumberCounter → Option JournalNumberCounter → ℕ × List JournalNumberCounter
  next_number table none =
      let row : JournalNumberCounter = record {
        tenant_id = c.tenant_id;
        legal_entity_id = c.legal_entity_id;
        last_assigned_number = 1;
      } in
      (1, table ++ row ∷ [])
  next_number table (some n) = (
    n.last_assigned_number + 1,
    update_where counter_key (λ m. record m { last_assigned_number = m.last_assigned_number + 1 })
        table,
  )

-- `JE-${String(n).padStart(6, "0")}`
unfoldable pub journal_number_text : ℕ → Text
journal_number_text n = codes "JE-" ++ pad_start 6 (decimal n)

module _ (c : Caller) where
  unfoldable pub allocate_journal_number : Tx Text
  unfolding next_number journal_number_text
  allocate_journal_number db =
      let (n, table) =
        next_number c db.journal_number_counters
          (find (counter_key c) db.journal_number_counters) in
      pure (journal_number_text n) (record db { journal_number_counters = table })

-- `orderBy(asc(lineNumber))`
unfoldable pub insert_ordered : JournalLine → List JournalLine → List JournalLine
insert_ordered l [] = l ∷ []
insert_ordered l (m ∷ ms) =
    if leb l.line_number m.line_number then l ∷ m ∷ ms else m ∷ insert_ordered l ms

unfoldable pub order_by_line_number : List JournalLine → List JournalLine
unfolding insert_ordered
order_by_line_number [] = []
order_by_line_number (l ∷ ls) = insert_ordered l (order_by_line_number ls)

abbrev pub line_of : ℕ → JournalLine → Bool
line_of id l = l.journal_entry_id == id

module _ (c : Caller) where
  unfoldable pub with_lines : ℕ → List JournalLine → Option JournalEntry → Option EntryWithLines
  with_lines id lines none = none
  with_lines id lines (some e) =
      some (record { entry = e; lines = order_by_line_number (select (line_of id) lines) })

  -- `FOR UPDATE` has no effect in a model where transactions run one after the other.
  unfoldable pub find_by_id_in_tx : ℕ → Tx (Option EntryWithLines)
  unfolding with_lines
  find_by_id_in_tx id =
      gets λ db. with_lines id db.journal_lines (find (entry_key c id) db.journal_entries)
