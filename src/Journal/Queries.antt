-- ===== src/Journal/Queries.antt =====
-- list() and findOne().
use noryx_platform.Common.{false, ℕ, Bool, true, ◌&&◌, Option, none, some, List, leb, ◌==◌}
use noryx_platform.Common.Rows.{select}
use noryx_platform.Database.{
  Caller, not_found, no_such_row, EntryStatus, draft, posted, JournalEntry, EntryWithLines,
}
use noryx_platform.Database.Tx.{Tx, gets, or_throw, ◌>>=◌}
use noryx_platform.Journal.Lookup.{in_scope, find_by_id_in_tx}

pub record ListJournalEntriesFilters : Type 0 where
  pub status : Option EntryStatus
  pub period_id : Option ℕ
  pub date_from : Option ℕ
  pub date_to : Option ℕ

abbrev same_status : EntryStatus → EntryStatus → Bool
same_status draft draft = true
same_status posted posted = true
same_status _ _ = false

-- A condition that is there only when its filter is; an empty filter is one that is not given.
abbrev if_given : {A : Type 0} → Option A → (A → Bool) → Bool
if_given none test = true
if_given (some a) test = test a

abbrev some_equal : Option ℕ → ℕ → Bool
some_equal none a = false
some_equal (some b) a = b == a

module _ (c : Caller) where
  unfoldable pub meets : ListJournalEntriesFilters → JournalEntry → Bool
  meets f e =
      in_scope c e.tenant_id e.legal_entity_id
      && if_given f.status (same_status e.status)
      && if_given f.period_id (some_equal e.period_id)
      && if_given f.date_from (λ d. leb d e.transaction_date)
      && if_given f.date_to (λ d. leb e.transaction_date d)

  unfoldable pub list : ListJournalEntriesFilters → Tx (List JournalEntry)
  unfolding meets
  list f = gets λ db. select (meets f) db.journal_entries

  unfoldable pub find_one : ℕ → Tx EntryWithLines
  unfolding find_by_id_in_tx
  find_one id = do found ← find_by_id_in_tx c id; or_throw found (not_found no_such_row)
