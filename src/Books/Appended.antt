-- ===== src/Books/Appended.antt =====
-- The row that a system-generated posting or a reversal adds to the journal.
use noryx_platform.Common.{ℕ, ◌≡◌, refl, ◌∙◌, true, false, Option, none, some, [], ◌∷◌, ◌++◌, arith}
use noryx_platform.Common.Decimal.{Text}
use noryx_platform.Common.Rows.{
  find, exists, find-append_none, find-update_where, find_holds, exists-find,
}
use noryx_platform.Database.{Db, Caller, Platform, AccountingPeriod, JournalEntry}
use noryx_platform.Journal.{entry_key, new_entry, mark_posted, journal_number_text, entry_ids}
use noryx_platform.Books.Shape.{drawn}
use noryx_platform.Books.Entries.{next_entry_id, appended}
use noryx_platform.Books.Tables.{has_id, exists-entry_ids}

module _ (p : Platform) (c : Caller) (db : Db) where
  pub absent : find (entry_key c (next_entry_id p db)) db.journal_entries ≡ none
  absent = go (find (entry_key c (next_entry_id p db)) db.journal_entries) refl
    where
      go :
          (o : Option JournalEntry)
          → find (entry_key c (next_entry_id p db)) db.journal_entries ≡ o
          → o ≡ none
      go none e = refl
      go (some x) e =
          let key : entry_key c (next_entry_id p db) x ≡ true =
            find_holds (entry_key c (next_entry_id p db)) db.journal_entries x e in
          let used : exists (has_id (next_entry_id p db)) db.journal_entries ≡ true =
            exists-find (entry_key c (next_entry_id p db)) (has_id (next_entry_id p db))
              db.journal_entries x e (ground arith) in
          let new : exists (has_id (next_entry_id p db)) db.journal_entries ≡ false =
            exists-entry_ids (next_entry_id p db) db.journal_entries
              (p.new_id_fresh (entry_ids db.journal_entries)) in
          cc

  pub find-appended :
      (date : ℕ) (currency memo : Text) (reversal_of : Option ℕ) (period : AccountingPeriod)
      → find (entry_key c (next_entry_id p db)) (
          appended p c db
            (new_entry p c (next_entry_id p db) date currency (some memo) reversal_of)
            period)
        ≡ some (
            mark_posted p c
              (journal_number_text (drawn c db).0)
              period.id
              (new_entry p c (next_entry_id p db) date currency (some memo) reversal_of))
  unfolding new_entry mark_posted
  find-appended date currency memo reversal_of period =
      let row = new_entry p c (next_entry_id p db) date currency (some memo) reversal_of in
      find-update_where (entry_key c row.id) (mark_posted p c _ _) (db.journal_entries ++ row ∷ [])
        row (λ x. refl)
        (find-append_none (entry_key c row.id) db.journal_entries (row ∷ []) absent ∙ ground arith)
