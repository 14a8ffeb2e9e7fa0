-- ===== src/Books/Linked.antt =====
-- What completeReversalPosting(), and so reverse(), leaves in the journal: the posted reversal,
-- and the original with its link.
use noryx_platform.Books.Appended.{absent, find-appended}
use mathlib.Core.Option.{some-injective}
use noryx_platform.Common.{
  ℕ, ◌≡◌, refl, sym, ap, ◌∙◌, false, none, some, [], ◌∷◌, ◌++◌, arith, ◌==◌, Bool-cases, inl, inr,
  or_else,
}
use noryx_platform.Common.Decimal.{Text}
use noryx_platform.Common.Rows.{find, find-append_some, find-update_where, find-update_ne}
use noryx_platform.Database.{
  Db, Caller, Platform, AccountingPeriod, JournalEntry, EntryWithLines, posted,
}
use noryx_platform.Database.Tx.{Ensures, Ensures-map, Ensures-bind}
use noryx_platform.Journal.{
  ReverseJournalEntryDto, entry_key, new_entry, mark_posted, complete_reversal_posting,
  reverse_in_tx, lock_and_validate_original_for_reversal, resolve_and_lock_open_period,
}
use noryx_platform.Books.Shape.{SameReference}
use noryx_platform.Books.Entries.{
  next_entry_id, appended, Completes, complete_shape, Accepts, accept_shape, resolve_shape,
}
use noryx_platform.Books.Tables.{id-find}

-- The posted reversal of an entry on a date, each of the two naming the other.
pub record Reverses (c : Caller) (original : EntryWithLines) (date : ℕ) (db' : Db)
    (w : EntryWithLines) : Type 0 where
  pub linked :
      find (entry_key c original.entry.id) db'.journal_entries
      ≡ some (record original.entry { reversed_by_journal_entry_id = some w.entry.id })
  pub found : find (entry_key c w.entry.id) db'.journal_entries ≡ some w.entry
  pub is_posted : w.entry.status ≡ posted
  pub dated : w.entry.transaction_date ≡ date
  pub names : w.entry.reversal_of_journal_entry_id ≡ some original.entry.id
  pub not_reversed : w.entry.reversed_by_journal_entry_id ≡ none

module _ (p : Platform) (c : Caller) (db : Db) where
  -- A row of the table has another id than the next one.
  pub ids_differ :
      (id : ℕ) (e : JournalEntry)
      → find (entry_key c id) db.journal_entries ≡ some e
      → (id == next_entry_id p db) ≡ false
  ids_differ id e found = elim (Bool-cases (id == next_entry_id p db)) [
    | inl t ↦
        let same : id ≡ next_entry_id p db = ground arith in
        let none_there : find (entry_key c id) db.journal_entries ≡ none =
          rw same (absent p c db) in
        cc
    | inr t ↦ t
  ]

  module _ (original : EntryWithLines) (period : AccountingPeriod) (date : ℕ) (memo : Text)
      (found : find (entry_key c original.entry.id) db.journal_entries ≡ some original.entry) where
    -- The original is still in the table that the reversal has been added to.
    pub find-appended_original :
        find (entry_key c original.entry.id) (
          appended p c db
            (new_entry p c
              (next_entry_id p db)
              date
              original.entry.currency_code
              (some memo)
              (some original.entry.id))
            period)
        ≡ some original.entry
    unfolding new_entry mark_posted
    find-appended_original =
        let id : ℕ = original.entry.id in
        let row : JournalEntry =
          new_entry p c (next_entry_id p db) date original.entry.currency_code (some memo)
            (some id) in
        let ne : (id == next_entry_id p db) ≡ false = ids_differ id original.entry found in
        find-update_ne (entry_key c id) (entry_key c row.id) (mark_posted p c _ _)
          (db.journal_entries ++ row ∷ []) (λ x. refl) (λ x t. ground arith)
        ∙ find-append_some (entry_key c id) db.journal_entries (row ∷ []) original.entry found

    pub complete-Reverses :
        Ensures
          (λ w db'. Reverses c original date db' w × SameReference db db')
          (complete_reversal_posting p c original period date memo db)
    unfolding new_entry mark_posted
    complete-Reverses =
        Ensures-map (λ r db'. Completes p c db db' r original period date memo)
          (λ w db'. Reverses c original date db' w × SameReference db db')
          (complete_reversal_posting p c original period date memo db)
          (λ r db' s.
            let id : ℕ = original.entry.id in
            let row : JournalEntry =
              new_entry p c (next_entry_id p db) date original.entry.currency_code (some memo)
                (some id) in
            let ne : (id == next_entry_id p db) ≡ false = ids_differ id original.entry found in
            let link =
              λ (e : JournalEntry). record e { reversed_by_journal_entry_id = some r.entry.id } in
            let e≡ : r.entry ≡ mark_posted p c _ _ row = some-injective _ _ (
              sym s.entry
              ∙ find-appended p c db date original.entry.currency_code memo (some id) period) in
            let rid : r.entry.id ≡ next_entry_id p db = ap (λ e. e.id) e≡ in
            (
              record {
                linked =
                    ap (find (entry_key c id)) s.entries
                    ∙ find-update_where (entry_key c id) link (appended p c db row period)
                        original.entry (λ x. refl) find-appended_original;
                found =
                    ap (find (entry_key c r.entry.id)) s.entries
                    ∙ find-update_ne (entry_key c r.entry.id) (entry_key c id) link
                        (appended p c db row period) (λ x. refl) (λ x t. ground arith)
                    ∙ ap (λ k. find (entry_key c k) (appended p c db row period)) rid
                    ∙ s.entry;
                is_posted = ap (λ e. e.status) e≡;
                dated = ap (λ e. e.transaction_date) e≡;
                names = ap (λ e. e.reversal_of_journal_entry_id) e≡;
                not_reversed = ap (λ e. e.reversed_by_journal_entry_id) e≡;
              },
              s.reference,
            ))
          (complete_shape p c db original period date memo)

-- The same of reverse(), with the entry that it has accepted.
pub reverse_in_tx-Reverses :
    (p : Platform) (c : Caller) (id : ℕ) (dto : ReverseJournalEntryDto) (db : Db)
    → Ensures
        (λ w db'.
          (original : EntryWithLines) × Accepts c id db db original
          × (original.entry.id ≡ id)
          × Reverses c original (or_else dto.transaction_date p.today) db' w
          × SameReference db db')
        (reverse_in_tx p c id dto db)
unfolding reverse_in_tx
reverse_in_tx-Reverses p c id dto db =
    Ensures-bind (λ r db'. Accepts c id db db' r) _ (lock_and_validate_original_for_reversal c id) _
      db (accept_shape c id db)
      λ original db1 a.
        Ensures-bind (λ period db2. db2 ≡ db) _ (resolve_and_lock_open_period c _) _ db1
          (Ensures-map _ (λ period db2. db2 ≡ db) _ (λ period db2 r. r.0 ∙ a.unchanged)
            (resolve_shape c _ db1))
          λ period db2 e2.
            let here : original.entry.id ≡ id =
              id-find c id db.journal_entries original.entry a.found in
            let found : find (entry_key c original.entry.id) db.journal_entries
                ≡ some original.entry =
              ap (λ k. find (entry_key c k) db.journal_entries) here ∙ a.found in
            let accepts : Accepts c id db db original = rw a.unchanged at a in
            rw e2 (
              Ensures-map
                (λ w db'.
                  Reverses c original (or_else dto.transaction_date p.today) db' w
                  × SameReference db db')
                _ _ (λ w db' s. (original, accepts, here, s.0, s.1))
                (complete-Reverses p c db original period _ _ found))
