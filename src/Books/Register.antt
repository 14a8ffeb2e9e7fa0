-- ===== src/Books/Register.antt =====
-- Every operation of JournalEntriesService keeps the numbering of the journal.
use noryx_platform.Common.{ℕ, ◌≡◌, refl, ap, false, none, List, [], ◌∷◌, ◌++◌}
use noryx_platform.Common.Decimal.{Text}
use noryx_platform.Common.Rows.{exists}
use noryx_platform.Database.{Db, Caller, Platform, AccountingPeriod, JournalEntry, EntryWithLines}
use noryx_platform.Database.Tx.{Ensures, Ensures-map, Ensures-bind}
use noryx_platform.Journal.{
  CreateJournalLineDto, CreateJournalEntryDto, UpdateJournalEntryDto, ReverseJournalEntryDto,
  entry_key, journal_number_text, new_entry, header_patch, mark_posted, entry_ids, create, update,
  remove, post, post_system_generated_entry, complete_reversal_posting, reverse_in_tx,
  lock_and_validate_original_for_reversal, resolve_and_lock_open_period,
}
use noryx_platform.Books.Shape.{
  drawn, Creates, Posts, Updates, Removes, create_shape, post_shape, update_shape, remove_shape,
}
use noryx_platform.Books.Entries.{
  next_entry_id, appended, Generates, Completes, generate_shape, complete_shape, accept_shape,
  resolve_shape,
}
use noryx_platform.Books.Tables.{has_id, exists-entry_ids}
use noryx_platform.Books.Numbers.{IsNumbered, IsNumbered-post}
use noryx_platform.Books.Numbering.{IsNumbered-insert, IsNumbered-keeps, IsNumbered-delete}

abbrev pub IsRegister : Db → Type 0
IsRegister db = IsNumbered db.journal_number_counters db.journal_entries

module _ (p : Platform) (c : Caller) (db : Db) (h : IsRegister db) where
  unused : exists (has_id (next_entry_id p db)) db.journal_entries ≡ false
  unused =
      exists-entry_ids (next_entry_id p db) db.journal_entries
        (p.new_id_fresh (entry_ids db.journal_entries))

  pub create-IsRegister :
      (dto : CreateJournalEntryDto) → Ensures (λ r db'. IsRegister db') (create p c dto db)
  unfolding new_entry
  create-IsRegister dto =
      Ensures-map (λ r db'. Creates p c db db' r dto) (λ r db'. IsRegister db') (create p c dto db)
        (λ r db' s.
          let id : r.entry.id ≡ next_entry_id p db = ap (λ e. e.id) s.entry in
          let n : r.entry.journal_number ≡ none = ap (λ e. e.journal_number) s.entry in
          rw (s.entries, s.counters)
            (IsNumbered-insert db.journal_number_counters db.journal_entries h r.entry
              (rw id unused) n))
        (create_shape p c db dto)

  pub update-IsRegister :
      (id : ℕ) (dto : UpdateJournalEntryDto)
      → Ensures (λ r db'. IsRegister db') (update p c id dto db)
  unfolding header_patch
  update-IsRegister id dto =
      Ensures-map (λ r db'. Updates p c db db' r id dto) (λ r db'. IsRegister db')
        (update p c id dto db)
        (λ r db' s.
          rw (s.entries, s.counters)
            (IsNumbered-keeps db.journal_number_counters db.journal_entries h (entry_key c id)
              (header_patch p c dto) (λ e. (refl, refl, refl, refl))))
        (update_shape p c db id dto)

  pub remove-IsRegister : (id : ℕ) → Ensures (λ r db'. IsRegister db') (remove p c id db)
  remove-IsRegister id =
      Ensures-map (λ r db'. Removes p c db db' r id) (λ r db'. IsRegister db') (remove p c id db)
        (λ r db' s.
          rw (s.entries, s.counters)
            (IsNumbered-delete db.journal_number_counters db.journal_entries h (entry_key c id)))
        (remove_shape p c db id)

  -- If every journal number was drawn from the counter of its entity and no two entries of an
  -- entity share one, a post keeps it so.
  pub post-IsRegister : (id : ℕ) → Ensures (λ r db'. IsRegister db') (post p c id db)
  unfolding mark_posted
  post-IsRegister id =
      Ensures-map (λ r db'. Posts p c db db' r id) (λ r db'. IsRegister db') (post p c id db)
        (λ r db' s.
          rw (s.entries, s.counters)
            (IsNumbered-post c db.journal_number_counters id
              (mark_posted p c (journal_number_text (drawn c db).0) s.period.id) (λ e. refl)
              (λ e. refl) db.journal_entries (λ e. refl) h))
        (post_shape p c db id)

  -- A new entry that is posted at once.
  appended-IsNumbered :
      (e : JournalEntry) (period : AccountingPeriod)
      → e.id ≡ next_entry_id p db
      → e.journal_number ≡ none
      → IsNumbered (drawn c db).1 (appended p c db e period)
  unfolding mark_posted
  appended-IsNumbered e period id n =
      IsNumbered-post c db.journal_number_counters e.id
        (mark_posted p c (journal_number_text (drawn c db).0) period.id) (λ x. refl) (λ x. refl)
        (db.journal_entries ++ e ∷ []) (λ x. refl)
        (IsNumbered-insert db.journal_number_counters db.journal_entries h e (rw id unused) n)

  pub generate-IsRegister :
      (dtos : List CreateJournalLineDto) (period : AccountingPeriod) (date : ℕ)
      (memo currency : Text)
      → Ensures
          (λ r db'. IsRegister db')
          (post_system_generated_entry p c dtos period date memo currency db)
  unfolding new_entry
  generate-IsRegister dtos period date memo currency =
      Ensures-map (λ r db'. Generates p c db db' r dtos period date memo currency)
        (λ r db'. IsRegister db')
        (post_system_generated_entry p c dtos period date memo currency db)
        (λ r db' s. rw (s.entries, s.counters) (appended-IsNumbered _ period refl refl))
        (generate_shape p c db dtos period date memo currency)

  pub complete-IsRegister :
      (original : EntryWithLines) (period : AccountingPeriod) (date : ℕ) (memo : Text)
      → Ensures
          (λ r db'. IsRegister db')
          (complete_reversal_posting p c original period date memo db)
  unfolding new_entry
  complete-IsRegister original period date memo =
      Ensures-map (λ r db'. Completes p c db db' r original period date memo)
        (λ r db'. IsRegister db') (complete_reversal_posting p c original period date memo db)
        (λ r db' s.
          rw (s.entries, s.counters)
            (IsNumbered-keeps _ _ (appended-IsNumbered _ period refl refl)
              (entry_key c original.entry.id) _ (λ e. (refl, refl, refl, refl))))
        (complete_shape p c db original period date memo)

pub reverse_in_tx-IsRegister :
    (p : Platform) (c : Caller) (db : Db) (id : ℕ) (dto : ReverseJournalEntryDto)
    → IsRegister db
    → Ensures (λ r db'. IsRegister db') (reverse_in_tx p c id dto db)
unfolding reverse_in_tx
reverse_in_tx-IsRegister p c db id dto h =
    Ensures-bind (λ r db'. db' ≡ db) (λ r db'. IsRegister db')
      (lock_and_validate_original_for_reversal c id) _ db
      (Ensures-map _ (λ r db'. db' ≡ db) _ (λ r db' a. a.unchanged) (accept_shape c id db))
      λ original db1 e1.
        Ensures-bind (λ period db2. db2 ≡ db1) (λ r db'. IsRegister db')
          (resolve_and_lock_open_period c _) _ db1
          (Ensures-map _ (λ period db2. db2 ≡ db1) _ (λ period db2 r. r.0) (resolve_shape c _ db1))
          λ period db2 e2. complete-IsRegister p c db2 (rw (e2, e1) h) original period _ _
