-- ===== src/Books/History.antt =====
-- No operation of JournalEntriesService trips the immutability triggers.
use noryx_platform.Common.{
  ℕ, ◌≡◌, refl, ap, ◌∙◌, false, ◌==◌, Option, none, some, List, [], map, or_else, inl,
}
use mathlib.Core.List.{append-nil}
use noryx_platform.Common.Decimal.{Text}
use noryx_platform.Common.Rows.{find, exists, select, delete_where}
use noryx_platform.Database.{Db, Caller, Platform, AccountingPeriod, EntryWithLines}
use noryx_platform.Database.Tx.{Ensures, Ensures-map, Ensures-bind}
use noryx_platform.Journal.{
  CreateJournalLineDto, CreateJournalEntryDto, UpdateJournalEntryDto, ReverseJournalEntryDto,
  entry_key, line_of, number_lines, new_entry, header_patch, mark_posted, entry_ids, reversal_line,
  create, update, remove, post, post_system_generated_entry, complete_reversal_posting,
  reverse_in_tx, lock_and_validate_original_for_reversal, resolve_and_lock_open_period,
}
use noryx_platform.Books.Shape.{
  replaced_lines, Creates, Posts, Updates, Removes, create_shape, post_shape, update_shape,
  remove_shape,
}
use noryx_platform.Books.Entries.{
  next_entry_id, Generates, Completes, generate_shape, complete_shape, Accepts, accept_shape,
  resolve_shape,
}
use noryx_platform.Books.Tables.{
  id-find, has_id, exists-entry_ids, select-append, select-number_lines_ne, select-delete_ne,
  IsUnique,
}
use noryx_platform.Books.Permanence.{
  Preserves, Preserves-draft, Preserves-delete, Preserves-insert, untouched-insert_posted,
  Preserves-link,
}

-- What a step from `db` to `db'` has done to the posted entries.
abbrev pub KeepsPosted : Db → Db → Type 0
KeepsPosted db db' =
    Preserves db.journal_entries db.journal_lines db'.journal_entries db'.journal_lines

module _ (p : Platform) (c : Caller) (db : Db) (u : IsUnique db.journal_entries) where
  unused_id : exists (has_id (next_entry_id p db)) db.journal_entries ≡ false
  unused_id =
      exists-entry_ids (next_entry_id p db) db.journal_entries
        (p.new_id_fresh (entry_ids db.journal_entries))

  pub create-KeepsPosted :
      (dto : CreateJournalEntryDto) → Ensures (λ r db'. KeepsPosted db db') (create p c dto db)
  unfolding new_entry
  create-KeepsPosted dto =
      Ensures-map (λ r db'. Creates p c db db' r dto) (λ r db'. KeepsPosted db db')
        (create p c dto db)
        (λ r db' s.
          let id : r.entry.id ≡ next_entry_id p db = ap (λ e. e.id) s.entry in
          rw (s.entries, s.lines, s.rows)
            (Preserves-insert c db.journal_entries u db.journal_lines r.entry (or_else dto.lines [])
              (rw id unused_id)))
        (create_shape p c db dto)

  replaced_elsewhere :
      (id : ℕ) (dtos : Option (List CreateJournalLineDto)) (j : ℕ)
      → (id == j) ≡ false
      → select (line_of j) (replaced_lines c id dtos db.journal_lines)
        ≡ select (line_of j) db.journal_lines
  replaced_elsewhere id none j ne = refl
  replaced_elsewhere id (some dtos) j ne =
      select-append (line_of j) (delete_where (line_of id) db.journal_lines)
        (number_lines c id 0 dtos)
      ∙ rw (select-number_lines_ne c id j 0 dtos ne)
          (append-nil _ ∙ select-delete_ne id j db.journal_lines ne)

  pub update-KeepsPosted :
      (id : ℕ) (dto : UpdateJournalEntryDto)
      → Ensures (λ r db'. KeepsPosted db db') (update p c id dto db)
  unfolding header_patch
  update-KeepsPosted id dto =
      Ensures-map (λ r db'. Updates p c db db' r id dto) (λ r db'. KeepsPosted db db')
        (update p c id dto db)
        (λ r db' s.
          rw (s.entries, s.lines)
            (Preserves-draft c db.journal_entries u db.journal_lines id s.before
              (header_patch p c dto) (replaced_lines c id dto.lines db.journal_lines) s.found
              s.was_draft (λ x. refl) (replaced_elsewhere id dto.lines)))
        (update_shape p c db id dto)

  pub remove-KeepsPosted : (id : ℕ) → Ensures (λ r db'. KeepsPosted db db') (remove p c id db)
  remove-KeepsPosted id =
      Ensures-map (λ r db'. Removes p c db db' r id) (λ r db'. KeepsPosted db db')
        (remove p c id db)
        (λ r db' s.
          rw (s.entries, s.lines)
            (Preserves-delete c db.journal_entries u db.journal_lines id s.before s.found
              s.was_draft))
        (remove_shape p c db id)

  pub post-KeepsPosted : (id : ℕ) → Ensures (λ r db'. KeepsPosted db db') (post p c id db)
  unfolding mark_posted
  post-KeepsPosted id =
      Ensures-map (λ r db'. Posts p c db db' r id) (λ r db'. KeepsPosted db db') (post p c id db)
        (λ r db' s.
          rw (s.entries, s.lines)
            (Preserves-draft c db.journal_entries u db.journal_lines id s.before
              (mark_posted p c _ _) db.journal_lines s.found s.was_draft (λ x. refl)
              (λ j ne. refl)))
        (post_shape p c db id)

  pub generate-KeepsPosted :
      (dtos : List CreateJournalLineDto) (period : AccountingPeriod) (date : ℕ)
      (memo currency : Text)
      → Ensures
          (λ r db'. KeepsPosted db db')
          (post_system_generated_entry p c dtos period date memo currency db)
  unfolding new_entry mark_posted
  generate-KeepsPosted dtos period date memo currency =
      Ensures-map (λ r db'. Generates p c db db' r dtos period date memo currency)
        (λ r db'. KeepsPosted db db')
        (post_system_generated_entry p c dtos period date memo currency db)
        (λ r db' s.
          rw (s.entries, s.lines)
            (record {
              kept = λ j e there st.
                  let (found, lines) =
                    untouched-insert_posted c db.journal_entries u db.journal_lines
                      (new_entry p c (next_entry_id p db) date currency (some memo) none) dtos
                      (mark_posted p c _ _) unused_id (λ x. refl) j e there st in
                  (e, found, inl refl, lines);
            }))
        (generate_shape p c db dtos period date memo currency)

  pub complete-KeepsPosted :
      (original : EntryWithLines) (period : AccountingPeriod) (date : ℕ) (memo : Text) (id : ℕ)
      → find (entry_key c id) db.journal_entries ≡ some original.entry
      → original.entry.id ≡ id
      → original.entry.reversed_by_journal_entry_id ≡ none
      → Ensures
          (λ r db'. KeepsPosted db db')
          (complete_reversal_posting p c original period date memo db)
  unfolding new_entry mark_posted
  complete-KeepsPosted original period date memo id found here none_yet =
      Ensures-map (λ r db'. Completes p c db db' r original period date memo)
        (λ r db'. KeepsPosted db db') (complete_reversal_posting p c original period date memo db)
        (λ r db' s.
          rw (s.entries, s.lines)
            (Preserves-link c db.journal_entries db.journal_lines _ _ original.entry.id r.entry.id
              original.entry u (ap (λ k. find (entry_key c k) db.journal_entries) here ∙ found)
              none_yet
              (untouched-insert_posted c db.journal_entries u db.journal_lines
                (new_entry p c (next_entry_id p db) date original.entry.currency_code (some memo)
                  (some original.entry.id))
                (map reversal_line original.lines) (mark_posted p c _ _) unused_id (λ x. refl))))
        (complete_shape p c db original period date memo)

-- If ids are unique, a reversal leaves every entry that was posted in place with the same
-- lines, and either as it was or with a link to its reversal where it had none.
pub reverse_in_tx-KeepsPosted :
    (p : Platform) (c : Caller) (db : Db) (id : ℕ) (dto : ReverseJournalEntryDto)
    → IsUnique db.journal_entries
    → Ensures (λ r db'. KeepsPosted db db') (reverse_in_tx p c id dto db)
unfolding reverse_in_tx
reverse_in_tx-KeepsPosted p c db id dto u =
    Ensures-bind (λ r db'. Accepts c id db db' r) (λ r db'. KeepsPosted db db')
      (lock_and_validate_original_for_reversal c id) _ db (accept_shape c id db)
      λ original db1 a.
        Ensures-bind (λ period db2. db2 ≡ db) (λ r db'. KeepsPosted db db')
          (resolve_and_lock_open_period c _) _ db1
          (Ensures-map _ (λ period db2. db2 ≡ db) _ (λ period db2 r. r.0 ∙ a.unchanged)
            (resolve_shape c _ db1))
          λ period db2 e2. rw e2 (
            complete-KeepsPosted p c db u original period _ _ id a.found
              (id-find c id db.journal_entries original.entry a.found) a.not_reversed)
