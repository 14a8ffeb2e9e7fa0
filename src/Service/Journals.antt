-- ===== src/Service/Journals.antt =====
-- Every operation of JournalEntriesService and of AccountingPeriodsService is a step that keeps
-- the books.
use noryx_platform.Books.Shape.{
  Creates, Posts, Removes, Updates, create_shape, update_shape, remove_shape, post_shape, drawn,
}
use noryx_platform.Common.{ℕ, ◌≤◌, ◌≡◌, ◌∙◌, List, length, sum, sym, some, none, ◌++◌, true}
use noryx_platform.Common.Decimal.{Text}
use noryx_platform.Database.{Db, Caller, Platform, AccountingPeriod, EntryWithLines}
use noryx_platform.Database.Tx.{
  Result, Ensures, Ensures-map, Ensures-bind, Ensures-both, ok, err, Answers,
}
use noryx_platform.Journal.{
  CreateJournalLineDto, CreateJournalEntryDto, UpdateJournalEntryDto, ReverseJournalEntryDto,
  create, update, remove, post, post_system_generated_entry, reverse_in_tx,
  lock_and_validate_original_for_reversal, resolve_and_lock_open_period, complete_reversal_posting,
  new_entry, number_lines, lines_accepted,
}
use noryx_platform.Periods
use noryx_platform.Periods.{CreateAccountingPeriodDto}
use noryx_platform.Periods.Calendar.{
  IsCalendar, create-IsCalendar, close-IsCalendar, Opens, Closes, create_shape as open_shape,
  close_shape,
}
use noryx_platform.Books.Entries.{
  Generates, Completes, Accepts, generate_shape, complete_shape, accept_shape, resolve_shape,
  next_entry_id, appended,
}
use noryx_platform.Books.DoubleEntry.{
  IsSound, create-IsSound, remove-IsSound, post-IsSound, post_system_generated_entry-IsSound,
}
use noryx_platform.Books.Reversing.{
  update-IsSound, reverse_in_tx-IsSound, complete-IsSound, Balances-lines_at,
}
use noryx_platform.Books.Register.{
  IsRegister, create-IsRegister, update-IsRegister, remove-IsRegister, post-IsRegister,
  generate-IsRegister, reverse_in_tx-IsRegister, complete-IsRegister,
}
use noryx_platform.Books.History.{
  KeepsPosted, create-KeepsPosted, update-KeepsPosted, remove-KeepsPosted, post-KeepsPosted,
  generate-KeepsPosted, reverse_in_tx-KeepsPosted, complete-KeepsPosted,
}
use noryx_platform.Books.Tables.{id-find}
use noryx_platform.Books.Success.{generate_succeeds}
use noryx_platform.Service.Step.{
  BooksStep-trans, BooksStep-same, IsBooks, BooksStep, KeepsPosted-same,
}

-- The three results about the journal, and the unchanged periods, are the step.
assemble :
    {A : Type 0} (db : Db) (r : Result (A × Db))
    → IsBooks db
    → Ensures (λ a db'. IsSound db') r
    → Ensures (λ a db'. IsRegister db') r
    → Ensures (λ a db'. KeepsPosted db db') r
    → Ensures (λ a db'. db'.accounting_periods ≡ db.accounting_periods) r
    → Ensures (λ a db'. BooksStep db db') r
assemble db r h a b k q =
    Ensures-map
      (λ x db'.
        (IsSound db' × IsRegister db')
        × (KeepsPosted db db' × (db'.accounting_periods ≡ db.accounting_periods)))
      (λ x db'. BooksStep db db') r
      (λ x db' s. record {
        books = record { sound = s.0.0; register = s.0.1; calendar = rw s.1.1 h.calendar };
        keeps = s.1.0;
      })
      (Ensures-both _ _ r (Ensures-both _ _ r a b) (Ensures-both _ _ r k q))

module _ (p : Platform) (c : Caller) (db : Db) (h : IsBooks db) where
  pub create-BooksStep :
      (dto : CreateJournalEntryDto) → Ensures (λ r db'. BooksStep db db') (create p c dto db)
  create-BooksStep dto =
      assemble db (create p c dto db) h (create-IsSound p c db h.sound dto)
        (create-IsRegister p c db h.register dto) (create-KeepsPosted p c db h.sound.unique dto)
        (Ensures-map (λ r db'. Creates p c db db' r dto) _ _
          (λ r db' s. s.reference.accounting_periods) (create_shape p c db dto))

  pub update-BooksStep :
      (id : ℕ) (dto : UpdateJournalEntryDto)
      → Ensures (λ r db'. BooksStep db db') (update p c id dto db)
  update-BooksStep id dto =
      assemble db (update p c id dto db) h (update-IsSound p c db id dto h.sound)
        (update-IsRegister p c db h.register id dto)
        (update-KeepsPosted p c db h.sound.unique id dto)
        (Ensures-map (λ r db'. Updates p c db db' r id dto) _ _
          (λ r db' s. s.reference.accounting_periods) (update_shape p c db id dto))

  pub remove-BooksStep : (id : ℕ) → Ensures (λ r db'. BooksStep db db') (remove p c id db)
  remove-BooksStep id =
      assemble db (remove p c id db) h (remove-IsSound p c db h.sound id)
        (remove-IsRegister p c db h.register id) (remove-KeepsPosted p c db h.sound.unique id)
        (Ensures-map (λ r db'. Removes p c db db' r id) _ _
          (λ r db' s. s.reference.accounting_periods) (remove_shape p c db id))

  pub post-BooksStep : (id : ℕ) → Ensures (λ r db'. BooksStep db db') (post p c id db)
  post-BooksStep id =
      assemble db (post p c id db) h (post-IsSound p c db h.sound id)
        (post-IsRegister p c db h.register id) (post-KeepsPosted p c db h.sound.unique id)
        (Ensures-map (λ r db'. Posts p c db db' r id) _ _
          (λ r db' s. s.reference.accounting_periods) (post_shape p c db id))

  pub generate-BooksStep :
      (dtos : List CreateJournalLineDto) (period : AccountingPeriod) (date : ℕ)
      (memo currency : Text)
      → 2 ≤ length dtos
      → sum (λ l. l.debit_minor) dtos ≡ sum (λ l. l.credit_minor) dtos
      → Ensures
          (λ r db'. BooksStep db db')
          (post_system_generated_entry p c dtos period date memo currency db)
  generate-BooksStep dtos period date memo currency n e =
      assemble db (post_system_generated_entry p c dtos period date memo currency db) h
        (post_system_generated_entry-IsSound p c db h.sound dtos period date memo currency n e)
        (generate-IsRegister p c db h.register dtos period date memo currency)
        (generate-KeepsPosted p c db h.sound.unique dtos period date memo currency)
        (Ensures-map (λ r db'. Generates p c db db' r dtos period date memo currency) _ _
          (λ r db' s. s.reference.accounting_periods)
          (generate_shape p c db dtos period date memo currency))

  -- The same of whatever writes to the journal what a system-generated posting writes.
  pub generated-BooksStep :
      (dtos : List CreateJournalLineDto) (period : AccountingPeriod) (date : ℕ)
      (memo currency : Text)
      → 2 ≤ length dtos
      → sum (λ l. l.debit_minor) dtos ≡ sum (λ l. l.credit_minor) dtos
      → lines_accepted db.chart_of_accounts db.tax_codes dtos ≡ true
      → (db' : Db)
      → db'.journal_entries
        ≡ appended p c db (new_entry p c (next_entry_id p db) date currency (some memo) none) period
      → db'.journal_lines ≡ db.journal_lines ++ number_lines c (next_entry_id p db) 0 dtos
      → db'.journal_number_counters ≡ (drawn c db).1
      → db'.accounting_periods ≡ db.accounting_periods
      → BooksStep db db'
  generated-BooksStep dtos period date memo currency n e accepted db' es ls ns ps =
      go _ (post_system_generated_entry p c dtos period date memo currency db)
        (Ensures-both _ _ _ (generate_shape p c db dtos period date memo currency)
          (generate-BooksStep dtos period date memo currency n e))
        (generate_succeeds p c db dtos period date memo currency accepted)
    where
      go :
          (v : EntryWithLines) (r : Result (EntryWithLines × Db))
          → Ensures
              (λ w db''. Generates p c db db'' w dtos period date memo currency × BooksStep db db'')
              r
          → Answers v r
          → BooksStep db db'
      go v (ok (w, db'')) s a = BooksStep-trans db db'' db' s.1 (
          BooksStep-same db'' db' s.1.books (record {
            entries = es ∙ sym s.0.entries;
            lines = ls ∙ sym s.0.lines;
            counters = ns ∙ sym s.0.counters;
            periods = ps ∙ sym s.0.reference.accounting_periods;
          }))
      go v (err f) s a = absurd a

  same_periods :
      (id : ℕ) (dto : ReverseJournalEntryDto)
      → Ensures
          (λ r db'. db'.accounting_periods ≡ db.accounting_periods)
          (reverse_in_tx p c id dto db)
  unfolding reverse_in_tx
  same_periods id dto =
      Ensures-bind (λ r db'. db' ≡ db) (λ r db'. db'.accounting_periods ≡ db.accounting_periods)
        (lock_and_validate_original_for_reversal c id) _ db
        (Ensures-map (λ r db'. Accepts c id db db' r) (λ r db'. db' ≡ db) _ (λ r db' a. a.unchanged)
          (accept_shape c id db))
        λ original db1 e1.
          Ensures-bind (λ period db2. db2 ≡ db1)
            (λ r db'. db'.accounting_periods ≡ db.accounting_periods)
            (resolve_and_lock_open_period c _) _ db1
            (Ensures-map _ (λ period db2. db2 ≡ db1) _ (λ period db2 r. r.0)
              (resolve_shape c _ db1))
            λ period db2 e2.
              Ensures-map (λ r db'. Completes p c db2 db' r original period _ _)
                (λ r db'. db'.accounting_periods ≡ db.accounting_periods) _
                (λ r db' s. s.reference.accounting_periods ∙ rw (e2, e1))
                (complete_shape p c db2 original period _ _)

  pub reverse_in_tx-BooksStep :
      (id : ℕ) (dto : ReverseJournalEntryDto)
      → Ensures (λ r db'. BooksStep db db') (reverse_in_tx p c id dto db)
  reverse_in_tx-BooksStep id dto =
      assemble db (reverse_in_tx p c id dto db) h (reverse_in_tx-IsSound p c db id dto h.sound)
        (reverse_in_tx-IsRegister p c db id dto h.register)
        (reverse_in_tx-KeepsPosted p c db id dto h.sound.unique) (same_periods id dto)

  -- The completion of a reversal of an entry that lockAndValidateOriginalForReversal() accepts.
  pub complete-BooksStep :
      (id : ℕ) (original : EntryWithLines) (period : AccountingPeriod) (date : ℕ) (memo : Text)
      → Accepts c id db db original
      → Ensures
          (λ r db'. BooksStep db db')
          (complete_reversal_posting p c original period date memo db)
  complete-BooksStep id original period date memo a =
      assemble db (complete_reversal_posting p c original period date memo db) h
        (complete-IsSound p c db original period date memo h.sound
          (rw a.rows (Balances-lines_at c id db original.entry h.sound a.found a.was_posted)))
        (complete-IsRegister p c db h.register original period date memo)
        (complete-KeepsPosted p c db h.sound.unique original period date memo id a.found
          (id-find c id db.journal_entries original.entry a.found) a.not_reversed)
        (Ensures-map (λ r db'. Completes p c db db' r original period date memo) _ _
          (λ r db' s. s.reference.accounting_periods)
          (complete_shape p c db original period date memo))

  pub open-BooksStep :
      (dto : CreateAccountingPeriodDto)
      → Ensures (λ r db'. BooksStep db db') (Periods.create p c dto db)
  open-BooksStep dto =
      Ensures-map (λ r db'. Opens p c dto db db' r × IsCalendar db'.accounting_periods)
        (λ r db'. BooksStep db db') (Periods.create p c dto db)
        (λ r db' s. record {
          books = record {
            sound = rw (s.0.same_entries, s.0.same_lines) h.sound;
            register = rw (s.0.same_entries, s.0.same_counters) h.register;
            calendar = s.1;
          };
          keeps = KeepsPosted-same db db' s.0.same_entries s.0.same_lines;
        })
        (Ensures-both _ _ _ (open_shape p c dto db) (create-IsCalendar p c dto db h.calendar))

  pub close-BooksStep : (id : ℕ) → Ensures (λ r db'. BooksStep db db') (Periods.close p c id db)
  close-BooksStep id =
      Ensures-map (λ r db'. Closes p c id db db' r × IsCalendar db'.accounting_periods)
        (λ r db'. BooksStep db db') (Periods.close p c id db)
        (λ r db' s. record {
          books = record {
            sound = rw (s.0.same_entries, s.0.same_lines) h.sound;
            register = rw (s.0.same_entries, s.0.same_counters) h.register;
            calendar = s.1;
          };
          keeps = KeepsPosted-same db db' s.0.same_entries s.0.same_lines;
        })
        (Ensures-both _ _ _ (close_shape p c id db) (close-IsCalendar p c id db h.calendar))
