-- ===== src/Examples/Numbers.antt =====
-- Journal numbers, ids and periods.
use noryx_platform.Common.{none}
use noryx_platform.Common.{ℕ, ◌≡◌, refl, [], ◌∷◌, ◌&&◌, not, contains}
use noryx_platform.Common.Decimal.{codes}
use noryx_platform.Common.Rows.{exists}
use noryx_platform.Database.Tx.{ok, Ensures, with_tenant, Refuses}
use noryx_platform.Journal.{
  find_invalid_account_ids, find_invalid_tax_code_ids, post, reverse_in_tx, ReverseJournalEntryDto,
}
use noryx_platform.Journal.Validity.{
  usable_account, usable_tax_code, invalid_accounts_exact, invalid_tax_codes_exact,
}
use noryx_platform.Books.Counter.{journal_number_text_injective}
use noryx_platform.Periods.{create, close, mark_closed}
use noryx_platform.Periods.Calendar.{IsCalendar, create-IsCalendar}
use noryx_platform.Periods.Refusals.{close_bars_postings}
use noryx_platform.Examples.Data.{draft_entry, desk, clerk, january, books, books-IsBooks}

abbrev by_hand : ReverseJournalEntryDto
by_hand = record { transaction_date = none; memo = none }

journal_number_text_injective_example : ◌≡◌ {A = ℕ} 12 12
journal_number_text_injective_example = journal_number_text_injective 12 12 refl

invalid_accounts_exact_example :
    Ensures
      (λ invalid db'.
        (db' ≡ books)
        × (contains 30 invalid ≡ (
            contains 30 (10 ∷ 30 ∷ 30 ∷ [])
            && not (exists (usable_account clerk 30) books.chart_of_accounts))))
      (find_invalid_account_ids clerk (10 ∷ 30 ∷ 30 ∷ []) books)
invalid_accounts_exact_example = invalid_accounts_exact clerk (10 ∷ 30 ∷ 30 ∷ []) 30 books

invalid_tax_codes_exact_example :
    Ensures
      (λ invalid db'.
        (db' ≡ books)
        × (contains 5 invalid
            ≡ (contains 5 (5 ∷ []) && not (exists (usable_tax_code clerk 5) books.tax_codes))))
      (find_invalid_tax_code_ids clerk (5 ∷ []) books)
invalid_tax_codes_exact_example = invalid_tax_codes_exact clerk (5 ∷ []) 5 books

create-IsCalendar_example :
    Ensures
      (λ r db'. IsCalendar db'.accounting_periods)
      (create desk clerk
        (record { code = codes "2026-02"; start_date = 201; end_date = 228 })
        books)
create-IsCalendar_example =
    create-IsCalendar desk clerk
      (record { code = codes "2026-02"; start_date = 201; end_date = 228 }) books
      books-IsBooks.calendar

close_bars_postings_example :
    ((with_tenant (close desk clerk 1) books).0 ≡ ok (mark_closed desk clerk january))
    × Refuses (post desk clerk 1 (with_tenant (close desk clerk 1) books).1)
    × ((n : ℕ)
        → Refuses (reverse_in_tx desk clerk n by_hand (with_tenant (close desk clerk 1) books).1))
close_bars_postings_example =
    close_bars_postings desk desk clerk 1 1 by_hand draft_entry january books books-IsBooks.calendar
      refl refl refl refl
