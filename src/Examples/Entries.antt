-- ===== src/Examples/Entries.antt =====
-- Posting and reversing one entry.
use noryx_platform.Database.Tx.{err, Ensures, Achieves}
use noryx_platform.Common.{map, ◌≡◌, refl, none, true}
use noryx_platform.Journal.{
  reversal_line, post, reverse_in_tx, revalidate_lines_for_posting_or_throw, order_by_line_number,
  ReverseJournalEntryDto, lines_accepted, line_accepted, single_sided_nonzero,
  tax_code_direction_pairing,
}
use noryx_platform.Books.Outcomes.{IsPosting, IsReversal, reverse_succeeds, post_succeeds}
use noryx_platform.Examples.Data.{posted_entry, desk, clerk, draft_entry, january, books}
use native.Mathlib.Omega.{arith}
use noryx_platform.Database.{
  conflict, unprocessable, already_posted, already_reversed, is_a_reversal,
}
use noryx_platform.Books.Shape.{lines_at}
use noryx_platform.Books.Netting.{NetsToZero, reverse_in_tx-NetsToZero}
use noryx_platform.Books.Final.{post_twice, reverse_twice}

abbrev as_of_today : ReverseJournalEntryDto
as_of_today = record { transaction_date = none; memo = none }

post_succeeds_example :
    Achieves (λ w db'. IsPosting desk clerk 1 draft_entry 1 books db' w) (post desk clerk 1 books)
unfolding revalidate_lines_for_posting_or_throw order_by_line_number
post_succeeds_example =
    post_succeeds desk clerk books 1 draft_entry january refl refl (omega arith) refl refl refl refl

post_twice_example :
    Ensures
      (λ r db'. post desk clerk 1 db' ≡ err (conflict already_posted))
      (post desk clerk 1 books)
post_twice_example = post_twice desk desk clerk 1 books

reverse_twice_example :
    Ensures
      (λ r db'.
        (reverse_in_tx desk clerk 2 as_of_today db' ≡ err (conflict already_reversed))
        × (reverse_in_tx desk clerk r.entry.id as_of_today db' ≡ err (unprocessable is_a_reversal)))
      (reverse_in_tx desk clerk 2 as_of_today books)
reverse_twice_example = reverse_twice desk desk clerk 2 as_of_today as_of_today books

reverse_in_tx-NetsToZero_example :
    Ensures
      (λ r db'. NetsToZero (lines_at 2 books.journal_lines) r.lines)
      (reverse_in_tx desk clerk 2 as_of_today books)
reverse_in_tx-NetsToZero_example = reverse_in_tx-NetsToZero desk clerk books 2 as_of_today

exchanged_accepted :
    lines_accepted books.chart_of_accounts books.tax_codes
      (map reversal_line (lines_at 2 books.journal_lines))
    ≡ true
unfolding lines_accepted line_accepted single_sided_nonzero tax_code_direction_pairing reversal_line
    order_by_line_number
exchanged_accepted = refl

reverse_succeeds_example :
    Achieves
      (λ w db'.
        IsReversal desk clerk
          (record { entry = posted_entry; lines = lines_at 2 books.journal_lines })
          150
          1
          books
          db'
          w)
      (reverse_in_tx desk clerk 2 as_of_today books)
reverse_succeeds_example =
    reverse_succeeds desk clerk books 2 as_of_today posted_entry january refl refl refl refl
      exchanged_accepted refl refl
