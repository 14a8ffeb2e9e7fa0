-- ===== src/Examples/Requests.antt =====
-- Requests served one after the other.
use noryx_platform.Common.{◌≡◌, refl, none, some, [], ◌∷◌, List}
use noryx_platform.Common.Rows.{find, select}
use noryx_platform.Database.{JournalEntry}
use noryx_platform.Journal.{line_of}
use noryx_platform.Books.Tables.{has_id}
use noryx_platform.Books.Permanence.{LinkedOnce}
use noryx_platform.Service.Step.{IsBooks}
use noryx_platform.Service.Requests.{
  Call, serve_all, post_entry, reverse_entry, delete_entry, close_period, process_due,
  serve_all-IsBooks, serve_all_keeps_posted,
}
use noryx_platform.Examples.Data.{desk, clerk, posted_entry, books, books-IsBooks}

abbrev calls : List Call
calls =
    record { platform = desk; caller = clerk; request = post_entry 1 }
    ∷ record { platform = desk; caller = clerk; request = process_due none }
    ∷ record {
      platform = desk;
      caller = clerk;
      request = reverse_entry 2 (record { transaction_date = none; memo = none });
    }
    ∷ record { platform = desk; caller = clerk; request = delete_entry 2 }
    ∷ record { platform = desk; caller = clerk; request = close_period 1 }
    ∷ []

serve_all-IsBooks_example : IsBooks (serve_all calls books)
serve_all-IsBooks_example = serve_all-IsBooks calls books books-IsBooks

serve_all_keeps_posted_example :
    (e' : JournalEntry) × (find (has_id 2) (serve_all calls books).journal_entries ≡ some e')
    × LinkedOnce posted_entry e'
    × (select (line_of 2) (serve_all calls books).journal_lines
        ≡ select (line_of 2) books.journal_lines)
serve_all_keeps_posted_example =
    serve_all_keeps_posted calls books 2 posted_entry books-IsBooks refl refl
