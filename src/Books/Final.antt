-- ===== src/Books/Final.antt =====
-- An entry is reversed at most once, and a reversal never: what a second call answers.
use noryx_platform.Common.{ℕ, ◌≡◌, refl, sym, ap, ◌∙◌, none, some, arith, or_else}
use noryx_platform.Common.Rows.{find, find-update_where}
use noryx_platform.Database.{
  Db, Caller, Platform, JournalEntry, EntryWithLines, posted, conflict, unprocessable,
  already_reversed, is_a_reversal, already_posted,
}
use noryx_platform.Database.Tx.{err, Ensures, Ensures-map}
use noryx_platform.Journal.{ReverseJournalEntryDto, entry_key, mark_posted, reverse_in_tx, post}
use noryx_platform.Books.Shape.{Posts, post_shape, SameReference}
use noryx_platform.Books.Entries.{Accepts}
use noryx_platform.Books.Linked.{Reverses, reverse_in_tx-Reverses}

-- What the guards of a later call see.
abbrev HasRow : Caller → ℕ → Db → (JournalEntry → Type 0) → Type 0
HasRow c id db P = (e : JournalEntry) × (find (entry_key c id) db.journal_entries ≡ some e) × P e

module _ (p : Platform) (c : Caller) (id : ℕ) (dto : ReverseJournalEntryDto) (db : Db) where
  pub reversed_refused :
      (e : JournalEntry) (r : ℕ)
      → find (entry_key c id) db.journal_entries ≡ some e
      → e.status ≡ posted
      → e.reversed_by_journal_entry_id ≡ some r
      → reverse_in_tx p c id dto db ≡ err (conflict already_reversed)
  unfolding reverse_in_tx
  reversed_refused e r found st link = ground arith

  reversal_refused :
      (e : JournalEntry) (r : ℕ)
      → find (entry_key c id) db.journal_entries ≡ some e
      → e.status ≡ posted
      → e.reversed_by_journal_entry_id ≡ none
      → e.reversal_of_journal_entry_id ≡ some r
      → reverse_in_tx p c id dto db ≡ err (unprocessable is_a_reversal)
  unfolding reverse_in_tx
  reversal_refused e r found st link of = ground arith

posted_refused :
    (p : Platform) (c : Caller) (id : ℕ) (db : Db) (e : JournalEntry)
    → find (entry_key c id) db.journal_entries ≡ some e
    → e.status ≡ posted
    → post p c id db ≡ err (conflict already_posted)
unfolding post
posted_refused p c id db e found st = ground arith

-- After a post of an entry that succeeds, a second post of it is refused as already posted.
pub post_twice :
    (p p' : Platform) (c : Caller) (id : ℕ) (db : Db)
    → Ensures (λ r db'. post p' c id db' ≡ err (conflict already_posted)) (post p c id db)
unfolding mark_posted
post_twice p p' c id db =
    Ensures-map (λ r db'. Posts p c db db' r id)
      (λ r db'. post p' c id db' ≡ err (conflict already_posted)) (post p c id db)
      (λ r db' s.
        posted_refused p' c id db' _
          (ap (find (entry_key c id)) s.entries
            ∙ find-update_where (entry_key c id) (mark_posted p c _ _) db.journal_entries s.before
                (λ x. refl) s.found)
          refl)
      (post_shape p c db id)

-- After a reversal of an entry that succeeds, a second reversal of that entry is refused as
-- already reversed, and a reversal of the new entry is refused as being a reversal.
pub reverse_twice :
    (p p' : Platform) (c : Caller) (id : ℕ) (dto dto' : ReverseJournalEntryDto) (db : Db)
    → Ensures
        (λ r db'.
          (reverse_in_tx p' c id dto' db' ≡ err (conflict already_reversed))
          × (reverse_in_tx p' c r.entry.id dto' db' ≡ err (unprocessable is_a_reversal)))
        (reverse_in_tx p c id dto db)
reverse_twice p p' c id dto dto' db =
    Ensures-map
      (λ w db'.
        (original : EntryWithLines) × Accepts c id db db original
        × (original.entry.id ≡ id)
        × Reverses c original (or_else dto.transaction_date p.today) db' w
        × SameReference db db')
      _ (reverse_in_tx p c id dto db)
      (λ r db' s.
        let (original, a, here, w, same) = s in
        (
          ap (λ k. reverse_in_tx p' c k dto' db') (sym here)
              ∙ reversed_refused p' c original.entry.id dto' db' _ r.entry.id w.linked a.was_posted
                  refl,
          reversal_refused p' c r.entry.id dto' db' r.entry original.entry.id w.found w.is_posted
              w.not_reversed w.names,
        ))
      (reverse_in_tx-Reverses p c id dto db)
