-- ===== src/Service/Step.antt =====
-- The invariant of the whole set of books, and what one request may do to it.
use noryx_platform.Common.{◌≡◌, refl, sym, ap, ◌∙◌, some, inl, inr, List}
use noryx_platform.Common.Rows.{find, select}
use noryx_platform.Database.{Db, AuditLog, JournalEntry}
use noryx_platform.Database.Tx.{Result, ok, err, Tx, Ensures, Ensures-map, with_tenant}
use noryx_platform.Books.Tables.{has_id}
use noryx_platform.Books.DoubleEntry.{IsSound}
use noryx_platform.Books.Register.{IsRegister}
use noryx_platform.Books.Permanence.{LinkedOnce}
use noryx_platform.Books.History.{KeepsPosted}
use noryx_platform.Periods.Calendar.{IsCalendar}

-- Keys and double entry, the numbering, and the calendar of periods.
pub record IsBooks (db : Db) : Type 0 where
  pub sound : IsSound db
  pub register : IsRegister db
  pub calendar : IsCalendar db.accounting_periods

pub record BooksStep (db db' : Db) : Type 0 where
  pub books : IsBooks db'
  pub keeps : KeepsPosted db db'

-- A step that leaves the journal alone.
pub record SameJournal (db db' : Db) : Type 0 where
  pub entries : db'.journal_entries ≡ db.journal_entries
  pub lines : db'.journal_lines ≡ db.journal_lines
  pub counters : db'.journal_number_counters ≡ db.journal_number_counters
  pub periods : db'.accounting_periods ≡ db.accounting_periods

pub SameJournal-trans :
    (db db' db'' : Db) → SameJournal db db' → SameJournal db' db'' → SameJournal db db''
SameJournal-trans db db' db'' h k = record {
  entries = k.entries ∙ h.entries;
  lines = k.lines ∙ h.lines;
  counters = k.counters ∙ h.counters;
  periods = k.periods ∙ h.periods;
}

pub SameJournal-audited :
    (db db' : Db) (logs : List AuditLog)
    → SameJournal db db'
    → SameJournal db (record db' { audit_logs = logs })
SameJournal-audited db db' logs h = record {
  entries = h.entries;
  lines = h.lines;
  counters = h.counters;
  periods = h.periods;
}

pub KeepsPosted-same :
    (db db' : Db)
    → db'.journal_entries ≡ db.journal_entries
    → db'.journal_lines ≡ db.journal_lines
    → KeepsPosted db db'
KeepsPosted-same db db' e l = record {
  kept = λ id x found p. (x, ap (find (has_id id)) e ∙ found, inl refl, ap (select _) l);
}

LinkedOnce-trans :
    (e e' e'' : JournalEntry) → LinkedOnce e e' → LinkedOnce e' e'' → LinkedOnce e e''
LinkedOnce-trans e e' e'' (inl same) (inl same') = inl (same' ∙ same)
LinkedOnce-trans e e' e'' (inl same) (inr (free, (r, link))) = inr (
  ap (λ x. x.reversed_by_journal_entry_id) (sym same) ∙ free,
  (r, link ∙ ap (λ (x : JournalEntry). record x { reversed_by_journal_entry_id = some r }) same),
)
LinkedOnce-trans e e' e'' (inr (free, (r, link))) (inl same) = inr (free, (r, same ∙ link))
LinkedOnce-trans e e' e'' (inr (free, (r, link))) (inr (free', (r', link'))) =
    let taken : e'.reversed_by_journal_entry_id ≡ some r =
      ap (λ x. x.reversed_by_journal_entry_id) link in
    absurd (cc)

status-LinkedOnce : (e e' : JournalEntry) → LinkedOnce e e' → e'.status ≡ e.status
status-LinkedOnce e e' (inl same) = ap (λ x. x.status) same
status-LinkedOnce e e' (inr (free, (r, link))) = ap (λ x. x.status) link

pub KeepsPosted-trans :
    (db db' db'' : Db) → KeepsPosted db db' → KeepsPosted db' db'' → KeepsPosted db db''
KeepsPosted-trans db db' db'' h k = record {
  kept = λ id e found p.
      let (e', found', linked, lines) = h.kept id e found p in
      let (e'', found'', linked', lines') =
        k.kept id e' found' (status-LinkedOnce e e' linked ∙ p) in
      (e'', found'', LinkedOnce-trans e e' e'' linked linked', lines' ∙ lines);
}

pub BooksStep-refl : (db : Db) → IsBooks db → BooksStep db db
BooksStep-refl db h = record { books = h; keeps = KeepsPosted-same db db refl refl }

pub BooksStep-trans : (db db' db'' : Db) → BooksStep db db' → BooksStep db' db'' → BooksStep db db''
BooksStep-trans db db' db'' h k = record {
  books = k.books;
  keeps = KeepsPosted-trans db db' db'' h.keeps k.keeps;
}

pub BooksStep-same : (db db' : Db) → IsBooks db → SameJournal db db' → BooksStep db db'
BooksStep-same db db' h s = record {
  books = record {
    sound = rw (s.entries, s.lines) h.sound;
    register = rw (s.entries, s.counters) h.register;
    calendar = rw s.periods h.calendar;
  };
  keeps = KeepsPosted-same db db' s.entries s.lines;
}

-- Such a step, with what goes on and leaves the journal alone.
pub BooksStep-then :
    {A : Type 0} (db db' : Db) (r : Result (A × Db))
    → BooksStep db db'
    → Ensures (λ a db''. SameJournal db' db'') r
    → Ensures (λ a db''. BooksStep db db'') r
BooksStep-then db db' r step e =
    Ensures-map (λ a db''. SameJournal db' db'') (λ a db''. BooksStep db db'') r
      (λ a db'' s. BooksStep-trans db db' db'' step (BooksStep-same db' db'' step.books s)) e

-- A transaction either commits such a step or is rolled back.
pub with_tenant-BooksStep :
    {A : Type 0} (m : Tx A) (db : Db)
    → IsBooks db
    → Ensures (λ a db'. BooksStep db db') (m db)
    → BooksStep db (with_tenant m db).1
unfolding with_tenant
with_tenant-BooksStep {A = A} m db h e = go (m db) refl e
  where
    go :
        (r : Result (A × Db))
        → m db ≡ r
        → Ensures (λ a db'. BooksStep db db') r
        → BooksStep db (with_tenant m db).1
    go (ok (a, db')) q s = rw (q, with_tenant) s
    go (err x) q s = rw (q, with_tenant) (BooksStep-refl db h)
