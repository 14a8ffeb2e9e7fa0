-- ===== src/Books/Outcomes.antt =====
-- What post(), reverse() and a system-generated posting leave in the journal, column by column.
use noryx_platform.Common.{
  ℕ, ◌+◌, ◌≤◌, ◌≡◌, refl, sym, ap, ◌∙◌, true, none, some, List, [], ◌∷◌, ◌++◌, map, length, or_else,
}
use mathlib.Core.Option.{some-injective}
use mathlib.Core.Path.{subst}
use noryx_platform.Common.Decimal.{Text, codes}
use noryx_platform.Common.Rows.{find, find-update_where}
use noryx_platform.Database.{
  Db, Caller, Platform, AccountingPeriod, JournalEntry, JournalLine, EntryWithLines, draft, posted,
  open_period,
}
use noryx_platform.Database.Tx.{
  ok, Ensures, Ensures-map, Ensures-both, Achieves, Returns-Achieves, Answers-Returns,
}
use noryx_platform.Journal.{
  ReverseJournalEntryDto, entry_key, covers, lines_accepted, revalidate_lines_for_posting_or_throw,
  total_debit, total_credit, new_entry, mark_posted, number_lines, reversal_line, shown,
  journal_number_text, post, complete_reversal_posting, reverse_in_tx,
}
use noryx_platform.Books.Shape.{drawn, lines_at, Posts, post_shape}
use noryx_platform.Books.Counter.{last_number, next_number_self}
use noryx_platform.Books.Appended.{find-appended}
use noryx_platform.Books.Entries.{next_entry_id, Completes, complete_shape}
use noryx_platform.Books.Linked.{Reverses, complete-Reverses}
use noryx_platform.Books.Tables.{id-find}
use noryx_platform.Books.Success.{post-Answers, complete_succeeds, reverse_complete}

-- A stored entry, posted now by the caller in a period, with the number after the last one.
pub record IsEntered (p : Platform) (c : Caller) (period : ℕ) (db db' : Db) (e : JournalEntry)
    : Type 0 where
  pub stored : find (entry_key c e.id) db'.journal_entries ≡ some e
  pub is_posted : e.status ≡ posted
  pub number :
      e.journal_number ≡ some (journal_number_text (last_number c db.journal_number_counters + 1))
  pub in_period : e.period_id ≡ some period
  pub posted_now : e.posted_at ≡ some p.now
  pub posted_by_caller : e.posted_by ≡ c.actor_user_id

-- A debit of the amount and a credit of it, both of one entry.
pub record IsTransfer (id from to amount : ℕ) (lines : List JournalLine) : Type 0 where
  pub debit : JournalLine
  pub credit : JournalLine
  pub two : lines ≡ debit ∷ credit ∷ []
  pub owned : (debit.journal_entry_id ≡ id) × (credit.journal_entry_id ≡ id)
  pub accounts : (debit.account_id ≡ to) × (credit.account_id ≡ from)
  pub debited : (debit.debit_minor ≡ amount) × (debit.credit_minor ≡ 0)
  pub credited : (credit.debit_minor ≡ 0) × (credit.credit_minor ≡ amount)

-- A line of this entry on the same account and with the same classification, debit and credit
-- exchanged.
pub record IsMirror (id : ℕ) (l m : JournalLine) : Type 0 where
  pub owner : m.journal_entry_id ≡ id
  pub account : m.account_id ≡ l.account_id
  pub debit : m.debit_minor ≡ l.credit_minor
  pub credit : m.credit_minor ≡ l.debit_minor
  pub tax_code : m.tax_code_id ≡ l.tax_code_id
  pub direction : m.tax_direction ≡ l.tax_direction

abbrev pub Mirrors : ℕ → List JournalLine → List JournalLine → Type 0
Mirrors id [] [] = Unit
Mirrors id (l ∷ ls) (m ∷ ms) = IsMirror id l m × Mirrors id ls ms
Mirrors id [] (m ∷ ms) = ⊥
Mirrors id (l ∷ ls) [] = ⊥

number_lines-Mirrors :
    (c : Caller) (id k : ℕ) (ls : List JournalLine)
    → Mirrors id ls (number_lines c id k (map reversal_line ls))
unfolding number_lines reversal_line
number_lines-Mirrors c id k [] = tt
number_lines-Mirrors c id k (l ∷ ls) = (
  record {
    owner = refl;
    account = refl;
    debit = refl;
    credit = refl;
    tax_code = refl;
    direction = refl;
  },
  number_lines-Mirrors c id (k + 1) ls,
)

pub next-number :
    (c : Caller) (db : Db) → (drawn c db).0 ≡ last_number c db.journal_number_counters + 1
next-number c db = (next_number_self c db.journal_number_counters).0

-- What post() of this entry leaves.
pub record IsPosting (p : Platform) (c : Caller) (id : ℕ) (e : JournalEntry) (period : ℕ)
    (db db' : Db) (w : EntryWithLines) : Type 0 where
  pub entered : IsEntered p c period db db' w.entry
  pub same_id : w.entry.id ≡ id
  pub same_date : w.entry.transaction_date ≡ e.transaction_date
  pub same_currency : w.entry.currency_code ≡ e.currency_code
  pub lines : w.lines ≡ lines_at id db.journal_lines
  pub same_lines : db'.journal_lines ≡ db.journal_lines

-- A posted reversal of an entry on a date, with lines that mirror those of the original and are
-- the only ones added; original and reversal name each other.
pub record IsReversal (p : Platform) (c : Caller) (original : EntryWithLines) (date period : ℕ)
    (db db' : Db) (w : EntryWithLines) : Type 0 where
  pub entered : IsEntered p c period db db' w.entry
  pub reverses : Reverses c original date db' w
  pub currency : w.entry.currency_code ≡ original.entry.currency_code
  pub mirrored : Mirrors w.entry.id original.lines w.lines
  pub added : db'.journal_lines ≡ db.journal_lines ++ w.lines

-- What goes on without touching the journal leaves it so.
pub keep-IsReversal :
    (p : Platform) (c : Caller) (original : EntryWithLines) (date period : ℕ) (db db1 db2 : Db)
    (w : EntryWithLines)
    → db2.journal_entries ≡ db1.journal_entries
    → db2.journal_lines ≡ db1.journal_lines
    → IsReversal p c original date period db db1 w
    → IsReversal p c original date period db db2 w
keep-IsReversal p c original date period db db1 db2 w es ls h = record {
  entered = record {
    stored = ap (find (entry_key c w.entry.id)) es ∙ h.entered.stored;
    is_posted = h.entered.is_posted;
    number = h.entered.number;
    in_period = h.entered.in_period;
    posted_now = h.entered.posted_now;
    posted_by_caller = h.entered.posted_by_caller;
  };
  reverses = record {
    linked = ap (find (entry_key c original.entry.id)) es ∙ h.reverses.linked;
    found = ap (find (entry_key c w.entry.id)) es ∙ h.reverses.found;
    is_posted = h.reverses.is_posted;
    dated = h.reverses.dated;
    names = h.reverses.names;
    not_reversed = h.reverses.not_reversed;
  };
  currency = h.currency;
  mirrored = h.mirrored;
  added = ls ∙ h.added;
}

module _ (p : Platform) (c : Caller) (db : Db) where
  pub complete-IsReversal :
      (original : EntryWithLines) (period : AccountingPeriod) (date : ℕ) (memo : Text)
      → find (entry_key c original.entry.id) db.journal_entries ≡ some original.entry
      → Ensures
          (λ w db'. IsReversal p c original date period.id db db' w)
          (complete_reversal_posting p c original period date memo db)
  unfolding new_entry mark_posted
  complete-IsReversal original period date memo found =
      Ensures-map _ (λ w db'. IsReversal p c original date period.id db db' w)
        (complete_reversal_posting p c original period date memo db)
        (λ w db' s.
          let id = next_entry_id p db in
          let e≡ : w.entry
              ≡ mark_posted p c (journal_number_text (drawn c db).0) period.id (
                  new_entry p c id date original.entry.currency_code (some memo)
                    (some original.entry.id)) =
            some-injective _ _ (
              sym s.0.entry
              ∙ find-appended p c db date original.entry.currency_code memo (some original.entry.id)
                  period) in
          record {
            entered = record {
              stored = s.1.0.found;
              is_posted = s.1.0.is_posted;
              number =
                  ap (λ e. e.journal_number) e≡
                  ∙ ap (λ n. some (journal_number_text n)) (next-number c db);
              in_period = ap (λ e. e.period_id) e≡;
              posted_now = ap (λ e. e.posted_at) e≡;
              posted_by_caller = ap (λ e. e.posted_by) e≡;
            };
            reverses = s.1.0;
            currency = ap (λ e. e.currency_code) e≡;
            mirrored =
                rw (s.0.rows, ap (λ (e : JournalEntry). e.id) e≡)
                  (number_lines-Mirrors c id 0 original.lines);
            added = s.0.lines ∙ ap (λ t. db.journal_lines ++ t) (sym s.0.rows);
          })
        (Ensures-both (λ w db'. Completes p c db db' w original period date memo) _ _
          (complete_shape p c db original period date memo)
          (complete-Reverses p c db original period date memo found))

  pub complete-Achieves :
      (original : EntryWithLines) (q : AccountingPeriod) (date : ℕ) (memo : Text)
      → find (entry_key c original.entry.id) db.journal_entries ≡ some original.entry
      → lines_accepted db.chart_of_accounts db.tax_codes (map reversal_line original.lines) ≡ true
      → Achieves
          (λ w db'. IsReversal p c original date q.id db db' w)
          (complete_reversal_posting p c original q date memo db)
  complete-Achieves original q date memo own accepted =
      Returns-Achieves (λ w db'. IsReversal p c original date q.id db db' w)
        (complete_reversal_posting p c original q date memo db)
        (Answers-Returns _ (complete_reversal_posting p c original q date memo db)
          (complete_succeeds p c original q date memo db own accepted))
        (complete-IsReversal original q date memo own)

  -- When the entry with this id in the caller's scope is a draft with at least two lines, as much
  -- debit as credit, accounts and tax codes that pass the check, and an open period on its date,
  -- post() returns: the stored entry has the id, the date and the currency of the draft, is
  -- posted, by the caller and in that period, and has the number after the last one of the scope;
  -- the lines are answered and left as they were.
  pub post_succeeds :
      (id : ℕ) (e : JournalEntry) (q : AccountingPeriod)
      → find (entry_key c id) db.journal_entries ≡ some e
      → e.status ≡ draft
      → 2 ≤ length (lines_at id db.journal_lines)
      → total_debit (lines_at id db.journal_lines) ≡ total_credit (lines_at id db.journal_lines)
      → revalidate_lines_for_posting_or_throw c (lines_at id db.journal_lines) db ≡ ok (tt, db)
      → find (covers c e.transaction_date) db.accounting_periods ≡ some q
      → q.status ≡ open_period
      → Achieves (λ w db'. IsPosting p c id e q.id db db' w) (post p c id db)
  unfolding mark_posted
  post_succeeds id e q found d n even valid cover open_ =
      Returns-Achieves (λ w db'. IsPosting p c id e q.id db db' w) (post p c id db)
        (Answers-Returns _ (post p c id db)
          (post-Answers p c id e q db found d n even valid cover open_))
        (Ensures-map (λ w db'. Posts p c db db' w id) (λ w db'. IsPosting p c id e q.id db db' w)
          (post p c id db)
          (λ w db' s.
            let before≡ : s.before ≡ e = some-injective _ _ (sym s.found ∙ found) in
            let period≡ : s.period ≡ q = some-injective _ _ (
              sym s.covered
              ∙ ap (λ (x : JournalEntry). find (covers c x.transaction_date) db.accounting_periods)
                  before≡
              ∙ cover) in
            let e≡ : w.entry ≡ mark_posted p c (journal_number_text (drawn c db).0) s.period.id e =
              some-injective _ _ (
                sym s.entry
                ∙ ap (find (entry_key c id)) s.entries
                ∙ find-update_where (entry_key c id) (mark_posted p c _ s.period.id)
                    db.journal_entries e (λ x. refl) found) in
            let same : w.entry.id ≡ id =
              ap (λ x. x.id) e≡ ∙ id-find c id db.journal_entries e found in
            record {
              entered = record {
                stored = ap (λ k. find (entry_key c k) db'.journal_entries) same ∙ s.entry;
                is_posted = ap (λ x. x.status) e≡;
                number =
                    ap (λ x. x.journal_number) e≡
                    ∙ ap (λ k. some (journal_number_text k)) (next-number c db);
                in_period =
                    ap (λ x. x.period_id) e≡ ∙ ap (λ (x : AccountingPeriod). some x.id) period≡;
                posted_now = ap (λ x. x.posted_at) e≡;
                posted_by_caller = ap (λ x. x.posted_by) e≡;
              };
              same_id = same;
              same_date = ap (λ x. x.transaction_date) e≡;
              same_currency = ap (λ x. x.currency_code) e≡;
              lines = s.rows;
              same_lines = s.lines;
            })
          (post_shape p c db id))

  -- When the entry with this id in the caller's scope is posted, neither reversed nor itself a
  -- reversal, the constraints of the table of lines accept its lines with debit and credit
  -- exchanged, and an open period covers the date of the request or else today, a reversal
  -- returns: a stored entry on that date is posted, by the caller and in that period, with the
  -- number after the last one of the scope; it names the original, which names it; and the lines
  -- that it adds are the original's, in order, with debit and credit exchanged.
  pub reverse_succeeds :
      (id : ℕ) (dto : ReverseJournalEntryDto) (e : JournalEntry) (q : AccountingPeriod)
      → find (entry_key c id) db.journal_entries ≡ some e
      → e.status ≡ posted
      → e.reversed_by_journal_entry_id ≡ none
      → e.reversal_of_journal_entry_id ≡ none
      → lines_accepted db.chart_of_accounts db.tax_codes
          (map reversal_line (lines_at id db.journal_lines))
        ≡ true
      → find (covers c (or_else dto.transaction_date p.today)) db.accounting_periods ≡ some q
      → q.status ≡ open_period
      → Achieves
          (λ w db'.
            IsReversal p c
              (record { entry = e; lines = lines_at id db.journal_lines })
              (or_else dto.transaction_date p.today)
              q.id
              db
              db'
              w)
          (reverse_in_tx p c id dto db)
  reverse_succeeds id dto e q found st free new accepted cover open_ =
      let date = or_else dto.transaction_date p.today in
      let memo = or_else dto.memo (codes "Reversal of " ++ shown e.journal_number) in
      let here : e.id ≡ id = id-find c id db.journal_entries e found in
      let own : find (entry_key c e.id) db.journal_entries ≡ some e =
        ap (λ k. find (entry_key c k) db.journal_entries) here ∙ found in
      let original : EntryWithLines = record { entry = e; lines = lines_at id db.journal_lines } in
      subst (Achieves (λ w db'. IsReversal p c original date q.id db db' w))
        (sym (reverse_complete p c id dto e q db found st free new cover open_))
        (complete-Achieves original q date memo own accepted)
