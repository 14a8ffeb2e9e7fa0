-- ===== src/Periods/Refusals.antt =====
-- After accounting-periods.service.ts has closed a period, post() and reverse() of
-- journal-entries.service.ts refuse its days.
use noryx_platform.Common.{ℕ, ◌≡◌, refl, ap, sym, true, some, ◌∙◌, or_else, arith}
use mathlib.Core.Option.{some-injective}
use noryx_platform.Common.Rows.{find}
use noryx_platform.Database.{Db, Caller, Platform, AccountingPeriod, JournalEntry, open_period}
use noryx_platform.Database.Tx.{
  ok, with_tenant, with_tenant-keeps, Ensures-map, Ensures-bind, Refuses,
}
use noryx_platform.Journal.{
  ReverseJournalEntryDto, entry_key, covers, post, reverse_in_tx, resolve_and_lock_open_period,
  lock_and_validate_original_for_reversal,
}
use noryx_platform.Books.Shape.{Posts, post_shape}
use noryx_platform.Books.Entries.{Accepts, accept_shape, resolve_shape}
use noryx_platform.Periods.{open_key, mark_closed, close}
use noryx_platform.Periods.Calendar.{IsCalendar, close_then_locked, close_shape, Closes}

-- A closed period is not open.
shut :
    (p : Platform) (c : Caller) (q : AccountingPeriod)
    → (mark_closed p c q).status ≡ open_period
    → ⊥
unfolding mark_closed
shut p c q h = ground arith

post_refused :
    (p p' : Platform) (c : Caller) (k : ℕ) (e : JournalEntry) (q : AccountingPeriod) (db : Db)
    → find (entry_key c k) db.journal_entries ≡ some e
    → find (covers c e.transaction_date) db.accounting_periods ≡ some (mark_closed p' c q)
    → Refuses (post p c k db)
post_refused p p' c k e q db found there =
    Ensures-map (λ w db'. Posts p c db db' w k) (λ w db'. ⊥) (post p c k db)
      (λ w db' s.
        let same : s.before ≡ e = some-injective _ _ (sym s.found ∙ found) in
        let period : s.period ≡ mark_closed p' c q = some-injective _ _ (
          sym s.covered
          ∙ ap (λ (x : JournalEntry). find (covers c x.transaction_date) db.accounting_periods) same
          ∙ there) in
        shut p' c q (sym (ap (λ (x : AccountingPeriod). x.status) period) ∙ s.period_open))
      (post_shape p c db k)

reverse_refused :
    (p p' : Platform) (c : Caller) (k : ℕ) (dto : ReverseJournalEntryDto) (q : AccountingPeriod)
    (db : Db)
    → find (covers c (or_else dto.transaction_date p.today)) db.accounting_periods
      ≡ some (mark_closed p' c q)
    → Refuses (reverse_in_tx p c k dto db)
unfolding reverse_in_tx
reverse_refused p p' c k dto q db there =
    Ensures-bind (λ r db1. Accepts c k db db1 r) (λ w db'. ⊥)
      (lock_and_validate_original_for_reversal c k) _ db (accept_shape c k db)
      λ original db1 a. rw a.unchanged (
        Ensures-bind _ (λ w db'. ⊥)
          (resolve_and_lock_open_period c (or_else dto.transaction_date p.today)) _ db
          (resolve_shape c (or_else dto.transaction_date p.today) db)
          λ period db2 s. absurd (
            shut p' c q (
              sym (ap (λ (x : AccountingPeriod). x.status) (some-injective _ _ (sym s.1 ∙ there)))
              ∙ s.2)))

-- In a calendar without overlaps, closing a period of the caller's that is open succeeds, and then
-- neither post() of an entry dated on a day that the period covers returns, nor a reversal of any
-- entry when the date of the request, or else today, is such a day.
pub close_bars_postings :
    (p p' : Platform) (c : Caller) (id k : ℕ) (dto : ReverseJournalEntryDto) (e : JournalEntry)
    (q : AccountingPeriod) (db : Db)
    → IsCalendar db.accounting_periods
    → find (open_key c id) db.accounting_periods ≡ some q
    → find (entry_key c k) db.journal_entries ≡ some e
    → covers c e.transaction_date q ≡ true
    → covers c (or_else dto.transaction_date p'.today) q ≡ true
    → ((with_tenant (close p c id) db).0 ≡ ok (mark_closed p c q))
      × Refuses (post p' c k (with_tenant (close p c id) db).1)
      × ((n : ℕ) → Refuses (reverse_in_tx p' c n dto (with_tenant (close p c id) db).1))
close_bars_postings p p' c id k dto e q db h found entry on on' =
    let db' : Db = (with_tenant (close p c id) db).1 in
    let dated = close_then_locked p c id e.transaction_date q db h found on in
    let today = close_then_locked p c id (or_else dto.transaction_date p'.today) q db h found on' in
    let kept : db'.journal_entries ≡ db.journal_entries =
      with_tenant-keeps (λ (x : Db). x.journal_entries ≡ db.journal_entries) (close p c id) db refl
        (Ensures-map (λ r x. Closes p c id db x r) _ (close p c id db) (λ r x s. s.same_entries)
          (close_shape p c id db)) in
    (
      dated.0,
      post_refused p' p c k e q db' (ap (find (entry_key c k)) kept ∙ entry) dated.1,
      λ n. reverse_refused p' p c n dto q db' today.1,
    )
