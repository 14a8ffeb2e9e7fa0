-- ===== src/Settlement/Reversed.antt =====
-- What a document shows of the reversal of its journal entry: resolveReversalInfo() after a
-- reversal.
use mathlib.Core.Option.{some-injective}
use noryx_platform.Books.Shape.{drawn}
use noryx_platform.Journal.{
  journal_number_text, ReverseJournalEntryDto, reverse_in_tx,
  lock_and_validate_original_for_reversal, resolve_and_lock_open_period, entry_key, entry_ids,
  new_entry, mark_posted, complete_reversal_posting,
}
use noryx_platform.Common.{
  if◌then◌else◌, ℕ, ◌≡◌, refl, sym, ap, ◌∙◌, Bool, true, false, ◌==◌, some, none, List, [], ◌∷◌,
  ◌++◌, arith, Bool-cases, inl, inr,
}
use noryx_platform.Settlement.{
  reversal_of, reversal_at, info_or_none, info_of, resolve_reversal_info,
}
use noryx_platform.Books.Entries.{
  Accepts, accept_shape, resolve_shape, next_entry_id, appended, Completes, complete_shape,
}
use noryx_platform.Database.Tx.{Ensures-bind, ok, Ensures, Ensures-map}
use noryx_platform.Common.Decimal.{Text}
use noryx_platform.Common.Rows.{
  find, exists, find-update_if, find-update_ne, find-append_none, find-append_some, find_holds,
  exists-find,
}
use noryx_platform.Database.{Db, Caller, Platform, AccountingPeriod, JournalEntry, EntryWithLines}
use noryx_platform.Books.Tables.{has_id, IsUnique, exists-entry_ids, id-find}
use noryx_platform.Books.Appended.{find-appended}
use noryx_platform.Books.Linked.{ids_differ}

find-has_id :
    (c : Caller) (id : ℕ) (es : List JournalEntry) (e : JournalEntry)
    → IsUnique es
    → find (entry_key c id) es ≡ some e
    → find (has_id id) es ≡ some e
find-has_id c id [] e u h = absurd (cc)
find-has_id c id (x ∷ es) e u h = elim (Bool-cases (entry_key c id x)) [
  | inl t ↦ let here : (x.id == id) ≡ true = ground arith in rw here (ground (arith, h, t))
  | inr n ↦
      let later : find (entry_key c id) es ≡ some e = ground arith in
      let other : (x.id == id) ≡ false = elsewhere later in
      rw other (find-has_id c id es e u.1 later)
]
  where
    elsewhere : find (entry_key c id) es ≡ some e → (x.id == id) ≡ false
    elsewhere later = elim (Bool-cases (x.id == id)) [
      | inl t ↦
          let key : entry_key c id e ≡ true = find_holds (entry_key c id) es e later in
          let twice : exists (has_id x.id) es ≡ true =
            exists-find (entry_key c id) (has_id x.id) es e later (ground arith) in
          let once : exists (has_id x.id) es ≡ false = u.0 in absurd (cc)
      | inr n ↦ n
    ]

find-unused :
    (id : ℕ) (es : List JournalEntry) → exists (has_id id) es ≡ false → find (has_id id) es ≡ none
find-unused id [] h = refl
find-unused id (x ∷ es) h = ground (arith, find-unused id es)

module _ (p : Platform) (c : Caller) (db : Db) (u : IsUnique db.journal_entries) where
  completed :
      (original : EntryWithLines) (period : AccountingPeriod) (date : ℕ) (memo : Text)
      → find (entry_key c original.entry.id) db.journal_entries ≡ some original.entry
      → Ensures
          (λ r db'.
            resolve_reversal_info (some original.entry.id) db' ≡ ok (some (info_of r.entry), db'))
          (complete_reversal_posting p c original period date memo db)
  unfolding new_entry mark_posted resolve_reversal_info
  completed original period date memo found =
      Ensures-map (λ r db'. Completes p c db db' r original period date memo)
        (λ r db'.
          resolve_reversal_info (some original.entry.id) db' ≡ ok (some (info_of r.entry), db'))
        (complete_reversal_posting p c original period date memo db)
        (λ r db' s.
          let id : ℕ = original.entry.id in
          let next : ℕ = next_entry_id p db in
          let row = new_entry p c next date original.entry.currency_code (some memo) (some id) in
          let link =
            λ (e : JournalEntry). record e { reversed_by_journal_entry_id = some r.entry.id } in
          let e≡ : r.entry ≡ mark_posted p c _ _ row = some-injective _ _ (
            sym s.entry
            ∙ find-appended p c db date original.entry.currency_code memo (some id) period) in
          let rid : r.entry.id ≡ next = ap (λ e. e.id) e≡ in
          let ne : (id == next) ≡ false = ids_differ p c db id original.entry found in
          let unused : exists (has_id next) db.journal_entries ≡ false =
            exists-entry_ids next db.journal_entries
              (p.new_id_fresh (entry_ids db.journal_entries)) in
          let key : entry_key c id original.entry ≡ true =
            find_holds (entry_key c id) db.journal_entries original.entry found in
          let there : find (has_id id) db'.journal_entries ≡ some (link original.entry) =
            ap (find (has_id id)) s.entries
            ∙ find-update_if (has_id id) (entry_key c id) link (appended p c db row period)
                original.entry (λ x. refl)
                (find-update_ne (has_id id) (entry_key c next) (mark_posted p c _ _)
                    (db.journal_entries ++ row ∷ []) (λ x. refl) (λ x t. ground arith)
                  ∙ find-append_some (has_id id) db.journal_entries (row ∷ []) original.entry
                      (find-has_id c id db.journal_entries original.entry u found))
            ∙ rw key in
          let own : entry_key c next row ≡ true = ground arith in
          let new : find (has_id next) db'.journal_entries ≡ some r.entry =
            ap (find (has_id next)) s.entries
            ∙ find-update_ne (has_id next) (entry_key c id) link (appended p c db row period)
                (λ x. refl) (λ x t. ground arith)
            ∙ find-update_if (has_id next) (entry_key c next) (mark_posted p c _ _)
                (db.journal_entries ++ row ∷ []) row (λ x. refl)
                (find-append_none (has_id next) db.journal_entries (row ∷ [])
                    (find-unused next db.journal_entries unused)
                  ∙ ground arith)
            ∙ ap
                (λ (b : Bool). some (
                  if b
                  then mark_posted p c (journal_number_text (drawn c db).0) period.id row
                  else row))
                own
            ∙ ap some (sym e≡) in
          ap (λ o. ok (reversal_of o db'.journal_entries, db')) there
          ∙ ap (λ k. ok (reversal_at (some k) db'.journal_entries, db')) rid
          ∙ ap (λ o. ok (info_or_none o, db')) new)
        (complete_shape p c db original period date memo)

-- When ids are unique, after a reversal of an entry that succeeds resolveReversalInfo() shows for
-- that entry exactly the new entry: its id, number, date and posting.
pub reverse_in_tx-resolve_reversal_info :
    (p : Platform) (c : Caller) (id : ℕ) (dto : ReverseJournalEntryDto) (db : Db)
    → IsUnique db.journal_entries
    → Ensures
        (λ r db'. resolve_reversal_info (some id) db' ≡ ok (some (info_of r.entry), db'))
        (reverse_in_tx p c id dto db)
unfolding reverse_in_tx
reverse_in_tx-resolve_reversal_info p c id dto db u =
    Ensures-bind (λ r db'. Accepts c id db db' r) _ (lock_and_validate_original_for_reversal c id) _
      db (accept_shape c id db)
      λ original db1 a.
        Ensures-bind (λ period db2. db2 ≡ db) _ (resolve_and_lock_open_period c _) _ db1
          (Ensures-map _ (λ period db2. db2 ≡ db) _ (λ period db2 r. r.0 ∙ a.unchanged)
            (resolve_shape c _ db1))
          λ period db2 e2.
            let here : original.entry.id ≡ id =
              id-find c id db.journal_entries original.entry a.found in
            let found : find (entry_key c original.entry.id) db2.journal_entries
                ≡ some original.entry =
              ap (λ d. find (entry_key c original.entry.id) d.journal_entries) e2
              ∙ ap (λ k. find (entry_key c k) db.journal_entries) here
              ∙ a.found in
            Ensures-map
              (λ r db'.
                resolve_reversal_info (some original.entry.id) db'
                ≡ ok (some (info_of r.entry), db'))
              (λ r db'. resolve_reversal_info (some id) db' ≡ ok (some (info_of r.entry), db')) _
              (λ r db' shown. ap (λ k. resolve_reversal_info (some k) db') (sym here) ∙ shown)
              (completed p c db2 (rw e2 u) original period _ _ found)
