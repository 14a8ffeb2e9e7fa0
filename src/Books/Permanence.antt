-- ===== src/Books/Permanence.antt =====
-- What drizzle/constraints/003_journal_entries_immutability_trigger.sql and
-- 004_journal_lines_immutability_trigger.sql ask of every statement: a posted entry stays as it
-- is but for the one link to its reversal, and its lines do not change at all.
use mathlib.Core.List.{append-nil}
use noryx_platform.Common.{
  ℕ, ◌≡◌, refl, ap, ◌∙◌, true, false, none, some, List, [], ◌∷◌, ◌++◌, arith, ◌==◌, Bool-cases, inl,
  inr, ◌⊎◌, if◌then◌else◌,
}
use noryx_platform.Common.Rows.{
  find-update_if, select, find, exists, update_where, delete_where, find_holds, exists-find,
  All-find, find-append_some, find-delete_ne,
}
use noryx_platform.Database.{Caller, JournalEntry, JournalLine, draft, posted}
use noryx_platform.Journal.{CreateJournalLineDto, entry_key, line_of, number_lines}
use noryx_platform.Books.Tables.{
  has_id, IsUnique, IsOnlyAt-find, select-append, select-number_lines_ne, select-delete_ne,
}

-- The one change that the trigger lets through, or none.
abbrev pub LinkedOnce : JournalEntry → JournalEntry → Type 0
LinkedOnce e e' =
    (e' ≡ e)
    ⊎ ((e.reversed_by_journal_entry_id ≡ none)
        × ((r : ℕ) × (e' ≡ record e { reversed_by_journal_entry_id = some r })))

pub record Preserves (es : List JournalEntry) (ls : List JournalLine) (es' : List JournalEntry)
    (ls' : List JournalLine) : Type 0 where
  pub kept :
      (id : ℕ) (e : JournalEntry)
      → find (has_id id) es ≡ some e
      → e.status ≡ posted
      → (e' : JournalEntry) × (find (has_id id) es' ≡ some e')
        × LinkedOnce e e'
        × (select (line_of id) ls' ≡ select (line_of id) ls)

find-update_at :
    (c : Caller) (id j : ℕ) (f : JournalEntry → JournalEntry) (es : List JournalEntry)
    (e : JournalEntry)
    → ((x : JournalEntry) → (f x).id ≡ x.id)
    → find (has_id j) es ≡ some e
    → find (has_id j) (update_where (entry_key c id) f es)
      ≡ some (if entry_key c id e then f e else e)
find-update_at c id j f es e k h =
    find-update_if (has_id j) (entry_key c id) f es e (λ x. ap (λ (n : ℕ). n == j) (k x)) h

module _ (c : Caller) (es : List JournalEntry) (u : IsUnique es) where
  -- The draft that an operation works on is not a posted entry.
  pub draft_elsewhere :
      (id j : ℕ) (before e : JournalEntry)
      → find (entry_key c id) es ≡ some before
      → before.status ≡ draft
      → find (has_id j) es ≡ some e
      → e.status ≡ posted
      → (id == j) ≡ false
  draft_elsewhere id j before e found d there p = elim (Bool-cases (id == j)) [
    | inl t ↦
        let at : (e.id == j) ≡ true = find_holds (has_id j) es e there in
        let same : e ≡ before =
          All-find (λ x. (x.id == id) ≡ true → x ≡ before) (has_id j) es e
            (IsOnlyAt-find c id es before u found) there (ground arith) in
        let d' : e.status ≡ draft = ap (λ x. x.status) same ∙ d in cc
    | inr t ↦ t
  ]

  new_elsewhere :
      (id j : ℕ) (e : JournalEntry)
      → exists (has_id id) es ≡ false
      → find (has_id j) es ≡ some e
      → (id == j) ≡ false
  new_elsewhere id j e new there = elim (Bool-cases (id == j)) [
    | inl t ↦
        let at : (e.id == j) ≡ true = find_holds (has_id j) es e there in
        let used : exists (has_id id) es ≡ true =
          exists-find (has_id j) (has_id id) es e there (ground arith) in
        cc
    | inr t ↦ t
  ]

  module _ (ls : List JournalLine) where
    -- An update of a draft's row, with any change of that entry's lines.
    pub Preserves-draft :
        (id : ℕ) (before : JournalEntry) (f : JournalEntry → JournalEntry) (ls' : List JournalLine)
        → find (entry_key c id) es ≡ some before
        → before.status ≡ draft
        → ((x : JournalEntry) → (f x).id ≡ x.id)
        → ((j : ℕ) → (id == j) ≡ false → select (line_of j) ls' ≡ select (line_of j) ls)
        → Preserves es ls (update_where (entry_key c id) f es) ls'
    Preserves-draft id before f ls' found d k same = record {
      kept = λ j e there p.
          let ne : (id == j) ≡ false = draft_elsewhere id j before e found d there p in
          let at : (e.id == j) ≡ true = find_holds (has_id j) es e there in
          let off : entry_key c id e ≡ false = ground arith in
          (e, find-update_at c id j f es e k there ∙ rw off, inl refl, same j ne);
    }

    pub Preserves-delete :
        (id : ℕ) (before : JournalEntry)
        → find (entry_key c id) es ≡ some before
        → before.status ≡ draft
        → Preserves es ls (delete_where (entry_key c id) es) (delete_where (line_of id) ls)
    Preserves-delete id before found d = record {
      kept = λ j e there p.
          let ne : (id == j) ≡ false = draft_elsewhere id j before e found d there p in
          (
            e,
            find-delete_ne (has_id j) (entry_key c id) es (λ x t. ground arith) ∙ there,
            inl refl,
            select-delete_ne id j ls ne,
          );
    }

    pub Preserves-insert :
        (x : JournalEntry) (dtos : List CreateJournalLineDto)
        → exists (has_id x.id) es ≡ false
        → Preserves es ls (es ++ x ∷ []) (ls ++ number_lines c x.id 0 dtos)
    Preserves-insert x dtos new = record {
      kept = λ j e there p. (
        e,
        find-append_some (has_id j) es (x ∷ []) e there,
        inl refl,
        select-append (line_of j) ls (number_lines c x.id 0 dtos)
            ∙ ap (λ t. select (line_of j) ls ++ t)
                (select-number_lines_ne c x.id j 0 dtos (new_elsewhere x.id j e new there))
            ∙ append-nil (select (line_of j) ls),
      );
    }

    -- The insert of an entry that is posted at once leaves the others as they are.
    pub untouched-insert_posted :
        (x : JournalEntry) (dtos : List CreateJournalLineDto) (f : JournalEntry → JournalEntry)
        → exists (has_id x.id) es ≡ false
        → ((y : JournalEntry) → (f y).id ≡ y.id)
        → (j : ℕ) (e : JournalEntry) → find (has_id j) es ≡ some e
        → e.status ≡ posted
        → (find (has_id j) (update_where (entry_key c x.id) f (es ++ x ∷ [])) ≡ some e)
          × (select (line_of j) (ls ++ number_lines c x.id 0 dtos) ≡ select (line_of j) ls)
    untouched-insert_posted x dtos f new k j e there p =
        let (e', found, linked, lines) = (Preserves-insert x dtos new).kept j e there p in
        let ne : (x.id == j) ≡ false = new_elsewhere x.id j e new there in
        let at : (e.id == j) ≡ true = find_holds (has_id j) es e there in
        let off : entry_key c x.id e ≡ false = ground arith in
        (
          find-update_at c x.id j f (es ++ x ∷ []) e k
                (find-append_some (has_id j) es (x ∷ []) e there)
              ∙ rw off,
          lines,
        )

-- The link of an entry that has none, after statements that left all posted entries alone.
pub Preserves-link :
    (c : Caller) (es : List JournalEntry) (ls : List JournalLine) (es1 : List JournalEntry)
    (ls1 : List JournalLine) (id r : ℕ) (original : JournalEntry)
    → IsUnique es
    → find (entry_key c id) es ≡ some original
    → original.reversed_by_journal_entry_id ≡ none
    → ((j : ℕ) (e : JournalEntry)
        → find (has_id j) es ≡ some e
        → e.status ≡ posted
        → (find (has_id j) es1 ≡ some e) × (select (line_of j) ls1 ≡ select (line_of j) ls))
    → Preserves es ls
        (update_where
          (entry_key c id)
          (λ e. record e { reversed_by_journal_entry_id = some r })
          es1)
        ls1
Preserves-link c es ls es1 ls1 id r original u found open_link same = record {
  kept = λ j e there p.
      let (there1, lines) = same j e there p in
      let at : (e.id == j) ≡ true = find_holds (has_id j) es e there in
      elim (Bool-cases (entry_key c id e)) [
        | inl t ↦
            let e≡ : e ≡ original =
              All-find (λ x. (x.id == id) ≡ true → x ≡ original) (has_id j) es e
                (IsOnlyAt-find c id es original u found) there (ground arith) in
            (
              record e { reversed_by_journal_entry_id = some r },
              find-update_at c id j _ es1 e (λ x. refl) there1 ∙ rw t,
              inr (ap (λ x. x.reversed_by_journal_entry_id) e≡ ∙ open_link, (r, refl)),
              lines,
            )
        | inr t ↦ (e, find-update_at c id j _ es1 e (λ x. refl) there1 ∙ rw t, inl refl, lines)
      ];
}
