-- ===== src/Books/Statements.antt =====
-- The groups of statements that the operations run, on a ledger: new lines, deleted lines, a
-- deleted draft, and a new entry that is posted at once.
use noryx_platform.Common.{
  ℕ, ◌+◌, ◌≤◌, ◌≡◌, sym, ap, ◌∙◌, Bool, true, false, List, [], ◌∷◌, ◌++◌, arith, ◌==◌, Bool-cases,
  inl, inr, length, sum, All, All-append,
}
use mathlib.Core.List.{append-nil}
use noryx_platform.Common.Rows.{select, exists, update_where, delete_where, exists-append}
use noryx_platform.Database.{Caller, JournalEntry, JournalLine, draft}
use noryx_platform.Journal.{CreateJournalLineDto, entry_key, line_of, number_lines}
use noryx_platform.Books.Tables.{
  has_id, IsOwned, IsDraftAt, IsDraftAt-absent, select-append, select-number_lines_ne,
  select-number_lines_self, select-delete_ne, select-unowned, sum-number_lines, length-number_lines,
}
use noryx_platform.Books.Ledger.{
  Balances, IsLedger, IsLedger-insert, IsLedger-update_where, IsLedger-lines,
}

IsOwned-number_lines :
    (c : Caller) (es : List JournalEntry) (id k : ℕ) (dtos : List CreateJournalLineDto)
    → exists (has_id id) es ≡ true
    → All (IsOwned es) (number_lines c id k dtos)
unfolding number_lines
IsOwned-number_lines c es id k [] h = tt
IsOwned-number_lines c es id k (l ∷ ls) h = (h, IsOwned-number_lines c es id (k + 1) ls h)

pub All-delete_where :
    {A : Type 0} (P : A → Type 0) (p : A → Bool) (xs : List A)
    → All P xs
    → All P (delete_where p xs)
All-delete_where P p [] h = tt
All-delete_where P p (x ∷ xs) h = elim (Bool-cases (p x)) [
  | inl t ↦ rw t (All-delete_where P p xs h.1)
  | inr t ↦ rw t (h.0, All-delete_where P p xs h.1)
]

module _ (c : Caller) (es : List JournalEntry) (ls : List JournalLine) (h : IsLedger es ls) (id : ℕ)
    (d : IsDraftAt id es) where
  pub IsLedger-insert_lines :
      (k : ℕ) (dtos : List CreateJournalLineDto)
      → exists (has_id id) es ≡ true
      → IsLedger es (ls ++ number_lines c id k dtos)
  IsLedger-insert_lines k dtos present =
      IsLedger-lines es ls h (ls ++ number_lines c id k dtos) id
        (All-append (IsOwned es) ls (number_lines c id k dtos) h.owned
          (IsOwned-number_lines c es id k dtos present))
        d
        λ j ne.
          select-append (line_of j) ls (number_lines c id k dtos)
          ∙ ap (λ t. select (line_of j) ls ++ t) (select-number_lines_ne c id j k dtos ne)
          ∙ append-nil (select (line_of j) ls)

  pub IsLedger-delete_lines : IsLedger es (delete_where (line_of id) ls)
  IsLedger-delete_lines =
      IsLedger-lines es ls h (delete_where (line_of id) ls) id
        (All-delete_where (IsOwned es) (line_of id) ls h.owned) d
        λ j ne. select-delete_ne id j ls ne

-- `lines.map(...)` of an entry that is posted as soon as it is inserted.
pub Balances-number_lines :
    (c : Caller) (id k : ℕ) (dtos : List CreateJournalLineDto)
    → 2 ≤ length dtos
    → sum (λ l. l.debit_minor) dtos ≡ sum (λ l. l.credit_minor) dtos
    → Balances (number_lines c id k dtos)
unfolding number_lines
Balances-number_lines c id k dtos n e = (
  omega (arith, length-number_lines c id k dtos),
  sum-number_lines (λ l. l.debit_minor) (λ l. l.debit_minor) c id k dtos (λ l n. omega arith)
      ∙ e
      ∙ sym (
          sum-number_lines (λ l. l.credit_minor) (λ l. l.credit_minor) c id k dtos
            (λ l n. omega arith)),
)

module _ (c : Caller) (es : List JournalEntry) (ls : List JournalLine) (h : IsLedger es ls)
    (e : JournalEntry) (new : exists (has_id e.id) es ≡ false) (d : e.status ≡ draft)
    (dtos : List CreateJournalLineDto) where
  drafts : IsDraftAt e.id (es ++ e ∷ [])
  drafts =
      All-append (λ x. (x.id == e.id) ≡ true → x.status ≡ draft) es (e ∷ [])
        (IsDraftAt-absent e.id es new) ((λ _. d), tt)

  there : exists (has_id e.id) (es ++ e ∷ []) ≡ true
  there = rw (exists-append (has_id e.id) es (e ∷ [])) (ground arith)

  pub IsLedger-new : IsLedger (es ++ e ∷ []) (ls ++ number_lines c e.id 0 dtos)
  IsLedger-new =
      IsLedger-insert_lines c (es ++ e ∷ []) ls (IsLedger-insert es ls h e new d) e.id drafts 0 dtos
        there

  -- The lines of the new entry are those inserted for it.
  pub select-new :
      select (line_of e.id) (ls ++ number_lines c e.id 0 dtos) ≡ number_lines c e.id 0 dtos
  select-new =
      select-append (line_of e.id) ls (number_lines c e.id 0 dtos)
      ∙ rw (select-unowned es e.id ls new h.owned) (select-number_lines_self c e.id 0 dtos)

  pub IsLedger-new_posted :
      (f : JournalEntry → JournalEntry)
      → ((x : JournalEntry) → (f x).id ≡ x.id)
      → 2 ≤ length dtos
      → sum (λ l. l.debit_minor) dtos ≡ sum (λ l. l.credit_minor) dtos
      → IsLedger
          (update_where (entry_key c e.id) f (es ++ e ∷ []))
          (ls ++ number_lines c e.id 0 dtos)
  IsLedger-new_posted f k n even =
      IsLedger-update_where (es ++ e ∷ []) (ls ++ number_lines c e.id 0 dtos) IsLedger-new
        (entry_key c e.id) f k
        λ x b key s.
          let here : (f x).id ≡ e.id = k x ∙ ground arith in
          rw (here, select-new) (Balances-number_lines c e.id 0 dtos n even)
