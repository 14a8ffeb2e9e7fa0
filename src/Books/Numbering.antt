-- ===== src/Books/Numbering.antt =====
-- The statements on `journal_entries` keep the numbering.
use noryx_platform.Common.{
  arith, ◌≡◌, sym, ◌∙◌, Bool, false, none, List, [], ◌∷◌, ◌++◌, Bool-cases, inl, inr, All,
  All-append, All-map,
}
use noryx_platform.Common.Rows.{exists, update_where, delete_where, All-update_where}
use noryx_platform.Database.{JournalEntry, JournalNumberCounter}
use noryx_platform.Books.Tables.{has_id}
use noryx_platform.Books.Ledger.{IsUnique-snoc, IsUnique-update_where, IsUnique-delete_where}
use noryx_platform.Books.Statements.{All-delete_where}
use noryx_platform.Books.Numbers.{IsDrawn, Collides, IsDistinct, IsNumbered}

IsDistinct-snoc :
    (es : List JournalEntry) (e : JournalEntry)
    → e.journal_number ≡ none
    → IsDistinct es
    → IsDistinct (es ++ e ∷ [])
IsDistinct-snoc [] e none_yet h = (tt, tt)
IsDistinct-snoc (x ∷ es) e none_yet h = (
  All-append (λ y. ¬ (Collides x y)) es (e ∷ []) h.0 ((λ (s, (t, a, b)). cc), tt),
  IsDistinct-snoc es e none_yet h.1,
)

-- An update that leaves number and scope alone.
abbrev pub KeepsNumber : (JournalEntry → JournalEntry) → Type 0
KeepsNumber f =
    (e : JournalEntry)
    → ((f e).id ≡ e.id)
      × ((f e).journal_number ≡ e.journal_number)
      × ((f e).tenant_id ≡ e.tenant_id)
      × ((f e).legal_entity_id ≡ e.legal_entity_id)

Collides-keeps :
    (f : JournalEntry → JournalEntry) (x e : JournalEntry)
    → KeepsNumber f
    → Collides x (f e)
    → Collides x e
Collides-keeps f x e k (s, (t, a, b)) =
    let (i, num, ten, ent) = k e in (ground arith, (t, a, sym num ∙ b))

Collides-keeps_left :
    (f : JournalEntry → JournalEntry) (e x : JournalEntry)
    → KeepsNumber f
    → Collides (f e) x
    → Collides e x
Collides-keeps_left f e x k (s, (t, a, b)) =
    let (i, num, ten, ent) = k e in (ground arith, (t, sym num ∙ a, b))

IsDistinct-keeps :
    (p : JournalEntry → Bool) (f : JournalEntry → JournalEntry) (es : List JournalEntry)
    → KeepsNumber f
    → IsDistinct es
    → IsDistinct (update_where p f es)
IsDistinct-keeps p f [] k h = tt
IsDistinct-keeps p f (x ∷ es) k h =
    let rest : All (λ y. ¬ (Collides x y)) (update_where p f es) =
      All-update_where (λ y. ¬ (Collides x y)) p f es
        (λ y old t bad. old (Collides-keeps f x y k bad)) h.0 in
    elim (Bool-cases (p x)) [
      | inl t ↦ rw t (
        All-map (λ y. ¬ (Collides x y)) (λ y. ¬ (Collides (f x) y)) (update_where p f es)
            (λ y old bad. old (Collides-keeps_left f x y k bad)) rest,
        IsDistinct-keeps p f es k h.1,
      )
      | inr t ↦ rw t (rest, IsDistinct-keeps p f es k h.1)
    ]

IsDrawn-keeps :
    (table : List JournalNumberCounter) (f : JournalEntry → JournalEntry) (e : JournalEntry)
    → KeepsNumber f
    → IsDrawn table e
    → IsDrawn table (f e)
IsDrawn-keeps table f e k (inl none_yet) = inl ((k e).1 ∙ none_yet)
IsDrawn-keeps table f e k (inr (n, num, small)) =
    let (i, same, ten, ent) = k e in inr (n, same ∙ num, rw (ten, ent) small)

IsDistinct-delete :
    (p : JournalEntry → Bool) (es : List JournalEntry)
    → IsDistinct es
    → IsDistinct (delete_where p es)
IsDistinct-delete p [] h = tt
IsDistinct-delete p (x ∷ es) h = elim (Bool-cases (p x)) [
  | inl t ↦ rw t (IsDistinct-delete p es h.1)
  | inr t ↦ rw t (All-delete_where (λ y. ¬ (Collides x y)) p es h.0, IsDistinct-delete p es h.1)
]

module _ (table : List JournalNumberCounter) (es : List JournalEntry)
    (h : IsNumbered table es) where
  pub IsNumbered-insert :
      (e : JournalEntry)
      → exists (has_id e.id) es ≡ false
      → e.journal_number ≡ none
      → IsNumbered table (es ++ e ∷ [])
  IsNumbered-insert e new none_yet = record {
    unique = IsUnique-snoc es e new h.unique;
    drawn = All-append (IsDrawn table) es (e ∷ []) h.drawn (inl none_yet, tt);
    distinct = IsDistinct-snoc es e none_yet h.distinct;
  }

  pub IsNumbered-keeps :
      (p : JournalEntry → Bool) (f : JournalEntry → JournalEntry)
      → KeepsNumber f
      → IsNumbered table (update_where p f es)
  IsNumbered-keeps p f k = record {
    unique = IsUnique-update_where p f es (λ e. (k e).0) h.unique;
    drawn = All-update_where (IsDrawn table) p f es (λ e d t. IsDrawn-keeps table f e k d) h.drawn;
    distinct = IsDistinct-keeps p f es k h.distinct;
  }

  pub IsNumbered-delete : (p : JournalEntry → Bool) → IsNumbered table (delete_where p es)
  IsNumbered-delete p = record {
    unique = IsUnique-delete_where p es h.unique;
    drawn = All-delete_where (IsDrawn table) p es h.drawn;
    distinct = IsDistinct-delete p es h.distinct;
  }
