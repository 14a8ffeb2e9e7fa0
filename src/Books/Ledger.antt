-- ===== src/Books/Ledger.antt =====
-- The double-entry invariant of the tables `journal_entries` and `journal_lines`, and how the
-- statements on them keep it. It is what drizzle/constraints/002_balance_invariant_trigger.sql
-- checks at commit, with the primary and the foreign key.
use noryx_platform.Common.{
  ℕ, ◌≤◌, ◌≡◌, refl, ap, ◌∙◌, Bool, true, false, ◌||◌, List, [], ◌∷◌, ◌++◌, arith, ◌==◌, Bool-cases,
  inl, inr, length, All, All-append, All-map, if◌then◌else◌,
}
use noryx_platform.Common.Rows.{
  select, exists, update_where, delete_where, exists-append, exists-update_where, All-update_where,
}
use noryx_platform.Database.{JournalEntry, JournalLine, draft, posted}
use noryx_platform.Journal.{line_of, total_debit, total_credit}
use noryx_platform.Books.Tables.{has_id, IsOwned, IsUnique, IsDraftAt}

-- At least two lines, and as much debit as credit.
abbrev pub Balances : List JournalLine → Type 0
Balances ls = (2 ≤ length ls) × (total_debit ls ≡ total_credit ls)

-- A posted entry balances.
abbrev pub BalancesIn : List JournalLine → JournalEntry → Type 0
BalancesIn ls e = e.status ≡ posted → Balances (select (line_of e.id) ls)

pub record IsLedger (es : List JournalEntry) (ls : List JournalLine) : Type 0 where
  pub unique : IsUnique es
  pub owned : All (IsOwned es) ls
  pub balanced : All (BalancesIn ls) es

abbrev KeepsId : (JournalEntry → JournalEntry) → Type 0
KeepsId f = (e : JournalEntry) → (f e).id ≡ e.id

exists-snoc :
    (id : ℕ) (es : List JournalEntry) (e : JournalEntry)
    → exists (has_id id) (es ++ e ∷ []) ≡ (exists (has_id id) es || has_id id e)
exists-snoc id es e = rw (exists-append (has_id id) es (e ∷ [])) (ground arith)

pub IsUnique-snoc :
    (es : List JournalEntry) (e : JournalEntry)
    → exists (has_id e.id) es ≡ false
    → IsUnique es
    → IsUnique (es ++ e ∷ [])
IsUnique-snoc [] e h u = (refl, tt)
IsUnique-snoc (x ∷ es) e h u =
    (rw (exists-snoc x.id es e) (ground arith), IsUnique-snoc es e (ground arith) u.1)

exists-keeps :
    (p : JournalEntry → Bool) (f : JournalEntry → JournalEntry) (es : List JournalEntry) (id : ℕ)
    → KeepsId f
    → exists (has_id id) (update_where p f es) ≡ exists (has_id id) es
exists-keeps p f es id k =
    exists-update_where (has_id id) p f es (λ x. ap (λ (n : ℕ). n == id) (k x))

pub IsUnique-update_where :
    (p : JournalEntry → Bool) (f : JournalEntry → JournalEntry) (es : List JournalEntry)
    → KeepsId f
    → IsUnique es
    → IsUnique (update_where p f es)
IsUnique-update_where p f [] k u = tt
IsUnique-update_where p f (x ∷ es) k u = (
  rw (exists-keeps p f es (if p x then f x else x).id k) (rw (same (p x)) u.0),
  IsUnique-update_where p f es k u.1,
)
  where
    same : (b : Bool) → (if b then f x else x).id ≡ x.id
    same true = k x
    same false = refl

pub IsUnique-delete_where :
    (p : JournalEntry → Bool) (es : List JournalEntry) → IsUnique es → IsUnique (delete_where p es)
IsUnique-delete_where p [] u = tt
IsUnique-delete_where p (x ∷ es) u = elim (Bool-cases (p x)) [
  | inl t ↦ rw t (IsUnique-delete_where p es u.1)
  | inr t ↦ rw t (exists-less x.id p es u.0, IsUnique-delete_where p es u.1)
]
  where
    exists-less :
        (id : ℕ) (q : JournalEntry → Bool) (l : List JournalEntry)
        → exists (has_id id) l ≡ false
        → exists (has_id id) (delete_where q l) ≡ false
    exists-less id q [] h = refl
    exists-less id q (y ∷ l) h = ground (arith, exists-less id q l)

module _ (es : List JournalEntry) (ls : List JournalLine) (h : IsLedger es ls) where
  -- A new draft with an unused id.
  pub IsLedger-insert :
      (e : JournalEntry)
      → exists (has_id e.id) es ≡ false
      → e.status ≡ draft
      → IsLedger (es ++ e ∷ []) ls
  IsLedger-insert e new d = record {
    unique = IsUnique-snoc es e new h.unique;
    owned =
        All-map (IsOwned es) (IsOwned (es ++ e ∷ [])) ls
          (λ l o. rw (exists-snoc l.journal_entry_id es e) (rw o refl)) h.owned;
    balanced = All-append (BalancesIn ls) es (e ∷ []) h.balanced ((λ s. absurd (cc)), tt);
  }

  -- An update that changes neither ids nor, unless the entry balances, makes it posted.
  pub IsLedger-update_where :
      (p : JournalEntry → Bool) (f : JournalEntry → JournalEntry)
      → KeepsId f
      → ((e : JournalEntry) → BalancesIn ls e → p e ≡ true → BalancesIn ls (f e))
      → IsLedger (update_where p f es) ls
  IsLedger-update_where p f k step = record {
    unique = IsUnique-update_where p f es k h.unique;
    owned =
        All-map (IsOwned es) (IsOwned (update_where p f es)) ls
          (λ l o. exists-keeps p f es l.journal_entry_id k ∙ o) h.owned;
    balanced = All-update_where (BalancesIn ls) p f es step h.balanced;
  }

  -- A change of the lines of one id, all of whose entries are drafts.
  pub IsLedger-lines :
      (ls' : List JournalLine) (id : ℕ)
      → All (IsOwned es) ls'
      → IsDraftAt id es
      → ((j : ℕ) → (id == j) ≡ false → select (line_of j) ls' ≡ select (line_of j) ls)
      → IsLedger es ls'
  IsLedger-lines ls' id o d same = record {
    unique = h.unique;
    owned = o;
    balanced = both es d h.balanced;
  }
    where
      one :
          (e : JournalEntry)
          → ((e.id == id) ≡ true → e.status ≡ draft)
          → BalancesIn ls e
          → BalancesIn ls' e
      one e de b s = elim (Bool-cases (id == e.id)) [
        | inl t ↦ let dr : e.status ≡ draft = de (ground arith) in absurd (cc)
        | inr t ↦ rw (same e.id t) (b s)
      ]

      both :
          (l : List JournalEntry) → IsDraftAt id l → All (BalancesIn ls) l → All (BalancesIn ls') l
      both [] dl bl = tt
      both (e ∷ l) dl bl = (one e dl.0 bl.0, both l dl.1 bl.1)
