-- ===== src/Books/Removal.antt =====
-- The delete of a draft entry, with the lines that the foreign key deletes.
use noryx_platform.Common.{
  ℕ, ◌≡◌, refl, ◌∙◌, false, List, [], ◌∷◌, arith, ◌==◌, Bool-cases, inl, inr, All, All-map,
}
use noryx_platform.Common.Rows.{exists, delete_where}
use noryx_platform.Database.{Caller, JournalEntry, JournalLine}
use noryx_platform.Journal.{entry_key, line_of}
use noryx_platform.Books.Tables.{has_id, IsOwned, IsDraftAt}
use noryx_platform.Books.Ledger.{BalancesIn, IsLedger, IsUnique-delete_where}
use noryx_platform.Books.Statements.{IsLedger-delete_lines, All-delete_where}

exists-delete_ne :
    (c : Caller) (id j : ℕ) (es : List JournalEntry)
    → (j == id) ≡ false
    → exists (has_id j) (delete_where (entry_key c id) es) ≡ exists (has_id j) es
exists-delete_ne c id j [] ne = refl
exists-delete_ne c id j (e ∷ es) ne = ground (arith, exists-delete_ne c id j es ne)

-- No line of the deleted entry is left.
lines_elsewhere :
    (id : ℕ) (ls : List JournalLine)
    → All (λ l. line_of id l ≡ false) (delete_where (line_of id) ls)
lines_elsewhere id [] = tt
lines_elsewhere id (l ∷ ls) = elim (Bool-cases (line_of id l)) [
  | inl t ↦ rw t (lines_elsewhere id ls)
  | inr t ↦ rw t (t, lines_elsewhere id ls)
]

All-both :
    {A : Type 0} (P Q : A → Type 0) (xs : List A) → All P xs → All Q xs → All (λ x. P x × Q x) xs
All-both P Q [] h k = tt
All-both P Q (x ∷ xs) h k = ((h.0, k.0), All-both P Q xs h.1 k.1)

pub IsLedger-delete_entry :
    (c : Caller) (id : ℕ) (es : List JournalEntry) (ls : List JournalLine)
    → IsLedger es ls
    → IsDraftAt id es
    → IsLedger (delete_where (entry_key c id) es) (delete_where (line_of id) ls)
IsLedger-delete_entry c id es ls h d =
    let less : IsLedger es (delete_where (line_of id) ls) = IsLedger-delete_lines c es ls h id d in
    record {
      unique = IsUnique-delete_where (entry_key c id) es h.unique;
      owned =
          All-map (λ l. IsOwned es l × (line_of id l ≡ false))
            (IsOwned (delete_where (entry_key c id) es)) (delete_where (line_of id) ls)
            (λ l o. exists-delete_ne c id l.journal_entry_id es o.1 ∙ o.0)
            (All-both (IsOwned es) (λ l. line_of id l ≡ false) (delete_where (line_of id) ls)
              less.owned (lines_elsewhere id ls));
      balanced =
          All-delete_where (BalancesIn (delete_where (line_of id) ls)) (entry_key c id) es
            less.balanced;
    }
