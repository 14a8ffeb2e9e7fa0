-- ===== src/Books/Counter.antt =====
-- The journal number counter of each tenant and legal entity: allocateJournalNumber().
use noryx_platform.Common.Rows.{
  find-update_ne, find-update_where, find-append_none, find-snoc_ne, find,
}
use noryx_platform.Common.{
  ℕ, ◌+◌, ◌≡◌, refl, ap, Bool, false, Option, none, some, List, [], ◌∷◌, arith, Option-cases, inl,
  inr,
}
use noryx_platform.Common.Decimal.{Text, pad_start-decimal_injective}
use noryx_platform.Database.{Caller, JournalNumberCounter}
use noryx_platform.Journal.{in_scope, counter_key, next_number, journal_number_text}

-- What follows the prefix `JE-`.
abbrev tail3 : Text → Text
tail3 (a ∷ b ∷ c ∷ t) = t
tail3 t = t

-- The last number given in a scope; 0 if none was.
abbrev last_in : Option JournalNumberCounter → ℕ
last_in none = 0
last_in (some n) = n.last_assigned_number

abbrev pub last_number : Caller → List JournalNumberCounter → ℕ
last_number c table = last_in (find (counter_key c) table)

abbrev pub same_scope : Caller → Caller → Bool
same_scope c d = in_scope c d.tenant_id d.legal_entity_id

-- The number drawn for a caller is one more than the last number of its scope, and is the last
-- number of the scope afterwards.
pub next_number_self :
    (c : Caller) (table : List JournalNumberCounter)
    → let (n, table') = next_number c table (find (counter_key c) table) in
      (n ≡ last_number c table + 1) × (last_number c table' ≡ n)
unfolding next_number
next_number_self c table = elim (Option-cases (find (counter_key c) table)) [
  | inl new ↦ rw new (refl, rw (find-append_none (counter_key c) table (_ ∷ []) new) (ground arith))
  | inr (n, old) ↦
      rw old (refl, ap last_in (find-update_where (counter_key c) _ table n (λ m. refl) old))
]

-- A draw for one scope leaves the last number of any other scope as it was.
pub next_number_other :
    (c d : Caller) (table : List JournalNumberCounter)
    → same_scope c d ≡ false
    → last_number d (next_number c table (find (counter_key c) table)).1 ≡ last_number d table
unfolding next_number
next_number_other c d table ne = elim (Option-cases (find (counter_key c) table)) [
  | inl new ↦ rw new (ap last_in (find-snoc_ne (counter_key d) table _ (ground arith)))
  | inr (n, old) ↦ rw old (
      ap last_in
        (find-update_ne (counter_key d) (counter_key c) _ table (λ m. refl) λ m t. ground arith))
]

-- Two numbers that are written alike are the same number.
pub journal_number_text_injective :
    (n m : ℕ) → journal_number_text n ≡ journal_number_text m → n ≡ m
unfolding journal_number_text
journal_number_text_injective n m e = pad_start-decimal_injective 6 n m (ap tail3 e)
