-- ===== src/Books/Numbers.antt =====
-- Journal numbers: drawn in order from the counter of the scope, never given twice.
use mathlib.Core.Path.{ap₂}
use mathlib.Core.Option.{some-injective}
use noryx_platform.Books.Ledger.{IsUnique-update_where}
use noryx_platform.Common.{
  ℕ, ◌+◌, ◌≤◌, ◌≡◌, refl, sym, ◌∙◌, true, false, none, some, List, [], ◌∷◌, arith, Bool-cases, inl,
  inr, ◌⊎◌, All, All-map,
}
use noryx_platform.Common.Decimal.{Text}
use noryx_platform.Common.Rows.{All-update_where, find, exists, update_where}
use noryx_platform.Database.{Caller, JournalEntry, JournalNumberCounter}
use noryx_platform.Journal.{entry_key, counter_key, next_number, journal_number_text}
use noryx_platform.Books.Tables.{has_id, IsUnique}
use noryx_platform.Books.Counter.{
  last_number, same_scope, next_number_self, next_number_other, journal_number_text_injective,
}

-- The scope of an entry, as that of a caller.
abbrev pub scope_of : JournalEntry → Caller
scope_of e = record {
  tenant_id = e.tenant_id;
  legal_entity_id = e.legal_entity_id;
  actor_user_id = none;
}

-- An entry's number, if it has one, was drawn from the counter of its scope.
abbrev pub IsDrawn : List JournalNumberCounter → JournalEntry → Type 0
IsDrawn table e =
    (e.journal_number ≡ none)
    ⊎ ((n : ℕ) × (e.journal_number ≡ some (journal_number_text n))
        × (n ≤ last_number (scope_of e) table))

-- Two entries of one scope with one number.
abbrev pub Collides : JournalEntry → JournalEntry → Type 0
Collides e x =
    (same_scope (scope_of e) (scope_of x) ≡ true)
    × ((t : Text) × (e.journal_number ≡ some t) × (x.journal_number ≡ some t))

abbrev pub IsDistinct : List JournalEntry → Type 0
IsDistinct [] = Unit
IsDistinct (e ∷ es) = All (λ x. ¬ (Collides e x)) es × IsDistinct es

pub record IsNumbered (table : List JournalNumberCounter) (es : List JournalEntry) : Type 0 where
  pub unique : IsUnique es
  pub drawn : All (IsDrawn table) es
  pub distinct : IsDistinct es

last_number_scope :
    (c d : Caller) (table : List JournalNumberCounter)
    → same_scope c d ≡ true
    → last_number d table ≡ last_number c table
last_number_scope c d table h =
    ap₂
      (λ (t l : ℕ).
        last_number (record { tenant_id = t; legal_entity_id = l; actor_user_id = none }) table)
      (ground arith) (ground arith)

-- A number above the scope's counter is new in the scope.
above :
    (table : List JournalNumberCounter) (e x : JournalEntry) (n : ℕ)
    → e.journal_number ≡ some (journal_number_text n)
    → last_number (scope_of e) table + 1 ≤ n
    → IsDrawn table x
    → ¬ (Collides e x)
above table e x n num big (inl none_yet) (s, (t, a, b)) = cc
above table e x n num big (inr (m, y, small)) (s, (t, a, b)) =
    let same : journal_number_text n ≡ journal_number_text m =
      some-injective _ _ (sym num ∙ a ∙ sym b ∙ y) in
    absurd (
      omega (
        arith,
        journal_number_text_injective n m same,
        last_number_scope (scope_of e) (scope_of x) table s,
      ))

Collides-comm : (e x : JournalEntry) → Collides e x → Collides x e
Collides-comm e x (s, (t, a, b)) = (ground arith, (t, b, a))

update_absent :
    (c : Caller) (id : ℕ) (f : JournalEntry → JournalEntry) (es : List JournalEntry)
    → exists (has_id id) es ≡ false
    → update_where (entry_key c id) f es ≡ es
update_absent c id f [] h = refl
update_absent c id f (e ∷ es) h =
    let rest : update_where (entry_key c id) f es ≡ es = update_absent c id f es (ground arith) in
    let off : entry_key c id e ≡ false = ground arith in rw (off, rest)

module _ (c : Caller) (table : List JournalNumberCounter) where
  abbrev n : ℕ
  n = (next_number c table (find (counter_key c) table)).0

  abbrev after : List JournalNumberCounter
  after = (next_number c table (find (counter_key c) table)).1

  grows : (d : Caller) → last_number d table ≤ last_number d after
  grows d = elim (Bool-cases (same_scope c d)) [
    | inl s ↦ omega (
      arith,
      next_number_self c table,
      last_number_scope c d table s,
      last_number_scope c d after s,
    )
    | inr s ↦ omega (arith, next_number_other c d table s)
  ]

  IsDrawn-grows : (e : JournalEntry) → IsDrawn table e → IsDrawn after e
  IsDrawn-grows e (inl none_yet) = inl none_yet
  IsDrawn-grows e (inr (m, y, small)) = inr (m, y, omega (arith, grows (scope_of e)))

  pub IsNumbered-grows : (es : List JournalEntry) → IsNumbered table es → IsNumbered after es
  IsNumbered-grows es h = record {
    unique = h.unique;
    drawn = All-map (IsDrawn table) (IsDrawn after) es IsDrawn-grows h.drawn;
    distinct = h.distinct;
  }

  module _ (id : ℕ) (f : JournalEntry → JournalEntry)
      (numbers : (e : JournalEntry) → (f e).journal_number ≡ some (journal_number_text n))
      (keeps : (e : JournalEntry) → scope_of (f e) ≡ scope_of e) where
    fresh_number :
        (e : JournalEntry) → entry_key c id e ≡ true → last_number (scope_of (f e)) table + 1 ≤ n
    fresh_number e key = rw (keeps e) (
        omega
          (arith, next_number_self c table, last_number_scope c (scope_of e) table (ground arith)))

    IsDistinct-update :
        (es : List JournalEntry)
        → IsUnique es
        → All (IsDrawn table) es
        → IsDistinct es
        → IsDistinct (update_where (entry_key c id) f es)
    IsDistinct-update [] u d h = tt
    IsDistinct-update (x ∷ es) u d h = elim (Bool-cases (entry_key c id x)) [
      | inl key ↦
          let here : x.id ≡ id = ground arith in
          let gone : exists (has_id id) es ≡ false = rw here at u.0 in
          rw (key, update_absent c id f es gone)
            (
              All-map (IsDrawn table) (λ y. ¬ (Collides (f x) y)) es
                  (λ y dy. above table (f x) y n (numbers x) (fresh_number x key) dy) d.1,
              h.1,
            )
      | inr off ↦ rw off (
        All-update_where (λ y. ¬ (Collides x y)) (entry_key c id) f es
            (λ y old key bad.
              above table (f y) x n (numbers y) (fresh_number y key) d.0
                (Collides-comm x (f y) bad))
            h.0,
        IsDistinct-update es u.1 d.1 h.1,
      )
    ]

    -- Giving the entry of one id the number drawn keeps the numbering.
    pub IsNumbered-post :
        (es : List JournalEntry)
        → ((e : JournalEntry) → (f e).id ≡ e.id)
        → IsNumbered table es
        → IsNumbered after (update_where (entry_key c id) f es)
    IsNumbered-post es k h = record {
      unique = IsUnique-update_where (entry_key c id) f es k h.unique;
      drawn =
          All-update_where (IsDrawn after) (entry_key c id) f es
            (λ e d key. inr (
              n,
              numbers e,
              rw (keeps e) (
                  omega (
                    arith,
                    next_number_self c table,
                    last_number_scope c (scope_of e) after (ground arith),
                  )),
            ))
            (All-map (IsDrawn table) (IsDrawn after) es IsDrawn-grows h.drawn);
      distinct = IsDistinct-update es h.unique h.drawn h.distinct;
    }
