-- ===== src/Books/Tables.antt =====
-- The tables of entries and lines: whose lines are whose, and sums over an entry's lines.
use noryx_platform.Common.{
  All-map, ℕ, ◌+◌, ◌≡◌, refl, ap, ◌∙◌, Bool, true, false, some, List, [], ◌∷◌, ◌++◌, arith, ◌==◌,
  Bool-cases, inl, inr, length, sum, All, contains, leb,
}
use noryx_platform.Common.Rows.{exists-find, find_holds, select, find, exists, delete_where}
use noryx_platform.Database.{Caller, JournalEntry, JournalLine, draft}
use noryx_platform.Journal.{
  CreateJournalLineDto, entry_key, line_of, insert_ordered, order_by_line_number, number_lines,
  entry_ids,
}

abbrev pub has_id : ℕ → JournalEntry → Bool
has_id id e = e.id == id

-- `ORDER BY` changes no sum and no count.
sum-insert_ordered :
    (f : JournalLine → ℕ) (l : JournalLine) (ls : List JournalLine)
    → sum f (insert_ordered l ls) ≡ f l + sum f ls
unfolding insert_ordered
sum-insert_ordered f l [] = refl
sum-insert_ordered f l (m ∷ ms) = elim (Bool-cases (leb l.line_number m.line_number)) [
  | inl t ↦ rw t
  | inr t ↦ rw t (omega (arith, sum-insert_ordered f l ms))
]

pub sum-order_by_line_number :
    (f : JournalLine → ℕ) (ls : List JournalLine) → sum f (order_by_line_number ls) ≡ sum f ls
unfolding order_by_line_number
sum-order_by_line_number f [] = refl
sum-order_by_line_number f (l ∷ ls) =
    sum-insert_ordered f l (order_by_line_number ls) ∙ omega (arith, sum-order_by_line_number f ls)

length-insert_ordered :
    (l : JournalLine) (ls : List JournalLine) → length (insert_ordered l ls) ≡ length ls + 1
unfolding insert_ordered
length-insert_ordered l [] = refl
length-insert_ordered l (m ∷ ms) = elim (Bool-cases (leb l.line_number m.line_number)) [
  | inl t ↦ rw t (omega arith)
  | inr t ↦ rw t (omega (arith, length-insert_ordered l ms))
]

pub length-order_by_line_number :
    (ls : List JournalLine) → length (order_by_line_number ls) ≡ length ls
unfolding order_by_line_number
length-order_by_line_number [] = refl
length-order_by_line_number (l ∷ ls) =
    length-insert_ordered l (order_by_line_number ls)
    ∙ omega (arith, length-order_by_line_number ls)

pub select-append :
    {A : Type 0} (p : A → Bool) (xs ys : List A) → select p (xs ++ ys) ≡ select p xs ++ select p ys
select-append p [] ys = refl
select-append p (x ∷ xs) ys = ground (arith, select-append p xs ys)

-- New lines belong to the entry that they were inserted for, and to no other.
pub select-number_lines_self :
    (c : Caller) (id k : ℕ) (ls : List CreateJournalLineDto)
    → select (line_of id) (number_lines c id k ls) ≡ number_lines c id k ls
unfolding number_lines
select-number_lines_self c id k [] = refl
select-number_lines_self c id k (l ∷ ls) = ground (arith, select-number_lines_self c id (k + 1) ls)

pub select-number_lines_ne :
    (c : Caller) (id j k : ℕ) (ls : List CreateJournalLineDto)
    → (id == j) ≡ false
    → select (line_of j) (number_lines c id k ls) ≡ []
unfolding number_lines
select-number_lines_ne c id j k [] h = refl
select-number_lines_ne c id j k (l ∷ ls) h =
    ground (arith, select-number_lines_ne c id j (k + 1) ls h)

pub sum-number_lines :
    (f : JournalLine → ℕ) (g : CreateJournalLineDto → ℕ) (c : Caller) (id k : ℕ)
    (ls : List CreateJournalLineDto)
    → ((l : CreateJournalLineDto) (n : ℕ) → sum f (number_lines c id n (l ∷ [])) ≡ g l)
    → sum f (number_lines c id k ls) ≡ sum g ls
unfolding number_lines
sum-number_lines f g c id k [] h = refl
sum-number_lines f g c id k (l ∷ ls) h =
    omega (arith, sum-number_lines f g c id (k + 1) ls h, h l k)

pub length-number_lines :
    (c : Caller) (id k : ℕ) (ls : List CreateJournalLineDto)
    → length (number_lines c id k ls) ≡ length ls
unfolding number_lines
length-number_lines c id k [] = refl
length-number_lines c id k (l ∷ ls) = omega (arith, length-number_lines c id (k + 1) ls)

pub select-delete_same :
    (id : ℕ) (ls : List JournalLine) → select (line_of id) (delete_where (line_of id) ls) ≡ []
select-delete_same id [] = refl
select-delete_same id (l ∷ ls) = ground (arith, select-delete_same id ls)

pub select-delete_ne :
    (id j : ℕ) (ls : List JournalLine)
    → (id == j) ≡ false
    → select (line_of j) (delete_where (line_of id) ls) ≡ select (line_of j) ls
select-delete_ne id j [] h = refl
select-delete_ne id j (l ∷ ls) h = ground (arith, select-delete_ne id j ls h)

-- The foreign key: every line names an entry of the table.
abbrev pub IsOwned : List JournalEntry → JournalLine → Type 0
IsOwned es l = exists (has_id l.journal_entry_id) es ≡ true

-- The primary key: no id occurs twice.
abbrev pub IsUnique : List JournalEntry → Type 0
IsUnique [] = Unit
IsUnique (e ∷ es) = (exists (has_id e.id) es ≡ false) × IsUnique es

-- An id that no entry has owns no line.
pub select-unowned :
    (es : List JournalEntry) (id : ℕ) (ls : List JournalLine)
    → exists (has_id id) es ≡ false
    → All (IsOwned es) ls
    → select (line_of id) ls ≡ []
select-unowned es id [] h k = refl
select-unowned es id (l ∷ ls) h k = elim (Bool-cases (l.journal_entry_id == id)) [
  | inl t ↦
      let e : l.journal_entry_id ≡ id = ground arith in
      let owned : exists (has_id id) es ≡ true = rw e at k.0 in cc
  | inr t ↦ ground (arith, select-unowned es id ls h k.1)
]

pub exists-entry_ids :
    (id : ℕ) (es : List JournalEntry)
    → contains id (entry_ids es) ≡ false
    → exists (has_id id) es ≡ false
exists-entry_ids id [] h = refl
exists-entry_ids id (e ∷ es) h = ground (arith, exists-entry_ids id es)

-- Every entry with this id is a draft.
abbrev pub IsDraftAt : ℕ → List JournalEntry → Type 0
IsDraftAt id = All (λ e. (e.id == id) ≡ true → e.status ≡ draft)

pub IsDraftAt-absent :
    (id : ℕ) (es : List JournalEntry) → exists (has_id id) es ≡ false → IsDraftAt id es
IsDraftAt-absent id [] h = tt
IsDraftAt-absent id (e ∷ es) h = (λ t. absurd (ground arith), IsDraftAt-absent id es (ground arith))

-- Every entry with this id is the entry `e`.
abbrev pub IsOnlyAt : ℕ → JournalEntry → List JournalEntry → Type 0
IsOnlyAt id e = All (λ x. (x.id == id) ≡ true → x ≡ e)

IsOnlyAt-absent :
    (id : ℕ) (e : JournalEntry) (es : List JournalEntry)
    → exists (has_id id) es ≡ false
    → IsOnlyAt id e es
IsOnlyAt-absent id e [] h = tt
IsOnlyAt-absent id e (x ∷ es) h =
    (λ t. absurd (ground arith), IsOnlyAt-absent id e es (ground arith))

-- The row that a lookup finds is the only one with its id.
pub IsOnlyAt-find :
    (c : Caller) (id : ℕ) (es : List JournalEntry) (e : JournalEntry)
    → IsUnique es
    → find (entry_key c id) es ≡ some e
    → IsOnlyAt id e es
IsOnlyAt-find c id [] e u f = tt
IsOnlyAt-find c id (x ∷ es) e u f = elim (Bool-cases (entry_key c id x)) [
  | inl t ↦
      let same : x ≡ e = ground arith in
      let here : x.id ≡ id = ground arith in
      let gone : exists (has_id id) es ≡ false = rw here at u.0 in
      (λ _. same, IsOnlyAt-absent id e es gone)
  | inr t ↦
      let later : find (entry_key c id) es ≡ some e = ground arith in
      let key : entry_key c id e ≡ true = find_holds (entry_key c id) es e later in
      let there : exists (has_id id) es ≡ true =
        exists-find (entry_key c id) (has_id id) es e later (ground arith) in
      (
        λ s.
            let here : x.id ≡ id = ground arith in
            let gone : exists (has_id id) es ≡ false = rw here at u.0 in absurd (cc),
        IsOnlyAt-find c id es e u.1 later,
      )
]

pub IsDraftAt-find :
    (c : Caller) (id : ℕ) (es : List JournalEntry) (e : JournalEntry)
    → IsUnique es
    → find (entry_key c id) es ≡ some e
    → e.status ≡ draft
    → IsDraftAt id es
IsDraftAt-find c id es e u f d =
    All-map (λ x. (x.id == id) ≡ true → x ≡ e) (λ x. (x.id == id) ≡ true → x.status ≡ draft) es
      (λ x h t. ap (λ y. y.status) (h t) ∙ d) (IsOnlyAt-find c id es e u f)

pub id-find :
    (c : Caller) (id : ℕ) (es : List JournalEntry) (e : JournalEntry)
    → find (entry_key c id) es ≡ some e
    → e.id ≡ id
id-find c id es e found =
    let key : entry_key c id e ≡ true = find_holds (entry_key c id) es e found in ground arith
