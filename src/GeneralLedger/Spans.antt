-- ===== src/GeneralLedger/Spans.antt =====
-- The lines up to a date are those before a day, and those from that day up to the date.
use noryx_platform.Common.{
  ℕ, ◌+◌, ◌≡◌, inl, inr, refl, ◌∙◌, Bool, true, false, ◌&&◌, ◌||◌, List, [], ◌∷◌, arith, ◌==◌,
  Bool-cases, sum, All-always,
}
use noryx_platform.Common.Rows.{select, exists}
use noryx_platform.Database.{Db, Caller, JournalEntry, JournalLine}
use noryx_platform.Books.DoubleEntry.{IsSound}
use noryx_platform.Books.Tables.{IsUnique}
use noryx_platform.GeneralLedger.Lines.{is_within, joined, ledger_lines, account_total, line_on}
use noryx_platform.GeneralLedger.Joins.{sum-select_agree, sum-select_either, exists-implies}

-- Two conditions on dates that share no date, and together are a third.
pub record Splits (before after whole : ℕ → Bool) : Type 0 where
  pub both : (d : ℕ) → whole d ≡ (before d || after d)
  pub apart : (d : ℕ) → before d ≡ true → after d ≡ false

sum-select-select :
    {A : Type 0} (f : A → ℕ) (p q : A → Bool) (xs : List A)
    → sum f (select p (select q xs)) ≡ sum f (select (λ x. q x && p x) xs)
sum-select-select f p q [] = refl
sum-select-select f p q (x ∷ xs) = ground (arith, sum-select-select f p q xs)

module _ (c : Caller) where
  abbrev of_entry : (ℕ → Bool) → JournalLine → JournalEntry → Bool
  of_entry dated l e = (l.journal_entry_id == e.id) && is_within c dated e

  module _ (before after whole : ℕ → Bool) (s : Splits before after whole) where
    entry_both :
        (l : JournalLine) (e : JournalEntry)
        → of_entry whole l e ≡ (of_entry before l e || of_entry after l e)
    unfolding is_within
    entry_both l e = ground (arith, s.both e.transaction_date)

    entry_apart :
        (l : JournalLine) (e : JournalEntry)
        → of_entry before l e ≡ true
        → of_entry after l e ≡ false
    unfolding is_within
    entry_apart l e t = ground (arith, s.apart e.transaction_date)

    exists_both :
        (l : JournalLine) (es : List JournalEntry)
        → exists (of_entry whole l) es
          ≡ (exists (of_entry before l) es || exists (of_entry after l) es)
    exists_both l [] = refl
    exists_both l (e ∷ es) = ground (arith, entry_both l e, exists_both l es)

    exists_apart :
        (l : JournalLine) (es : List JournalEntry)
        → IsUnique es
        → exists (of_entry before l) es ≡ true
        → exists (of_entry after l) es ≡ false
    exists_apart l [] u t = refl
    exists_apart l (e ∷ es) u t = elim (Bool-cases (l.journal_entry_id == e.id)) [
      | inl m ↦
          let rest : (dated : ℕ → Bool) → exists (of_entry dated l) es ≡ false = λ dated.
            exists-implies (of_entry dated l) (λ z. z.id == e.id) es (λ z k. ground arith) u.0 in
          let none_before = rest before in
          let none_after = rest after in ground (arith, entry_apart l e, none_before, none_after)
      | inr m ↦ ground (arith, exists_apart l es u.1)
    ]

    -- The sum over the lines of an account up to a date is made of the sums of the two spans.
    pub account_total-split :
        (f : JournalLine → ℕ) (id : ℕ) (db : Db)
        → IsSound db
        → account_total f id (ledger_lines c whole db)
          ≡ account_total f id (ledger_lines c before db)
            + account_total f id (ledger_lines c after db)
    unfolding account_total ledger_lines joined
    account_total-split f id db h =
        let es = db.journal_entries in
        let ls = db.journal_lines in
        let on : (ℕ → Bool) → JournalLine → Bool = λ dated l. joined c dated es l && line_on id l in
        let same =
          All-always (λ l. on whole l ≡ (on before l || on after l)) ls
            (λ l. ground (arith, exists_both l es)) in
        sum-select-select f (line_on id) (joined c whole es) ls
        ∙ sum-select_agree f (on whole) (λ l. on before l || on after l) ls same
        ∙ sum-select_either f (on before) (on after) ls
            (λ l t. ground (arith, exists_apart l es h.unique))
        ∙ omega (
          arith,
          sum-select-select f (line_on id) (joined c before es) ls,
          sum-select-select f (line_on id) (joined c after es) ls,
        )
