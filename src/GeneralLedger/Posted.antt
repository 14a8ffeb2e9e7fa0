-- ===== src/GeneralLedger/Posted.antt =====
-- The posted lines of an entity have as much debit as credit, for any condition on their dates,
-- and so have the groups of its accounts together.
use noryx_platform.Common.{
  ℕ, ◌≡◌, inl, inr, refl, sym, ◌∙◌, Bool, true, false, not, ◌&&◌, ◌||◌, List, [], ◌∷◌, arith, ◌==◌,
  Bool-cases, sum, All, All-map, All-always,
}
use noryx_platform.Common.Rows.{select, exists}
use noryx_platform.Common.Ordering.{order_by}
use noryx_platform.Common.Keys.{IsKeyed}
use noryx_platform.Database.{
  Db, Caller, Account, JournalEntry, JournalLine, posted, draft, EntryStatus,
}
use noryx_platform.Journal.{line_of}
use noryx_platform.Books.Tables.{IsUnique}
use noryx_platform.Books.Ledger.{BalancesIn}
use noryx_platform.Books.DoubleEntry.{IsSound}
use noryx_platform.GeneralLedger.Lines.{
  is_posted, is_within, joined, ledger_lines, account_scope, account_total, line_on,
}
use noryx_platform.GeneralLedger.Joins.{
  sum-select_agree, sum-select_all, sum-select_none, sum-select_either, sum-order_by, All-select,
  exists-implies, exists-holds, exists-select_and, IsKeyed-select, sum-grouped,
}

abbrev pub debit : JournalLine → ℕ
debit l = l.debit_minor

abbrev pub credit : JournalLine → ℕ
credit l = l.credit_minor

abbrev other_tenant : JournalLine → JournalEntry → Bool
other_tenant l e = (l.journal_entry_id == e.id) && not (e.tenant_id == l.tenant_id)

abbrev own_account : Caller → JournalLine → Account → Bool
own_account c l a = account_scope c a && (l.account_id == a.id)

-- Ids of accounts are unique, a line has the tenant of its entry, and the account of a posted
-- line of the entity is one of its accounts.
pub record IsReportable (c : Caller) (db : Db) : Type 0 where
  pub accounts : IsKeyed (λ (a : Account). a.id) db.chart_of_accounts
  pub tenants : All (λ l. exists (other_tenant l) db.journal_entries ≡ false) db.journal_lines
  pub booked :
      All
        (λ l.
          (not (joined c (λ d. true) db.journal_entries l)
            || exists (own_account c l) db.chart_of_accounts)
          ≡ true)
        db.journal_lines

posted_status : (s : EntryStatus) → is_posted s ≡ true → s ≡ posted
posted_status draft t = absurd (cc)
posted_status posted t = refl

module _ (c : Caller) (dated : ℕ → Bool) where
  abbrev of_entry : JournalEntry → JournalLine → Bool
  of_entry e l = (l.journal_entry_id == e.id) && is_within c dated e

  within-posted : (e : JournalEntry) → is_within c dated e ≡ true → e.status ≡ posted
  unfolding is_within
  within-posted e t = posted_status e.status (ground arith)

  entry_balances :
      (ls : List JournalLine) (e : JournalEntry)
      → BalancesIn ls e
      → sum debit (select (of_entry e) ls) ≡ sum credit (select (of_entry e) ls)
  entry_balances ls e h = elim (Bool-cases (is_within c dated e)) [
    | inl t ↦
        let same = All-always (λ l. of_entry e l ≡ line_of e.id l) ls (λ l. ground arith) in
        sum-select_agree debit (of_entry e) (line_of e.id) ls same
        ∙ (h (within-posted e t)).1
        ∙ sym (sum-select_agree credit (of_entry e) (line_of e.id) ls same)
    | inr t ↦
        sum-select_none debit (of_entry e) ls (λ l. ground arith)
        ∙ sym (sum-select_none credit (of_entry e) ls (λ l. ground arith))
  ]

  entries_balance :
      (ls : List JournalLine) (es : List JournalEntry)
      → IsUnique es
      → All (BalancesIn ls) es
      → sum debit (select (λ l. exists (λ e. of_entry e l) es) ls)
        ≡ sum credit (select (λ l. exists (λ e. of_entry e l) es) ls)
  entries_balance ls [] u h =
      sum-select_none debit (λ l. false) ls (λ l. refl)
      ∙ sym (sum-select_none credit (λ l. false) ls (λ l. refl))
  entries_balance ls (e ∷ es) u h =
      let apart : (l : JournalLine) → of_entry e l ≡ true → exists (λ z. of_entry z l) es ≡ false =
        λ l t.
          exists-implies (λ z. of_entry z l) (λ z. z.id == e.id) es (λ z s. ground arith) u.0 in
      sum-select_either debit (of_entry e) (λ l. exists (λ z. of_entry z l) es) ls apart
      ∙ omega (arith, entry_balances ls e h.0, entries_balance ls es u.1 h.1)
      ∙ sym (sum-select_either credit (of_entry e) (λ l. exists (λ z. of_entry z l) es) ls apart)

  joined_entries :
      (es : List JournalEntry) (l : JournalLine)
      → exists (other_tenant l) es ≡ false
      → joined c dated es l ≡ exists (λ e. of_entry e l) es
  unfolding joined is_within
  joined_entries es l h = elim (Bool-cases (l.tenant_id == c.tenant_id)) [
    | inl t ↦ rw t refl
    | inr t ↦
        rw t (sym (exists-implies (λ e. of_entry e l) (other_tenant l) es (λ e s. ground arith) h))
  ]

  joined_always :
      (es : List JournalEntry) (l : JournalLine)
      → joined c dated es l ≡ true
      → joined c (λ d. true) es l ≡ true
  unfolding joined is_within
  joined_always es l t =
      let held : exists (λ e. of_entry e l) es ≡ true = ground arith in
      let kept =
        exists-holds (λ e. of_entry e l)
          (λ e. (l.journal_entry_id == e.id) && is_within c (λ d. true) e) es (λ e s. ground arith)
          held in
      ground arith

  module _ (db : Db) (r : IsReportable c db) where
    pub lines_balance :
        IsSound db → sum debit (ledger_lines c dated db) ≡ sum credit (ledger_lines c dated db)
    unfolding ledger_lines
    lines_balance h =
        let es = db.journal_entries in
        let ls = db.journal_lines in
        let same =
          All-map (λ l. exists (other_tenant l) es ≡ false)
            (λ l. joined c dated es l ≡ exists (λ e. of_entry e l) es) ls (joined_entries es)
            r.tenants in
        sum-select_agree debit (joined c dated es) (λ l. exists (λ e. of_entry e l) es) ls same
        ∙ entries_balance ls es h.unique h.balanced
        ∙ sym (
            sum-select_agree credit (joined c dated es) (λ l. exists (λ e. of_entry e l) es) ls
              same)

    accounted :
        All
          (λ l.
            exists (λ a. l.account_id == a.id) (select (account_scope c) db.chart_of_accounts)
            ≡ true)
          (ledger_lines c dated db)
    unfolding ledger_lines
    accounted =
        All-select _ _ (joined c dated db.journal_entries) db.journal_lines
          (λ l t b.
            let always = joined_always db.journal_entries l t in
            exists-select_and (account_scope c) (λ a. l.account_id == a.id) db.chart_of_accounts
            ∙ ground arith)
          r.booked

    pub accounts-total :
        (f : JournalLine → ℕ) (before : Account → Account → Bool)
        → sum
            (λ a. account_total f a.id (ledger_lines c dated db))
            (order_by before (select (account_scope c) db.chart_of_accounts))
          ≡ sum f (ledger_lines c dated db)
    unfolding account_total
    accounts-total f before =
        let ls = ledger_lines c dated db in
        let accounts = select (account_scope c) db.chart_of_accounts in
        sum-order_by (λ (a : Account). sum f (select (line_on a.id) ls)) before accounts
        ∙ sum-grouped f (λ (a : Account). a.id) (λ (l : JournalLine). l.account_id) ls accounts
            (IsKeyed-select (λ (a : Account). a.id) (account_scope c) db.chart_of_accounts
              r.accounts)
        ∙ sum-select_all f (λ l. exists (λ (a : Account). l.account_id == a.id) accounts) ls
            accounted
