-- ===== src/Journal/Lines.antt =====
-- dto/create-journal-line.dto.ts, and insertLines(), findInvalidAccountIds(),
-- findInvalidTaxCodeIds(), validateLinesOrThrow(), revalidateLinesForPostingOrThrow().
use noryx_platform.Common.{
  ℕ, ◌+◌, Bool, true, false, not, ◌&&◌, Option, none, some, List, [], ◌∷◌, ◌++◌, map, ltb, ◌==◌,
  if◌then◌else◌, is_some, contains,
}
use noryx_platform.Common.Decimal.{Text}
use noryx_platform.Common.Rows.{select, exists}
use noryx_platform.Database.{
  Caller, Failure, Reason, internal, constraint_violated, bad_request, unprocessable,
  inactive_accounts, inactive_tax_codes, Account, TaxCode, JournalLine, TaxDirection,
}
use noryx_platform.Database.Tx.{Tx, pure, gets, guard, modify, ◌>>=◌, ◌>>◌}

pub record CreateJournalLineDto : Type 0 where
  pub account_id : ℕ
  pub debit_minor : ℕ
  pub credit_minor : ℕ
  pub description : Option Text
  pub tax_code_id : Option ℕ
  pub tax_direction : Option TaxDirection

-- `SingleSidedNonzeroConstraint.validate`
unfoldable pub single_sided_nonzero : CreateJournalLineDto → Bool
single_sided_nonzero l =
    if (l.debit_minor == 0) && (l.credit_minor == 0)
    then false
    else if ltb 0 l.debit_minor && ltb 0 l.credit_minor
    then false
    else true

-- `TaxCodeDirectionPairingConstraint.validate`
unfoldable pub tax_code_direction_pairing : CreateJournalLineDto → Bool
tax_code_direction_pairing l =
    if is_some l.tax_code_id then is_some l.tax_direction else not (is_some l.tax_direction)

-- `[...new Set(ids)]`, less the ids of `seen`.
unfoldable pub unique_from : List ℕ → List ℕ → List ℕ
unique_from seen [] = []
unique_from seen (a ∷ ids) =
    let fresh = unique_from (a ∷ seen) ids in
    let rest = unique_from seen ids in if contains a seen then rest else a ∷ fresh

unfoldable pub unique_ids : List ℕ → List ℕ
unfolding unique_from
unique_ids ids = unique_from [] ids

abbrev pub difference : List ℕ → List ℕ → List ℕ
difference ids valid = select (λ a. not (contains a valid)) ids

module _ (c : Caller) where
  unfoldable pub find_invalid_account_ids : List ℕ → Tx (List ℕ)
  unfolding unique_ids
  find_invalid_account_ids account_ids =
      let ids = unique_ids account_ids in
      gets λ db. difference ids (
        map (λ a. a.id)
          (select
            (λ (a : Account).
              (a.tenant_id == c.tenant_id)
              && (a.legal_entity_id == c.legal_entity_id)
              && a.is_active
              && contains a.id ids)
            db.chart_of_accounts))

  -- This query has no tenant predicate.
  unfoldable pub find_invalid_tax_code_ids : List ℕ → Tx (List ℕ)
  unfolding unique_ids
  find_invalid_tax_code_ids tax_code_ids =
      let ids = unique_ids tax_code_ids in
      gets λ db. difference ids (
        map (λ t. t.id)
          (select
            (λ (t : TaxCode).
              (t.legal_entity_id == c.legal_entity_id) && t.is_active && contains t.id ids)
            db.tax_codes))

abbrev pub present : List (Option ℕ) → List ℕ
present [] = []
present (none ∷ os) = present os
present (some a ∷ os) = a ∷ present os

abbrev pub is_empty {ℓ} : {A : Type ℓ} → List A → Bool
is_empty [] = true
is_empty (_ ∷ _) = false

module _ (c : Caller) (throws : Reason → Failure) (account_ids : List ℕ) where
  -- The body that the draft-time and the posting-time check share: they differ in the exception.
  unfoldable pub check_ids_or_throw : List (Option ℕ) → Tx (Unit {0})
  unfolding find_invalid_account_ids find_invalid_tax_code_ids
  check_ids_or_throw codes = do
    invalid ← find_invalid_account_ids c account_ids
    guard (is_empty invalid) (throws (inactive_accounts invalid))
    let tax_code_ids = present codes
    if is_empty tax_code_ids then pure tt else do
      invalid_codes ← find_invalid_tax_code_ids c tax_code_ids
      guard (is_empty invalid_codes) (throws (inactive_tax_codes invalid_codes))

-- The CHECK constraints of `journal_lines`, which say what the validators of the DTO say, and its
-- foreign keys. A foreign key sees the rows of every entity.
unfoldable pub line_accepted : List Account → List TaxCode → CreateJournalLineDto → Bool
unfolding single_sided_nonzero tax_code_direction_pairing
line_accepted accounts tax_codes l =
    single_sided_nonzero l
    && tax_code_direction_pairing l
    && exists (λ (a : Account). a.id == l.account_id) accounts
    && elim l.tax_code_id [ none ↦ true | some t ↦ exists (λ (x : TaxCode). x.id == t) tax_codes ]

unfoldable pub lines_accepted : List Account → List TaxCode → List CreateJournalLineDto → Bool
unfolding line_accepted
lines_accepted accounts tax_codes [] = true
lines_accepted accounts tax_codes (l ∷ ls) =
    line_accepted accounts tax_codes l && lines_accepted accounts tax_codes ls

module _ (c : Caller) where
  unfoldable pub validate_lines_or_throw : List CreateJournalLineDto → Tx (Unit {0})
  unfolding check_ids_or_throw
  validate_lines_or_throw lines =
      if is_empty lines
      then pure tt
      else check_ids_or_throw c bad_request (map (λ l. l.account_id) lines)
          (map (λ l. l.tax_code_id) lines)

  unfoldable pub revalidate_lines_for_posting_or_throw : List JournalLine → Tx (Unit {0})
  unfolding check_ids_or_throw
  revalidate_lines_for_posting_or_throw lines =
      check_ids_or_throw c unprocessable (map (λ l. l.account_id) lines)
        (map (λ l. l.tax_code_id) lines)

  -- Rows are numbered 1, 2, … in the order of the array.
  unfoldable pub number_lines : ℕ → ℕ → List CreateJournalLineDto → List JournalLine
  number_lines entry_id index [] = []
  number_lines entry_id index (l ∷ ls) =
      record {
        tenant_id = c.tenant_id;
        journal_entry_id = entry_id;
        line_number = index + 1;
        account_id = l.account_id;
        debit_minor = l.debit_minor;
        credit_minor = l.credit_minor;
        description = l.description;
        tax_code_id = l.tax_code_id;
        tax_direction = l.tax_direction;
      }
      ∷ number_lines entry_id (index + 1) ls

  -- A row that breaks a constraint is an error of the database, which nothing catches.
  unfoldable pub insert_lines : ℕ → List CreateJournalLineDto → Tx (List JournalLine)
  unfolding lines_accepted
  insert_lines entry_id lines =
      let rows = number_lines entry_id 0 lines in
      do
        accepted ← gets λ db. lines_accepted db.chart_of_accounts db.tax_codes lines
        guard accepted (internal constraint_violated)
        modify λ db. record db { journal_lines = db.journal_lines ++ rows }
        pure rows
