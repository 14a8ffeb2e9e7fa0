-- ===== src/Journal/Validity.antt =====
-- findInvalidAccountIds() and findInvalidTaxCodeIds() find exactly the ids that may not be used.
use noryx_platform.Journal.Lines.{
  difference, find_invalid_tax_code_ids, unique_from, unique_ids, find_invalid_account_ids,
}
use noryx_platform.Common.{
  inr, inl, ◌∙◌, Bool-cases, true, ℕ, ◌≡◌, refl, Bool, not, ◌&&◌, List, [], ◌∷◌, map, arith, ◌==◌,
  contains,
}
use noryx_platform.Common.Rows.{select, exists}
use noryx_platform.Database.{Db, Caller, Account, TaxCode}
use noryx_platform.Database.Tx.{Ensures}
use noryx_platform.Journal.Lookup.{in_scope}

contains-select :
    (a : ℕ) (f : ℕ → Bool) (xs : List ℕ) → contains a (select f xs) ≡ (contains a xs && f a)
contains-select a f [] = refl
contains-select a f (x ∷ xs) = elim (Bool-cases (a == x)) [
  | inl t ↦ let same : a ≡ x = ground arith in rw same (ground (arith, contains-select x f xs))
  | inr n ↦ ground (arith, contains-select a f xs)
]

contains-unique_from :
    (a : ℕ) (seen ids : List ℕ)
    → contains a (unique_from seen ids) ≡ (contains a ids && not (contains a seen))
unfolding unique_from
contains-unique_from a seen [] = refl
contains-unique_from a seen (x ∷ ids) = elim (Bool-cases (a == x)) [
  | inl t ↦
      let same : a ≡ x = ground arith in
      rw same
        (ground (arith, contains-unique_from x (x ∷ seen) ids, contains-unique_from x seen ids))
  | inr n ↦ ground (arith, contains-unique_from a (x ∷ seen) ids, contains-unique_from a seen ids)
]

-- The ids of the rows that a test selects.
contains-map-select :
    {A : Type 0} (key : A → ℕ) (a : ℕ) (q : A → Bool) (rows : List A)
    → contains a (map key (select q rows)) ≡ exists (λ x. (key x == a) && q x) rows
contains-map-select key a q [] = refl
contains-map-select key a q (x ∷ rows) = ground (arith, contains-map-select key a q rows)

-- An account that a line may use: active, and of the caller's entity.
abbrev pub usable_account : Caller → ℕ → Account → Bool
usable_account c a x = (x.id == a) && (in_scope c x.tenant_id x.legal_entity_id && x.is_active)

-- A tax code that a line may use: active, and of the caller's entity.
abbrev pub usable_tax_code : Caller → ℕ → TaxCode → Bool
usable_tax_code c a x = (x.id == a) && ((x.legal_entity_id == c.legal_entity_id) && x.is_active)

exists-of_listed :
    {A : Type 0} (key : A → ℕ) (a : ℕ) (ids : List ℕ) (q r : A → Bool) (rows : List A)
    → contains a ids ≡ true
    → ((x : A) → (key x == a) ≡ true → contains (key x) ids ≡ true → q x ≡ r x)
    → exists (λ x. (key x == a) && q x) rows ≡ exists (λ x. (key x == a) && r x) rows
exists-of_listed key a ids q r [] h k = refl
exists-of_listed key a ids q r (x ∷ rows) h k = elim (Bool-cases (key x == a)) [
  | inl t ↦
      let same : key x ≡ a = ground arith in
      let listed : contains (key x) ids ≡ true = rw same h in
      let both : q x ≡ r x = k x t listed in ground (arith, exists-of_listed key a ids q r rows h k)
  | inr n ↦ ground (arith, exists-of_listed key a ids q r rows h k)
]

-- What the difference of the ids asked for and those of the rows that a query finds contains.
difference_exact :
    {A : Type 0} (key : A → ℕ) (a : ℕ) (ids : List ℕ) (q r : A → Bool) (rows : List A)
    → ((x : A) → q x ≡ (r x && contains (key x) (unique_ids ids)))
    → contains a (difference (unique_ids ids) (map key (select q rows)))
      ≡ (contains a ids && not (exists (λ x. (key x == a) && r x) rows))
unfolding unique_ids
difference_exact key a ids q r rows same =
    let listed : contains a (unique_from [] ids) ≡ contains a ids =
      contains-unique_from a [] ids ∙ ground arith in
    elim (Bool-cases (contains a ids)) [
      | inl t ↦
          contains-select a _ (unique_from [] ids)
          ∙ rw
              (
                contains-map-select key a q rows,
                exists-of_listed key a (unique_from [] ids) q r rows (listed ∙ t)
                    (λ x k m. same x ∙ rw m (ground arith)),
                listed,
              )
              refl
      | inr n ↦ contains-select a _ (unique_from [] ids) ∙ rw (listed, n) refl
    ]

-- The ids that findInvalidAccountIds() answers are exactly those of the request for which the
-- caller's entity has no active account; nothing changes.
pub invalid_accounts_exact :
    (c : Caller) (ids : List ℕ) (a : ℕ) (db : Db)
    → Ensures
        (λ invalid db'.
          (db' ≡ db)
          × (contains a invalid
              ≡ (contains a ids && not (exists (usable_account c a) db.chart_of_accounts))))
        (find_invalid_account_ids c ids db)
unfolding find_invalid_account_ids
invalid_accounts_exact c ids a db = (
  refl,
  difference_exact (λ (x : Account). x.id) a ids
      (λ (x : Account).
        (x.tenant_id == c.tenant_id)
        && (x.legal_entity_id == c.legal_entity_id)
        && x.is_active
        && contains x.id (unique_ids ids))
      (λ x. in_scope c x.tenant_id x.legal_entity_id && x.is_active) db.chart_of_accounts
      (λ x. ground arith),
)

-- The ids that findInvalidTaxCodeIds() answers are exactly those of the request for which the
-- legal entity has no active tax code; nothing changes.
pub invalid_tax_codes_exact :
    (c : Caller) (ids : List ℕ) (a : ℕ) (db : Db)
    → Ensures
        (λ invalid db'.
          (db' ≡ db)
          × (contains a invalid
              ≡ (contains a ids && not (exists (usable_tax_code c a) db.tax_codes))))
        (find_invalid_tax_code_ids c ids db)
unfolding find_invalid_tax_code_ids
invalid_tax_codes_exact c ids a db = (
  refl,
  difference_exact (λ (x : TaxCode). x.id) a ids
      (λ t.
        (t.legal_entity_id == c.legal_entity_id) && t.is_active && contains t.id (unique_ids ids))
      (λ t. (t.legal_entity_id == c.legal_entity_id) && t.is_active) db.tax_codes
      (λ x. ground arith),
)
