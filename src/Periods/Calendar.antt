-- ===== src/Periods/Calendar.antt =====
-- The accounting periods of a legal entity never overlap.
use noryx_platform.Database.Tx.{ok, with_tenant, Ensures, Ensures-map}
use noryx_platform.Common.{
  ℕ, ◌≡◌, refl, ◌∙◌, Bool, true, false, none, some, List, [], ◌∷◌, ◌++◌, arith, Bool-cases, inl,
  inr, All, All-append, All-map,
}
use noryx_platform.Common.Rows.{
  find-update_if, find, update_where, All-update_where, All-find, find_holds,
}
use noryx_platform.Database.{Db, Caller, Platform, AccountingPeriod, open_period}
use noryx_platform.Journal.{covers}
use noryx_platform.Periods.{
  CreateAccountingPeriodDto, overlaps, open_key, mark_closed, create, close,
}

abbrev pub period_scope : AccountingPeriod → Caller
period_scope q = record {
  tenant_id = q.tenant_id;
  legal_entity_id = q.legal_entity_id;
  actor_user_id = none;
}

-- One day that two periods of one entity cover.
abbrev pub Meets : AccountingPeriod → AccountingPeriod → Type 0
Meets q r =
    (day : ℕ) × (covers (period_scope q) day q ≡ true) × (covers (period_scope q) day r ≡ true)

abbrev pub IsCalendar : List AccountingPeriod → Type 0
IsCalendar [] = Unit
IsCalendar (q ∷ qs) = All (λ r. ¬ (Meets q r)) qs × IsCalendar qs

pub record Opens (p : Platform) (c : Caller) (dto : CreateAccountingPeriodDto) (db db' : Db)
    (r : AccountingPeriod) : Type 0 where
  pub clear : find (overlaps c dto.start_date dto.end_date) db.accounting_periods ≡ none
  pub scope_tenant : r.tenant_id ≡ c.tenant_id
  pub scope_entity : r.legal_entity_id ≡ c.legal_entity_id
  pub starts : r.start_date ≡ dto.start_date
  pub ends : r.end_date ≡ dto.end_date
  pub is_open : r.status ≡ open_period
  pub periods : db'.accounting_periods ≡ db.accounting_periods ++ r ∷ []
  pub same_entries : db'.journal_entries ≡ db.journal_entries
  pub same_lines : db'.journal_lines ≡ db.journal_lines
  pub same_counters : db'.journal_number_counters ≡ db.journal_number_counters

pub create_shape :
    (p : Platform) (c : Caller) (dto : CreateAccountingPeriodDto) (db : Db)
    → Ensures (λ r db'. Opens p c dto db db' r) (create p c dto db)
unfolding create
create_shape p c dto db = ground arith

All-find-none :
    {A : Type 0} (t : A → Bool) (xs : List A) → find t xs ≡ none → All (λ x. t x ≡ false) xs
All-find-none t [] h = tt
All-find-none t (x ∷ xs) h = elim (Bool-cases (t x)) [
  | inl y ↦ absurd (ground arith)
  | inr n ↦ (n, All-find-none t xs (ground arith))
]

IsCalendar-snoc :
    (qs : List AccountingPeriod) (r : AccountingPeriod)
    → All (λ q. ¬ (Meets q r)) qs
    → IsCalendar qs
    → IsCalendar (qs ++ r ∷ [])
IsCalendar-snoc [] r h k = (tt, tt)
IsCalendar-snoc (q ∷ qs) r h k =
    (All-append (λ x. ¬ (Meets q x)) qs (r ∷ []) k.0 (h.0, tt), IsCalendar-snoc qs r h.1 k.1)

-- A new period meets none of those that the overlap query did not find.
apart :
    (p : Platform) (c : Caller) (dto : CreateAccountingPeriodDto) (db db' : Db)
    (r q : AccountingPeriod)
    → Opens p c dto db db' r
    → overlaps c dto.start_date dto.end_date q ≡ false
    → ¬ (Meets q r)
apart p c dto db db' r q s n (day, a, b) =
    absurd (ground (arith, s.scope_tenant, s.scope_entity, s.starts, s.ends))

-- If no two periods of one entity share a day, creating a period keeps it so.
pub create-IsCalendar :
    (p : Platform) (c : Caller) (dto : CreateAccountingPeriodDto) (db : Db)
    → IsCalendar db.accounting_periods
    → Ensures (λ r db'. IsCalendar db'.accounting_periods) (create p c dto db)
create-IsCalendar p c dto db h =
    Ensures-map (λ r db'. Opens p c dto db db' r) (λ r db'. IsCalendar db'.accounting_periods)
      (create p c dto db)
      (λ r db' s. rw s.periods (
        IsCalendar-snoc db.accounting_periods r
          (All-map (λ q. overlaps c dto.start_date dto.end_date q ≡ false) (λ q. ¬ (Meets q r))
            db.accounting_periods (λ q n. apart p c dto db db' r q s n)
            (All-find-none _ db.accounting_periods s.clear))
          h))
      (create_shape p c dto db)

pub record Closes (p : Platform) (c : Caller) (id : ℕ) (db db' : Db) (r : AccountingPeriod)
    : Type 0 where
  pub before : AccountingPeriod
  pub found : find (open_key c id) db.accounting_periods ≡ some before
  pub result : r ≡ mark_closed p c before
  pub periods :
      db'.accounting_periods ≡ update_where (open_key c id) (mark_closed p c) db.accounting_periods
  pub same_entries : db'.journal_entries ≡ db.journal_entries
  pub same_lines : db'.journal_lines ≡ db.journal_lines
  pub same_counters : db'.journal_number_counters ≡ db.journal_number_counters

pub close_shape :
    (p : Platform) (c : Caller) (id : ℕ) (db : Db)
    → Ensures (λ r db'. Closes p c id db db' r) (close p c id db)
unfolding close
close_shape p c id db = ground arith

IsCalendar-update_where :
    (t : AccountingPeriod → Bool) (p : Platform) (c : Caller) (qs : List AccountingPeriod)
    → IsCalendar qs
    → IsCalendar (update_where t (mark_closed p c) qs)
unfolding mark_closed
IsCalendar-update_where t p c [] h = tt
IsCalendar-update_where t p c (q ∷ qs) h =
    let rest : All (λ r. ¬ (Meets q r)) (update_where t (mark_closed p c) qs) =
      All-update_where (λ r. ¬ (Meets q r)) t (mark_closed p c) qs (λ r n y. n) h.0 in
    elim (Bool-cases (t q)) [
      | inl y ↦ rw y (rest, IsCalendar-update_where t p c qs h.1)
      | inr n ↦ rw n (rest, IsCalendar-update_where t p c qs h.1)
    ]

pub close-IsCalendar :
    (p : Platform) (c : Caller) (id : ℕ) (db : Db)
    → IsCalendar db.accounting_periods
    → Ensures (λ r db'. IsCalendar db'.accounting_periods) (close p c id db)
close-IsCalendar p c id db h =
    Ensures-map (λ r db'. Closes p c id db db' r) (λ r db'. IsCalendar db'.accounting_periods)
      (close p c id db)
      (λ r db' s.
        rw s.periods (IsCalendar-update_where (open_key c id) p c db.accounting_periods h))
      (close_shape p c id db)

-- In a calendar the period that covers a day is the one that the lookup finds.
covering :
    (t : AccountingPeriod → Bool) (c : Caller) (day : ℕ) (qs : List AccountingPeriod)
    (r : AccountingPeriod)
    → IsCalendar qs
    → find t qs ≡ some r
    → covers c day r ≡ true
    → find (covers c day) qs ≡ some r
covering t c day [] r h f k = cc
covering t c day (q ∷ qs) r h f k = elim (Bool-cases (t q)) [
  | inl y ↦ let same : q ≡ r = ground arith in rw (same, k)
  | inr n ↦
      let later : find t qs ≡ some r = ground arith in
      elim (Bool-cases (covers c day q)) [
        | inl y ↦
            absurd
              (All-find (λ x. ¬ (Meets q x)) t qs r h.0 later (day, ground arith, ground arith))
        | inr m ↦ rw m (covering t c day qs r h.1 later k)
      ]
]

-- In a calendar without overlaps, closing a period of the caller's that is open succeeds, and then
-- the period that is found for a day that it covers is this one, closed.
pub close_then_locked :
    (p : Platform) (c : Caller) (id day : ℕ) (q : AccountingPeriod) (db : Db)
    → IsCalendar db.accounting_periods
    → find (open_key c id) db.accounting_periods ≡ some q
    → covers c day q ≡ true
    → ((with_tenant (close p c id) db).0 ≡ ok (mark_closed p c q))
      × (find (covers c day) (with_tenant (close p c id) db).1.accounting_periods
          ≡ some (mark_closed p c q))
unfolding close mark_closed with_tenant
close_then_locked p c id day q db h found was =
    let key : open_key c id q ≡ true = find_holds (open_key c id) db.accounting_periods q found in
    let there : find (covers c day)
          (update_where (open_key c id) (mark_closed p c) db.accounting_periods)
        ≡ some (mark_closed p c q) =
      find-update_if (covers c day) (open_key c id) (mark_closed p c) db.accounting_periods q
        (λ x. refl) (covering (open_key c id) c day db.accounting_periods q h found was)
      ∙ rw key in
    ground (arith, there)
