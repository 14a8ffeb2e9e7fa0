-- ===== src/Deferral/Plan.antt =====
-- The recognition plan that create() stores reconciles with its schedule.
use noryx_platform.Deferral.Schedules.{
  create, new_schedule, CreateDeferralScheduleDto, CreateDeferralOccurrenceDto, insert_by_date,
  sort_by_date, number_recognitions,
}
use noryx_platform.Database.Tx.{Ensures, Ensures-map}
use noryx_platform.Database.{
  Db, Caller, Platform, ScheduleWithRecognitions, RecognitionStatus, DeferralRecognition,
}
use noryx_platform.Common.{
  ◌++◌, map, ap, sym, ◌∙◌, inr, inl, Bool-cases, ℕ, ◌+◌, ◌≤◌, ◌≡◌, refl, List, [], ◌∷◌, arith, leb,
  length, sum,
}

sum-insert_by_date :
    (o : CreateDeferralOccurrenceDto) (os : List CreateDeferralOccurrenceDto)
    → sum (λ x. x.amount_minor) (insert_by_date o os)
      ≡ o.amount_minor + sum (λ x. x.amount_minor) os
unfolding insert_by_date
sum-insert_by_date o [] = refl
sum-insert_by_date o (x ∷ os) = ground (arith, sum-insert_by_date o os)

sum-sort_by_date :
    (os : List CreateDeferralOccurrenceDto)
    → sum (λ x. x.amount_minor) (sort_by_date os) ≡ sum (λ x. x.amount_minor) os
unfolding sort_by_date
sum-sort_by_date [] = refl
sum-sort_by_date (o ∷ os) =
    ground (arith, sum-insert_by_date o (sort_by_date os), sum-sort_by_date os)

length-insert_by_date :
    (o : CreateDeferralOccurrenceDto) (os : List CreateDeferralOccurrenceDto)
    → length (insert_by_date o os) ≡ length os + 1
unfolding insert_by_date
length-insert_by_date o [] = refl
length-insert_by_date o (x ∷ os) = ground (arith, length-insert_by_date o os)

length-sort_by_date : (os : List CreateDeferralOccurrenceDto) → length (sort_by_date os) ≡ length os
unfolding sort_by_date
length-sort_by_date [] = refl
length-sort_by_date (o ∷ os) =
    ground (arith, length-insert_by_date o (sort_by_date os), length-sort_by_date os)

-- The dates of a list of occurrences rise from one to the next.
abbrev RisesFrom : ℕ → List CreateDeferralOccurrenceDto → Type 0
RisesFrom d [] = Unit
RisesFrom d (o ∷ os) = (d ≤ o.target_date) × RisesFrom o.target_date os

RisesFrom-insert_by_date :
    (d : ℕ) (o : CreateDeferralOccurrenceDto) (os : List CreateDeferralOccurrenceDto)
    → d ≤ o.target_date
    → RisesFrom d os
    → RisesFrom d (insert_by_date o os)
unfolding insert_by_date
RisesFrom-insert_by_date d o [] h k = (h, tt)
RisesFrom-insert_by_date d o (x ∷ os) h k = elim (Bool-cases (leb o.target_date x.target_date)) [
  | inl t ↦ rw t (h, (ground arith, k.1))
  | inr n ↦ rw n (k.0, RisesFrom-insert_by_date x.target_date o os (ground arith) k.1)
]

RisesFrom-sort_by_date : (os : List CreateDeferralOccurrenceDto) → RisesFrom 0 (sort_by_date os)
unfolding sort_by_date
RisesFrom-sort_by_date [] = tt
RisesFrom-sort_by_date (o ∷ os) =
    RisesFrom-insert_by_date 0 o (sort_by_date os) (omega arith) (RisesFrom-sort_by_date os)

-- Recognitions numbered on from `k`, with dates from `d` on that do not fall, all scheduled.
abbrev pub IsPlan : ℕ → ℕ → List DeferralRecognition → Type 0
IsPlan k d [] = Unit
IsPlan k d (r ∷ rs) =
    (r.sequence_number ≡ k)
    × (d ≤ r.target_date)
    × (r.status ≡ RecognitionStatus.scheduled)
    × IsPlan (k + 1) r.target_date rs

module _ (p : Platform) (c : Caller) where
  IsPlan-number :
      (ids : List ℕ) (schedule k d : ℕ) (os : List CreateDeferralOccurrenceDto)
      → RisesFrom d os
      → IsPlan (k + 1) d (number_recognitions p c ids schedule k os)
  unfolding number_recognitions
  IsPlan-number ids schedule k d [] h = tt
  IsPlan-number ids schedule k d (o ∷ os) h =
      (refl, h.0, refl, IsPlan-number (p.new_id ids ∷ ids) schedule (k + 1) o.target_date os h.1)

  sum-number_recognitions :
      (ids : List ℕ) (schedule k : ℕ) (os : List CreateDeferralOccurrenceDto)
      → sum (λ r. r.amount_minor) (number_recognitions p c ids schedule k os)
        ≡ sum (λ o. o.amount_minor) os
  unfolding number_recognitions
  sum-number_recognitions ids schedule k [] = refl
  sum-number_recognitions ids schedule k (o ∷ os) =
      ground (arith, sum-number_recognitions (p.new_id ids ∷ ids) schedule (k + 1) os)

  record Stores (dto : CreateDeferralScheduleDto) (db db' : Db) (r : ScheduleWithRecognitions)
      : Type 0 where
    total : r.schedule.total_amount_minor ≡ dto.total_amount_minor
    even : sum (λ o. o.amount_minor) dto.occurrences ≡ dto.total_amount_minor
    rows :
        r.recognitions
        ≡ number_recognitions p c
            (map (λ x. x.id) db.deferral_recognitions)
            r.schedule.id
            0
            (sort_by_date dto.occurrences)
    stored : db'.deferral_recognitions ≡ db.deferral_recognitions ++ r.recognitions

  store_shape :
      (dto : CreateDeferralScheduleDto) (db : Db)
      → Ensures (λ r db'. Stores dto db db' r) (create p c dto db)
  unfolding create new_schedule
  store_shape dto db = ground arith

  -- The recognitions that a successful create() of a schedule stores add up to the schedule's
  -- total, are numbered 1, 2, … in the order of their dates, and all wait to be recognised.
  pub create_reconciles :
      (dto : CreateDeferralScheduleDto) (db : Db)
      → Ensures
          (λ r db'.
            (sum (λ x. x.amount_minor) r.recognitions ≡ r.schedule.total_amount_minor)
            × IsPlan 1 0 r.recognitions
            × (db'.deferral_recognitions ≡ db.deferral_recognitions ++ r.recognitions))
          (create p c dto db)
  create_reconciles dto db =
      Ensures-map (λ r db'. Stores dto db db' r) _ (create p c dto db)
        (λ r db' s.
          let ids = map (λ (x : DeferralRecognition). x.id) db.deferral_recognitions in
          let os = sort_by_date dto.occurrences in
          (
            ap (λ (rs : List DeferralRecognition). sum (λ x. x.amount_minor) rs) s.rows
                ∙ sum-number_recognitions ids r.schedule.id 0 os
                ∙ sum-sort_by_date dto.occurrences
                ∙ s.even
                ∙ sym s.total,
            rw s.rows
                (IsPlan-number ids r.schedule.id 0 0 os (RisesFrom-sort_by_date dto.occurrences)),
            s.stored,
          ))
        (store_shape dto db)
