-- ===== src/Settlement/Mirror.antt =====
-- Settling and unsettling are mirror images, and the two ways to an open period agree.
use mathlib.Core.Path.{ap₂}
use noryx_platform.Common.{ℕ, ◌+◌, ◌-◌, ◌≡◌, ◌≤◌, true, some, List, arith, refl, ap, ◌∙◌, ◌==◌, leb}
use noryx_platform.Common.Rows.{find, update_where, find-update_where}
use noryx_platform.Database.{Db, Caller, PaymentStatus}
use noryx_platform.Database.Tx.{ok}
use noryx_platform.Journal.{resolve_and_lock_open_period}
use noryx_platform.Settlement.{
  TargetRow, target_row, settled_status, unsettled_status, fits, settle, unsettle_target,
  resolve_open_period_or_throw,
}

-- The row's status is the one that its amounts ask for, and no more is paid than is due.
pub record IsSettlement (t : TargetRow) : Type 0 where
  pub due : 1 ≤ t.total_minor
  pub covered : t.paid_minor ≤ t.total_minor
  pub status : t.payment_status ≡ unsettled_status t.total_minor t.paid_minor

pub status_agrees :
    (total paid : ℕ) → 1 ≤ total → settled_status total paid ≡ unsettled_status total paid
unfolding settled_status unsettled_status
status_agrees total paid h = ground arith

-- Settling an allocation that fits into what is outstanding keeps a row of a positive total
-- consistent: no more is paid than is due, and the status says how much.
pub settle-IsSettlement :
    (t : TargetRow) (amount : ℕ)
    → IsSettlement t
    → fits target_row t amount ≡ true
    → IsSettlement (settle target_row amount t t)
unfolding settle fits
settle-IsSettlement t amount h f = record {
  due = h.due;
  covered = ground (arith, h.covered);
  status = status_agrees t.total_minor (t.paid_minor + amount) h.due;
}

-- The status that says of a row how much of its total is paid.
abbrev pub StatusOf : ℕ → ℕ → PaymentStatus → Type 0
StatusOf total paid PaymentStatus.unpaid = paid ≡ 0
StatusOf total paid PaymentStatus.partially_paid = (1 ≤ paid) × (paid + 1 ≤ total)
StatusOf total paid PaymentStatus.paid = (1 ≤ paid) × (paid ≡ total)

StatusOf-unsettled_status :
    (total paid : ℕ) (s : PaymentStatus) → StatusOf total paid s → unsettled_status total paid ≡ s
unfolding unsettled_status
StatusOf-unsettled_status total paid PaymentStatus.unpaid h = ground arith
StatusOf-unsettled_status total paid PaymentStatus.partially_paid h =
    let a = h.0 in let b = h.1 in ground (arith, a, b)
StatusOf-unsettled_status total paid PaymentStatus.paid h =
    let a = h.0 in let b = h.1 in ground (arith, a, b)

-- When a row's status says how much of it is paid - unpaid: nothing, partially paid: something and
-- less than the total, paid: the total - unsettling what was settled succeeds, and gives the row
-- its amount paid and its status back.
pub unsettle-settle :
    (table : List TargetRow) (t : TargetRow) (amount : ℕ)
    → StatusOf t.total_minor t.paid_minor t.payment_status
    → find (λ (x : TargetRow). x.id == t.id) table ≡ some (settle target_row amount t t)
    → (unsettle_target target_row table (settle target_row amount t t) amount
        ≡ ok (
          some t,
          update_where
              (λ (x : TargetRow). x.id == t.id)
              (λ x. record x { paid_minor = t.paid_minor; payment_status = t.payment_status })
              table,
        ))
unfolding unsettle_target settle
unsettle-settle table t amount h found =
    let paid : t.paid_minor + amount - amount ≡ t.paid_minor = omega arith in
    let enough : leb amount (t.paid_minor + amount) ≡ true = ground arith in
    let same : unsettled_status t.total_minor (t.paid_minor + amount - amount) ≡ t.payment_status =
      ap (unsettled_status t.total_minor) paid
      ∙ StatusOf-unsettled_status t.total_minor t.paid_minor t.payment_status h in
    let f = λ (n : ℕ) (s : PaymentStatus) (x : TargetRow). record x {
      paid_minor = n;
      payment_status = s;
    } in
    rw enough (
      ap
        (λ g. ok (
          find (λ (x : TargetRow). x.id == t.id)
              (update_where (λ (x : TargetRow). x.id == t.id) g table),
          update_where (λ (x : TargetRow). x.id == t.id) g table,
        ))
        (ap₂ f paid same)
      ∙ ap
          (λ r. ok (
            r,
            update_where (λ (x : TargetRow). x.id == t.id) (f t.paid_minor t.payment_status) table,
          ))
          (find-update_where (λ (x : TargetRow). x.id == t.id) (f t.paid_minor t.payment_status)
            table (settle target_row amount t t) (λ x. refl) found))

-- The wrapper for the document services answers and refuses as the journal's own check does.
resolve_open_period_or_throw_agrees :
    (c : Caller) (date : ℕ) (db : Db)
    → resolve_open_period_or_throw c date db ≡ resolve_and_lock_open_period c date db
unfolding resolve_open_period_or_throw resolve_and_lock_open_period
resolve_open_period_or_throw_agrees c date db = ground arith
