-- ===== src/Examples/Bills.antt =====
-- A bill that is paid in part, and the payment taken back.
use noryx_platform.Settlement.Reversed.{reverse_in_tx-resolve_reversal_info}
use noryx_platform.Settlement.{
  resolve_reversal_info, info_of, TargetRow, target_row, settle, fits, unsettled_status,
  unsettle_target,
}
use noryx_platform.Journal.{reverse_in_tx}
use noryx_platform.Examples.Data.{desk, books-IsBooks, clerk, books}
use noryx_platform.Database.{PaymentStatus}
use noryx_platform.Database.Tx.{Ensures, ok}
use noryx_platform.Common.{none, ◌≡◌, refl, some, [], ◌∷◌, ◌==◌, arith}
use noryx_platform.Common.Rows.{update_where}
use noryx_platform.Settlement.Mirror.{IsSettlement, settle-IsSettlement, unsettle-settle}

abbrev bill : TargetRow
bill = record {
  id = 4;
  paid_minor = 30;
  payment_status = PaymentStatus.partially_paid;
  total_minor = 100;
}

bill-IsSettlement : IsSettlement bill
unfolding unsettled_status
bill-IsSettlement = record { due = omega arith; covered = omega arith; status = refl }

settle-IsSettlement_example : IsSettlement (settle target_row 70 bill bill)
unfolding fits
settle-IsSettlement_example = settle-IsSettlement bill 70 bill-IsSettlement refl

unsettle-settle_example :
    unsettle_target target_row
      (settle target_row 70 bill bill ∷ [])
      (settle target_row 70 bill bill)
      70
    ≡ ok (
      some bill,
      update_where
          (λ (x : TargetRow). x.id == 4)
          (λ x. record x { paid_minor = 30; payment_status = PaymentStatus.partially_paid })
          (settle target_row 70 bill bill ∷ []),
    )
unfolding settle
unsettle-settle_example =
    unsettle-settle (settle target_row 70 bill bill ∷ []) bill 70 (omega arith, omega arith) refl

reverse_in_tx-resolve_reversal_info_example :
    Ensures
      (λ r db'. resolve_reversal_info (some 2) db' ≡ ok (some (info_of r.entry), db'))
      (reverse_in_tx desk clerk 2 (record { transaction_date = none; memo = none }) books)
reverse_in_tx-resolve_reversal_info_example =
    reverse_in_tx-resolve_reversal_info desk clerk 2
      (record { transaction_date = none; memo = none }) books books-IsBooks.sound.unique
