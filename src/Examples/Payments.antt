-- ===== src/Examples/Payments.antt =====
-- Two payments: a draft, and a posted one with two allocations to one bill.
use noryx_platform.SupplierPayments.{
  lock_bills, post, ApplySupplierPaymentAllocationDto, apply_allocation, reverse,
}
use noryx_platform.SupplierPayments.Paid.{IsPaid, post_pays}
use noryx_platform.Database.Tx.{Achieves, ok, Ensures}
use noryx_platform.Examples.Data.{
  account, draft_payment, january, bill, desk, clerk, part_paid_bill, books,
}
use noryx_platform.Settlement.{unsettled_status}
use noryx_platform.Common.{none, refl, [], ◌∷◌, ◌≡◌, arith}
use noryx_platform.Journal.{ReverseJournalEntryDto}
use noryx_platform.SupplierPayments.Payables.{IsPayables}
use noryx_platform.SupplierPayments.Keeping.{
  post-IsPayables, apply_allocation-IsPayables, reverse-IsPayables,
}
use noryx_platform.SupplierPayments.Applied.{IsCovered, post-IsCovered, apply_allocation-IsCovered}
use noryx_platform.SupplierPayments.Unwinding.{LeftPaid, reverse_restores_last}

abbrev taken_back : ReverseJournalEntryDto
taken_back = record { transaction_date = none; memo = none }

abbrev on_account : ApplySupplierPaymentAllocationDto
on_account = record {
  allocations = record { bill_id = 1; allocated_amount_minor = 20 } ∷ [];
  allocation_date = none;
}

books-IsPayables : IsPayables books
unfolding unsettled_status
books-IsPayables = record {
  bills = record {
    keyed = (refl, (refl, tt));
    paid_up = ((omega arith, refl), ((omega arith, refl), tt));
  };
  positive = (omega arith, (omega arith, (omega arith, tt)));
}

post-IsPayables_example : Ensures (λ r db'. IsPayables db') (post desk clerk 1 books)
post-IsPayables_example = post-IsPayables desk clerk 1 books books-IsPayables

apply_allocation-IsPayables_example :
    Ensures (λ r db'. IsPayables db') (apply_allocation desk clerk 2 on_account books)
apply_allocation-IsPayables_example =
    apply_allocation-IsPayables desk clerk 2 on_account books (omega arith, tt) books-IsPayables

reverse-IsPayables_example :
    Ensures (λ r db'. IsPayables db') (reverse desk clerk 2 taken_back books)
reverse-IsPayables_example = reverse-IsPayables desk clerk 2 taken_back books books-IsPayables

post-IsCovered_example : Ensures (λ r db'. IsCovered clerk 1 db' r) (post desk clerk 1 books)
post-IsCovered_example = post-IsCovered desk clerk 1 books

apply_allocation-IsCovered_example :
    Ensures (λ r db'. IsCovered clerk 2 db' r) (apply_allocation desk clerk 2 on_account books)
apply_allocation-IsCovered_example = apply_allocation-IsCovered desk clerk 2 on_account books

-- Of the 50 that both allocations had settled, 20 stay paid.
reverse_restores_last_example :
    Ensures (λ r db'. LeftPaid 2 20 db') (reverse desk clerk 2 taken_back books)
reverse_restores_last_example =
    reverse_restores_last desk clerk 2 part_paid_bill 2 taken_back books
      books-IsPayables.bills.keyed refl

draft_locked : lock_bills clerk (1 ∷ []) books ≡ ok (bill 1 100 0 ∷ [], books)
unfolding lock_bills
draft_locked = refl

post_pays_example :
    Achieves (λ r db'. IsPaid desk clerk draft_payment 30 1 books db' r) (post desk clerk 1 books)
post_pays_example =
    post_pays desk clerk 1 draft_payment (account 10)
      (record {
        tenant_id = 1;
        legal_entity_id = 1;
        ap_control_account_id = 30;
        tax_input_account_id = none;
      })
      january (bill 1 100 0 ∷ []) books refl refl (omega arith) refl refl refl refl refl
      draft_locked
      (
        record {
          bill = bill 1 100 0;
          found = refl;
          was_posted = refl;
          of_supplier = refl;
          outstanding = omega arith;
        },
        tt,
      )
      (omega arith)
