-- ===== src/Common/Ordering.antt =====
-- ORDER BY as an insertion sort, and LIMIT.
use mathlib.Core.Path.{◌≡◌, refl, ap}
use Prim.Native.Nat.{ℕ, zero, suc, ◌+◌, ◌≤◌}
use mathlib.Core.Bool.{Bool, ◌&&◌, ◌||◌}
use mathlib.Core.List.{List, [], ◌∷◌, map}
use native.Mathlib.Omega.{arith}
use noryx_platform.Common.Tests.{◌==◌, if◌then◌else◌}
use noryx_platform.Common.Sums.{length, contains}
use noryx_platform.Common.Rows.{exists, select}

module _ {A : Type 0} where
  -- `limit(n)`
  abbrev pub take : ℕ → List A → List A
  take zero xs = []
  take (suc n) [] = []
  take (suc n) (x ∷ xs) = x ∷ take n xs

  pub length-take : (n : ℕ) (xs : List A) → length (take n xs) ≤ n
  length-take zero xs = omega arith
  length-take (suc n) [] = omega arith
  length-take (suc n) (x ∷ xs) = ground (arith, length-take n xs)

  pub take-all : (n : ℕ) (xs : List A) → length xs ≤ n → take n xs ≡ xs
  take-all zero [] h = refl
  take-all zero (x ∷ xs) h = absurd (omega (arith, h))
  take-all (suc n) [] h = refl
  take-all (suc n) (x ∷ xs) h = ap (λ t. x ∷ t) (take-all n xs (omega (arith, h)))

pub length-map : {A B : Type 0} (f : A → B) (xs : List A) → length (map f xs) ≡ length xs
length-map f [] = refl
length-map f (x ∷ xs) = ground (arith, length-map f xs)

-- `orderBy`, for the test that the first row comes no later than the second.
module _ {A : Type 0} (before : A → A → Bool) where
  abbrev pub insert_by : A → List A → List A
  insert_by r [] = r ∷ []
  insert_by r (x ∷ xs) = let rest = insert_by r xs in if before r x then r ∷ x ∷ xs else x ∷ rest

  abbrev pub order_by : List A → List A
  order_by [] = []
  order_by (r ∷ rs) = insert_by r (order_by rs)

  length-insert_by : (r : A) (rs : List A) → length (insert_by r rs) ≡ length rs + 1
  length-insert_by r [] = refl
  length-insert_by r (x ∷ rs) = ground (arith, length-insert_by r rs)

  pub length-order_by : (rs : List A) → length (order_by rs) ≡ length rs
  length-order_by [] = refl
  length-order_by (r ∷ rs) = ground (arith, length-insert_by r (order_by rs), length-order_by rs)

  module _ (key : A → ℕ) where
    contains-insert_by :
        (a : ℕ) (r : A) (rs : List A)
        → contains a (map key (insert_by r rs)) ≡ ((a == key r) || contains a (map key rs))
    contains-insert_by a r [] = refl
    contains-insert_by a r (x ∷ rs) = ground (arith, contains-insert_by a r rs)

    -- An order loses no row and adds none.
    pub contains-order_by :
        (a : ℕ) (rs : List A) → contains a (map key (order_by rs)) ≡ contains a (map key rs)
    contains-order_by a [] = refl
    contains-order_by a (r ∷ rs) =
        ground (arith, contains-insert_by a r (order_by rs), contains-order_by a rs)

pub contains-select :
    {A : Type 0} (key : A → ℕ) (a : ℕ) (q : A → Bool) (rs : List A)
    → contains a (map key (select q rs)) ≡ exists (λ r. (key r == a) && q r) rs
contains-select key a q [] = refl
contains-select key a q (r ∷ rs) = ground (arith, contains-select key a q rs)
