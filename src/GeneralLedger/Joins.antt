-- ===== src/GeneralLedger/Joins.antt =====
-- Sums over the lines that a join selects: over the entries of a join, a line counts once, and
-- over the accounts of a grouping too.
use noryx_platform.Common.{
  ℕ, ◌+◌, ◌≡◌, refl, sym, ap, ◌∙◌, Bool, true, false, ◌&&◌, ◌||◌, List, [], ◌∷◌, map, arith, ◌==◌,
  Bool-cases, inl, inr, sum, All,
}
use noryx_platform.Common.Rows.{select, exists}
use noryx_platform.Common.Ordering.{order_by, insert_by}
use noryx_platform.Common.Keys.{IsKeyed, at_key}

module _ {A : Type 0} (f : A → ℕ) where
  -- Tests that agree on the rows of a table select rows with the same sum.
  pub sum-select_agree :
      (p q : A → Bool) (xs : List A)
      → All (λ x. p x ≡ q x) xs
      → sum f (select p xs) ≡ sum f (select q xs)
  sum-select_agree p q [] h = refl
  sum-select_agree p q (x ∷ xs) h = ground (arith, h.0, sum-select_agree p q xs h.1)

  pub sum-select_all :
      (p : A → Bool) (xs : List A) → All (λ x. p x ≡ true) xs → sum f (select p xs) ≡ sum f xs
  sum-select_all p [] h = refl
  sum-select_all p (x ∷ xs) h = ground (arith, h.0, sum-select_all p xs h.1)

  pub sum-select_none :
      (p : A → Bool) (xs : List A) → ((x : A) → p x ≡ false) → sum f (select p xs) ≡ 0
  sum-select_none p [] h = refl
  sum-select_none p (x ∷ xs) h = ground (arith, h x, sum-select_none p xs h)

  -- Two tests that exclude each other.
  pub sum-select_either :
      (p q : A → Bool) (xs : List A)
      → ((x : A) → p x ≡ true → q x ≡ false)
      → sum f (select (λ x. p x || q x) xs) ≡ sum f (select p xs) + sum f (select q xs)
  sum-select_either p q [] h = refl
  sum-select_either p q (x ∷ xs) h = ground (arith, h x, sum-select_either p q xs h)

  sum-insert_by :
      (before : A → A → Bool) (r : A) (rs : List A) → sum f (insert_by before r rs) ≡ f r + sum f rs
  sum-insert_by before r [] = refl
  sum-insert_by before r (x ∷ rs) = ground (arith, sum-insert_by before r rs)

  pub sum-order_by : (before : A → A → Bool) (rs : List A) → sum f (order_by before rs) ≡ sum f rs
  sum-order_by before [] = refl
  sum-order_by before (r ∷ rs) =
      sum-insert_by before r (order_by before rs) ∙ ap (λ n. f r + n) (sum-order_by before rs)

pub sum-map :
    {A B : Type 0} (f : B → ℕ) (g : A → B) (xs : List A) → sum f (map g xs) ≡ sum (λ x. f (g x)) xs
sum-map f g [] = refl
sum-map f g (x ∷ xs) = ap (λ n. f (g x) + n) (sum-map f g xs)

module _ {A : Type 0} where
  pub All-select :
      (P Q : A → Type 0) (p : A → Bool) (xs : List A)
      → ((x : A) → p x ≡ true → P x → Q x)
      → All P xs
      → All Q (select p xs)
  All-select P Q p [] k h = tt
  All-select P Q p (x ∷ xs) k h = elim (Bool-cases (p x)) [
    | inl t ↦ rw t (k x t h.0, All-select P Q p xs k h.1)
    | inr t ↦ rw t (All-select P Q p xs k h.1)
  ]

  pub exists-implies :
      (p q : A → Bool) (xs : List A)
      → ((x : A) → p x ≡ true → q x ≡ true)
      → exists q xs ≡ false
      → exists p xs ≡ false
  exists-implies p q [] k h = refl
  exists-implies p q (x ∷ xs) k h = ground (arith, k x, exists-implies p q xs k)

  pub exists-holds :
      (p q : A → Bool) (xs : List A)
      → ((x : A) → p x ≡ true → q x ≡ true)
      → exists p xs ≡ true
      → exists q xs ≡ true
  exists-holds p q [] k h = absurd (cc)
  exists-holds p q (x ∷ xs) k h = ground (arith, k x, exists-holds p q xs k)

  exists-select :
      (p q : A → Bool) (xs : List A) → exists q xs ≡ false → exists q (select p xs) ≡ false
  exists-select p q [] h = refl
  exists-select p q (x ∷ xs) h = ground (arith, exists-select p q xs)

  pub exists-select_and :
      (p q : A → Bool) (xs : List A) → exists q (select p xs) ≡ exists (λ x. p x && q x) xs
  exists-select_and p q [] = refl
  exists-select_and p q (x ∷ xs) = ground (arith, exists-select_and p q xs)

  pub IsKeyed-select :
      (key : A → ℕ) (p : A → Bool) (xs : List A) → IsKeyed key xs → IsKeyed key (select p xs)
  IsKeyed-select key p [] h = tt
  IsKeyed-select key p (x ∷ xs) h = elim (Bool-cases (p x)) [
    | inl t ↦ rw t (exists-select p (at_key key (key x)) xs h.0, IsKeyed-select key p xs h.1)
    | inr t ↦ rw t (IsKeyed-select key p xs h.1)
  ]

module _ {A B : Type 0} (f : A → ℕ) (key : B → ℕ) (ref : A → ℕ) (xs : List A) where
  -- `GROUP BY` of a join on a key loses no line that has a row, and counts none twice.
  pub sum-grouped :
      (ys : List B)
      → IsKeyed key ys
      → sum (λ y. sum f (select (λ x. ref x == key y) xs)) ys
        ≡ sum f (select (λ x. exists (λ y. ref x == key y) ys) xs)
  sum-grouped [] h = sym (sum-select_none f (λ x. false) xs (λ x. refl))
  sum-grouped (y ∷ ys) h =
      ap (λ n. sum f (select (λ x. ref x == key y) xs) + n) (sum-grouped ys h.1)
      ∙ sym (
          sum-select_either f (λ x. ref x == key y) (λ x. exists (λ z. ref x == key z) ys) xs
            (λ x t.
              exists-implies (λ z. ref x == key z) (at_key key (key y)) ys (λ z s. ground arith)
                h.0))
