-- ===== src/Common/Rows.antt =====
-- The statements on one table that the services use, as functions on the list of its rows:
-- `select().where(p)`, the same with `limit(1)`, `update().set(f).where(p)`, `delete().where(p)`.
-- A query with no ORDER BY reads the rows in the order of insertion.
use mathlib.Core.Path.{◌≡◌, refl}
use mathlib.Core.Bool.{Bool, true, false, ◌&&◌, ◌||◌}
use mathlib.Core.Option.{Option, none, some}
use mathlib.Core.List.{List, [], ◌∷◌, ◌++◌}
use native.Mathlib.Omega.{arith}
use mathlib.Core.Logic.{inl, inr}
use noryx_platform.Common.Tests.{if◌then◌else◌, Bool-cases}
use noryx_platform.Common.Sums.{All}

or_true : (b : Bool) → (b || true) ≡ true
or_true true = refl
or_true false = refl

module _ {A : Type 0} where
  abbrev pub select : (A → Bool) → List A → List A
  select p [] = []
  select p (x ∷ xs) = let rest = select p xs in if p x then x ∷ rest else rest

  abbrev pub find : (A → Bool) → List A → Option A
  find p [] = none
  find p (x ∷ xs) = if p x then some x else find p xs

  abbrev pub exists : (A → Bool) → List A → Bool
  exists p [] = false
  exists p (x ∷ xs) = p x || exists p xs

  abbrev pub update_where : (A → Bool) → (A → A) → List A → List A
  update_where p f [] = []
  update_where p f (x ∷ xs) = (if p x then f x else x) ∷ update_where p f xs

  abbrev pub delete_where : (A → Bool) → List A → List A
  delete_where p [] = []
  delete_where p (x ∷ xs) = let rest = delete_where p xs in if p x then rest else x ∷ rest

  pub find_holds : (p : A → Bool) (xs : List A) (a : A) → find p xs ≡ some a → p a ≡ true
  find_holds p [] a e = cc
  find_holds p (x ∷ xs) a e = ground (arith, find_holds p xs a)

  pub exists-find :
      (p q : A → Bool) (xs : List A) (a : A) → find p xs ≡ some a → q a ≡ true → exists q xs ≡ true
  exists-find p q [] a e h = absurd (cc)
  exists-find p q (x ∷ xs) a e h = elim (Bool-cases (p x)) [
    | inl t ↦ let same : x ≡ a = ground arith in rw (same, h)
    | inr t ↦
        let later : find p xs ≡ some a = ground arith in
        rw (exists-find p q xs a later h) (or_true (q x))
  ]

  pub All-find :
      (P : A → Type 0) (p : A → Bool) (xs : List A) (a : A) → All P xs → find p xs ≡ some a → P a
  All-find P p [] a h e = absurd (cc)
  All-find P p (x ∷ xs) a h e = elim (Bool-cases (p x)) [
    | inl t ↦ let same : x ≡ a = ground arith in rw same at h.0
    | inr t ↦ All-find P p xs a h.1 (ground arith)
  ]

  pub exists-append :
      (p : A → Bool) (xs ys : List A) → exists p (xs ++ ys) ≡ (exists p xs || exists p ys)
  exists-append p [] ys = refl
  exists-append p (x ∷ xs) ys = ground (arith, exists-append p xs ys)

  -- An update that keeps the test `q` of every row keeps its outcome on the table.
  pub exists-update_where :
      (q p : A → Bool) (f : A → A) (xs : List A)
      → ((x : A) → q (f x) ≡ q x)
      → exists q (update_where p f xs) ≡ exists q xs
  exists-update_where q p f [] h = refl
  exists-update_where q p f (x ∷ xs) h = ground (arith, h x, exists-update_where q p f xs h)

  pub All-update_where :
      (P : A → Type 0) (p : A → Bool) (f : A → A) (xs : List A)
      → ((x : A) → P x → p x ≡ true → P (f x))
      → All P xs
      → All P (update_where p f xs)
  All-update_where P p f [] step h = tt
  All-update_where P p f (x ∷ xs) step h = (one (p x) refl, All-update_where P p f xs step h.1)
    where
      one : (b : Bool) → p x ≡ b → P (if p x then f x else x)
      one true t = rw t (step x h.0 t)
      one false t = rw t h.0

  pub find-update_where :
      (p : A → Bool) (f : A → A) (xs : List A) (a : A)
      → ((x : A) → p (f x) ≡ p x)
      → find p xs ≡ some a
      → find p (update_where p f xs) ≡ some (f a)
  find-update_where p f [] a h e = cc
  find-update_where p f (x ∷ xs) a h e = ground (arith, h x, find-update_where p f xs a h)

  pub find-append_none :
      (p : A → Bool) (xs ys : List A) → find p xs ≡ none → find p (xs ++ ys) ≡ find p ys
  find-append_none p [] ys h = refl
  find-append_none p (x ∷ xs) ys h = ground (arith, find-append_none p xs ys)

  pub find-append_some :
      (p : A → Bool) (xs ys : List A) (a : A) → find p xs ≡ some a → find p (xs ++ ys) ≡ some a
  find-append_some p [] ys a h = cc
  find-append_some p (x ∷ xs) ys a h = ground (arith, find-append_some p xs ys a)

  -- Rows that a query does not see change nothing for it.
  pub find-snoc_ne :
      (q : A → Bool) (xs : List A) (y : A) → q y ≡ false → find q (xs ++ y ∷ []) ≡ find q xs
  find-snoc_ne q [] y h = rw h
  find-snoc_ne q (x ∷ xs) y h = ground (arith, find-snoc_ne q xs y h)

  pub find-update_ne :
      (q p : A → Bool) (f : A → A) (xs : List A)
      → ((x : A) → q (f x) ≡ q x)
      → ((x : A) → p x ≡ true → q x ≡ false)
      → find q (update_where p f xs) ≡ find q xs
  find-update_ne q p f [] k ne = refl
  find-update_ne q p f (x ∷ xs) k ne = ground (arith, k x, ne x, find-update_ne q p f xs k ne)

  pub find-update_if :
      (q p : A → Bool) (f : A → A) (xs : List A) (a : A)
      → ((x : A) → q (f x) ≡ q x)
      → find q xs ≡ some a
      → find q (update_where p f xs) ≡ some (if p a then f a else a)
  find-update_if q p f [] a k h = cc
  find-update_if q p f (x ∷ xs) a k h = ground (arith, k x, find-update_if q p f xs a k)

  pub find-delete_ne :
      (q p : A → Bool) (xs : List A)
      → ((x : A) → p x ≡ true → q x ≡ false)
      → find q (delete_where p xs) ≡ find q xs
  find-delete_ne q p [] ne = refl
  find-delete_ne q p (x ∷ xs) ne = ground (arith, ne x, find-delete_ne q p xs ne)

  pub find-select :
      (p q : A → Bool) (xs : List A) → find p (select q xs) ≡ find (λ x. q x && p x) xs
  find-select p q [] = refl
  find-select p q (x ∷ xs) = ground (arith, find-select p q xs)
