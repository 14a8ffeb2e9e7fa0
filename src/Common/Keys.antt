-- ===== src/Common/Keys.antt =====
-- A table whose rows have different keys.
use mathlib.Core.Path.{◌≡◌, refl, ap, ◌∙◌, sym}
use mathlib.Core.Logic.{inl, inr}
use Prim.Native.Nat.{ℕ}
use mathlib.Core.Bool.{Bool, true, false}
use mathlib.Core.Option.{some}
use mathlib.Core.List.{List, [], ◌∷◌, ◌++◌, map}
use native.Mathlib.Omega.{arith}
use noryx_platform.Common.Tests.{◌==◌, Bool-cases, if◌then◌else◌}
use noryx_platform.Common.Sums.{All, contains}
use noryx_platform.Common.Rows.{
  exists, find, update_where, exists-append, exists-update_where, exists-find, find_holds,
}

module _ {A : Type 0} (key : A → ℕ) where
  abbrev pub at_key : ℕ → A → Bool
  at_key k x = key x == k

  abbrev pub IsKeyed : List A → Type 0
  IsKeyed [] = Unit
  IsKeyed (x ∷ xs) = (exists (at_key (key x)) xs ≡ false) × IsKeyed xs

  -- What is true of a found row is true of all rows with its key.
  abbrev pub IsOnly : ℕ → A → List A → Type 0
  IsOnly k a xs = All (λ x. (key x == k) ≡ true → x ≡ a) xs

  none_at : (k : ℕ) (a : A) (xs : List A) → exists (at_key k) xs ≡ false → IsOnly k a xs
  none_at k a [] h = tt
  none_at k a (x ∷ xs) h = ((λ t. absurd (ground arith)), none_at k a xs (ground arith))

  pub IsOnly-find :
      (q : A → Bool) (k : ℕ) (xs : List A) (a : A)
      → ((x : A) → q x ≡ true → (key x == k) ≡ true)
      → IsKeyed xs
      → find q xs ≡ some a
      → IsOnly k a xs
  IsOnly-find q k [] a h u e = tt
  IsOnly-find q k (x ∷ xs) a h u e = elim (Bool-cases (q x)) [
    | inl t ↦
        let same : x ≡ a = ground arith in
        let here : key x ≡ k = ground (arith, h x t) in
        ((λ s. same), none_at k a xs (ap (λ n. exists (at_key n) xs) (sym here) ∙ u.0))
    | inr n ↦
        let later : find q xs ≡ some a = ground arith in
        (
          (λ t.
              let at : (key a == k) ≡ true = h a (find_holds q xs a later) in
              let twice : exists (at_key (key x)) xs ≡ true =
                exists-find q (at_key (key x)) xs a later (ground arith) in
              let once : exists (at_key (key x)) xs ≡ false = u.0 in absurd (cc)),
          IsOnly-find q k xs a h u.1 later,
        )
  ]

  pub IsKeyed-snoc :
      (xs : List A) (a : A)
      → IsKeyed xs
      → contains (key a) (map key xs) ≡ false
      → IsKeyed (xs ++ a ∷ [])
  IsKeyed-snoc [] a u h = (refl, tt)
  IsKeyed-snoc (x ∷ xs) a u h = (
    exists-append (at_key (key x)) xs (a ∷ []) ∙ ground (arith, u.0),
    IsKeyed-snoc xs a u.1 (ground arith),
  )

  pub IsKeyed-update_where :
      (q : A → Bool) (f : A → A) (xs : List A)
      → ((x : A) → key (f x) ≡ key x)
      → IsKeyed xs
      → IsKeyed (update_where q f xs)
  IsKeyed-update_where q f [] k u = tt
  IsKeyed-update_where q f (x ∷ xs) k u =
      let same : key (if q x then f x else x) ≡ key x = one (q x) in
      (
        ap (λ n. exists (at_key n) (update_where q f xs)) same
            ∙ exists-update_where (at_key (key x)) q f xs (λ y. ap (λ n. n == key x) (k y))
            ∙ u.0,
        IsKeyed-update_where q f xs k u.1,
      )
    where
      one : (b : Bool) → key (if b then f x else x) ≡ key x
      one true = k x
      one false = refl
