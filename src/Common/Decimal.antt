-- ===== src/Common/Decimal.antt =====
-- Decimal numerals as code points: `${prefix}${String(n).padStart(6, "0")}`.
use Prim.Native.Nat.{ℕ, zero, suc, ◌+◌, ◌-◌, ◌*◌, ◌/◌, ◌%◌, ◌≤◌}
use Prim.Native.Char.{code}
use Prim.Native.String.{String}
use mathlib.Core.Path.{◌≡◌, refl, sym, ap, ◌∙◌}
use mathlib.Core.List.{List, [], ◌∷◌, ◌++◌}
use native.Mathlib.Omega.{arith}
use noryx_platform.Common.Tests.{ltb, if◌then◌else◌, Bool-cases}
use noryx_platform.Common.Sums.{length}
use mathlib.Core.Logic.{inl, inr}

-- A JavaScript string, as its code points.
abbrev pub Text : Type 0
Text = List ℕ

abbrev pub codes : String → Text
codes String.[] = []
codes (String.◌∷◌ c s) = code c ∷ codes s

-- The decimal digits of `n` in front of `acc`. Each round divides by ten, so fuel `n` is enough.
digits_onto : ℕ → ℕ → Text → Text
digits_onto zero n acc = (48 + n) ∷ acc
digits_onto (suc fuel) n acc =
    let more = digits_onto fuel (n / 10) ((48 + n % 10) ∷ acc) in
    if ltb n 10 then (48 + n) ∷ acc else more

-- `String(n)`
unfoldable pub decimal : ℕ → Text
unfolding digits_onto
decimal n = digits_onto n n []

abbrev pub replicate : ℕ → ℕ → Text
replicate zero c = []
replicate (suc k) c = c ∷ replicate k c

-- `s.padStart(width, "0")`
unfoldable pub pad_start : ℕ → Text → Text
pad_start width s = replicate (width - length s) 48 ++ s

-- The number that a numeral stands for, read from the left.
value_from : ℕ → Text → ℕ
value_from acc [] = acc
value_from acc (c ∷ s) = value_from (acc * 10 + (c - 48)) s

value-digits_onto :
    (fuel n : ℕ) (acc : Text) → n ≤ fuel → value_from 0 (digits_onto fuel n acc) ≡ value_from n acc
unfolding value_from digits_onto
value-digits_onto zero n acc h = let e : n ≡ 0 = omega arith in rw e
value-digits_onto (suc fuel) n acc h = elim (Bool-cases (ltb n 10)) [
  | inl small ↦ rw small (ap (λ k. value_from k acc) (omega arith))
  | inr large ↦ rw large (
      value-digits_onto fuel (n / 10) ((48 + n % 10) ∷ acc) (ground arith)
      ∙ ap (λ k. value_from k acc) (omega arith))
]

value-replicate : (k : ℕ) (s : Text) → value_from 0 (replicate k 48 ++ s) ≡ value_from 0 s
unfolding value_from
value-replicate zero s = refl
value-replicate (suc k) s = value-replicate k s

-- Padding and printing lose nothing.
value-pad_start-decimal : (width n : ℕ) → value_from 0 (pad_start width (decimal n)) ≡ n
unfolding pad_start decimal
value-pad_start-decimal width n =
    value-replicate (width - length (digits_onto n n [])) (digits_onto n n [])
    ∙ value-digits_onto n n [] (omega arith)
    ∙ unfold value_from in refl

pub pad_start-decimal_injective :
    (width n m : ℕ) → pad_start width (decimal n) ≡ pad_start width (decimal m) → n ≡ m
pad_start-decimal_injective width n m e =
    sym (value-pad_start-decimal width n) ∙ ap (value_from 0) e ∙ value-pad_start-decimal width m
