-- ===== src/Base/Decimal.antt =====
-- `String(n)` of a whole number: its decimal digits, and the number that digits stand for.
use Prim.Native.Nat.{ℕ, zero, suc, ◌+◌, ◌-◌, ◌*◌, ◌/◌, ◌%◌, ◌<◌, ◌≤◌}
use mathlib.Core.Path.{◌≡◌, refl}
use mathlib.Core.Logic.{inl, inr}
use mathlib.Core.Bool.{Bool, true, false, ◌&&◌}
use mathlib.Core.List.{[], ◌∷◌, ◌++◌}
use native.Mathlib.Omega.{arith}
use gothrough.Base.Tests.{if_intro, ltb, leb, if◌then◌else◌, Bool-cases}
use gothrough.Base.Lists.{All}
use gothrough.Base.Texts.{Text, is_empty}

-- The fuel bounds the digits; a number above 0 is more than its tenth, so its successor is enough.
decimal_fuel : ℕ → ℕ → Text
decimal_fuel zero n = []
decimal_fuel (suc f) n =
    let front = decimal_fuel f (n / 10) in
    if ltb n 10 then (n + 48) ∷ [] else front ++ ((n % 10 + 48) ∷ [])

unfoldable pub decimal : ℕ → Text
unfolding decimal_fuel
decimal n = decimal_fuel (suc n) n

-- The number of a run of digits that follows the digits of `acc`.
unfoldable pub number_from : ℕ → Text → ℕ
number_from acc [] = acc
number_from acc (c ∷ s) = number_from (acc * 10 + (c - 48)) s

abbrev pub is_digit : ℕ → Bool
is_digit c = leb 48 c && leb c 57

abbrev pub IsDigit : ℕ → Type 0
IsDigit c = (48 ≤ c) × (c ≤ 57)

number_from-append_one :
    (acc : ℕ) (s : Text) (c : ℕ)
    → number_from acc (s ++ (c ∷ [])) ≡ number_from acc s * 10 + (c - 48)
unfolding number_from
number_from-append_one acc [] c = refl
number_from-append_one acc (d ∷ s) c = number_from-append_one (acc * 10 + (d - 48)) s c

number_from-decimal_fuel : (f n : ℕ) → n < f → number_from 0 (decimal_fuel f n) ≡ n
unfolding decimal_fuel number_from
number_from-decimal_fuel zero n h = elim h [ ]
number_from-decimal_fuel (suc f) n h = elim (Bool-cases (ltb n 10)) [
  | inl small ↦ rw small (omega arith)
  | inr large ↦
      rw (large, number_from-append_one 0 (decimal_fuel f (n / 10)) (n % 10 + 48))
        (ground (arith, number_from-decimal_fuel f (n / 10)))
]

-- Reading the digits of a number gives the number back.
pub number_from-decimal : (n : ℕ) → number_from 0 (decimal n) ≡ n
unfolding decimal
number_from-decimal n = number_from-decimal_fuel (suc n) n (omega arith)

All-append_one : (s : Text) (c : ℕ) → All IsDigit s → IsDigit c → All IsDigit (s ++ (c ∷ []))
All-append_one [] c h d = (d, tt)
All-append_one (x ∷ s) c h d = (h.0, All-append_one s c h.1 d)

decimal_fuel-IsDigit : (f n : ℕ) → All IsDigit (decimal_fuel f n)
unfolding decimal_fuel
decimal_fuel-IsDigit zero n = tt
decimal_fuel-IsDigit (suc f) n = elim (Bool-cases (ltb n 10)) [
  | inl small ↦ rw small ((ground arith, tt))
  | inr large ↦ rw large (
      All-append_one (decimal_fuel f (n / 10)) (n % 10 + 48) (decimal_fuel-IsDigit f (n / 10))
        (omega arith))
]

pub decimal-IsDigit : (n : ℕ) → All IsDigit (decimal n)
unfolding decimal
decimal-IsDigit n = decimal_fuel-IsDigit (suc n) n

pub decimal_below_ten : (n : ℕ) → n < 10 → decimal n ≡ (n + 48) ∷ []
unfolding decimal decimal_fuel
decimal_below_ten n h =
    if_intro (λ x. x ≡ (n + 48) ∷ []) (ltb n 10) _ _ (λ _. refl)
      (λ large. absurd (ground (arith, large)))

pub decimal_below_hundred :
    (n : ℕ) → 10 ≤ n → n < 100 → decimal n ≡ (n / 10 + 48) ∷ (n % 10 + 48) ∷ []
unfolding decimal decimal_fuel
decimal_below_hundred zero l h = absurd (omega arith)
decimal_below_hundred (suc n) l h = rw (first, second) refl
  where
    first : ltb (suc n) 10 ≡ false
    first = ground arith

    second : ltb (suc n / 10) 10 ≡ true
    second = ground arith

is_empty-append_one : (s : Text) (c : ℕ) → is_empty (s ++ (c ∷ [])) ≡ false
is_empty-append_one [] c = refl
is_empty-append_one (d ∷ s) c = refl

pub is_empty-decimal : (n : ℕ) → is_empty (decimal n) ≡ false
unfolding decimal decimal_fuel
is_empty-decimal n =
    if_intro (λ s. is_empty s ≡ false) (ltb n 10) _ _ (λ _. refl)
      (λ _. is_empty-append_one _ (n % 10 + 48))
