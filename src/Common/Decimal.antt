-- ===== src/Common/Decimal.antt =====
-- Decimal text: its value, and what `%zu` and `%d` print for a number.
use final_system_progamming.Common.Booleans.{ltb, if◌then◌else◌}
use final_system_progamming.Common.Lists.{length, length-append}
use final_system_progamming.Common.CStrings.{Bytes, isdigit}
use Prim.Native.Nat.{ℕ, zero, suc, ◌+◌, ◌-◌, ◌*◌, ◌/◌, ◌%◌, ◌≤◌, ◌<◌}
use mathlib.Core.Bool.{Bool, true, ◌&&◌}
use mathlib.Core.List.{[], ◌∷◌, ◌++◌}
use mathlib.Core.Path.{◌≡◌}
use native.Mathlib.Omega.{arith}

-- The value of a digit string behind digits of value `acc`.
abbrev pub value_from : ℕ → Bytes → ℕ
value_from acc [] = acc
value_from acc (c ∷ rest) = value_from (acc * 10 + (c - b'0')) rest

abbrev pub decimal_value : Bytes → ℕ
decimal_value = value_from 0

abbrev pub all_digits : Bytes → Bool
all_digits [] = true
all_digits (c ∷ rest) = isdigit c && all_digits rest

-- The digits of `n`, the most significant first; the fuel is the number of divisions.
digits_from : ℕ → ℕ → Bytes
digits_from zero n = (b'0' + n % 10) ∷ []
digits_from (suc fuel) n =
    let front = digits_from fuel (n / 10) in
    if ltb n 10 then (b'0' + n) ∷ [] else front ++ (b'0' + n % 10) ∷ []

unfoldable pub decimal : ℕ → Bytes
unfolding digits_from
decimal n = digits_from n n

pub le-value_from : (acc : ℕ) (text : Bytes) → acc ≤ value_from acc text
le-value_from acc [] = omega arith
le-value_from acc (c ∷ rest) = omega (arith, le-value_from (acc * 10 + (c - b'0')) rest)

value_from-append :
    (acc : ℕ) (front : Bytes) (d : ℕ)
    → value_from acc (front ++ (b'0' + d) ∷ []) ≡ value_from acc front * 10 + d
value_from-append acc [] d = omega arith
value_from-append acc (c ∷ rest) d = value_from-append (acc * 10 + (c - b'0')) rest d

all_digits-append :
    (front : Bytes) (d : ℕ)
    → d < 10
    → all_digits front ≡ true
    → all_digits (front ++ (b'0' + d) ∷ []) ≡ true
all_digits-append [] d h e = ground arith
all_digits-append (c ∷ rest) d h e = ground (arith, all_digits-append rest d h)

digits_from-value : (fuel n : ℕ) → n ≤ fuel → decimal_value (digits_from fuel n) ≡ n
unfolding digits_from
digits_from-value zero n h = omega arith
digits_from-value (suc fuel) n h = ground (
  arith,
  digits_from-value fuel (n / 10),
  value_from-append 0 (digits_from fuel (n / 10)) (n % 10),
)

digits_from-digits : (fuel n : ℕ) → all_digits (digits_from fuel n) ≡ true
unfolding digits_from
digits_from-digits zero n = ground arith
digits_from-digits (suc fuel) n = ground (
  arith,
  digits_from-digits fuel (n / 10),
  all_digits-append (digits_from fuel (n / 10)) (n % 10),
)

digits_from-pos : (fuel n : ℕ) → 0 < length (digits_from fuel n)
unfolding digits_from
digits_from-pos zero n = omega arith
digits_from-pos (suc fuel) n =
    ground (arith, length-append (digits_from fuel (n / 10)) ((b'0' + n % 10) ∷ []))

pub decimal-value : (n : ℕ) → decimal_value (decimal n) ≡ n
unfolding decimal
decimal-value n = digits_from-value n n (omega arith)

pub decimal-digits : (n : ℕ) → all_digits (decimal n) ≡ true
unfolding decimal
decimal-digits n = digits_from-digits n n

pub decimal-pos : (n : ℕ) → 0 < length (decimal n)
unfolding decimal
decimal-pos n = digits_from-pos n n
