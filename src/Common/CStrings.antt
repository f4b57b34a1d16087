-- ===== src/Common/CStrings.antt =====
-- Bytes, and the functions of <string.h> and <ctype.h> (in the "C" locale) that the sources call.
-- A pointer with a length is the list of the bytes of its span; an array that holds a C string is
-- the list of all its bytes, the terminator and what stands behind it included.
use Prim.Native.Char.{code}
use Prim.Native.Nat.{ℕ, suc, ◌+◌, ◌-◌, ◌^◌, ◌%◌, ◌<◌}
use Prim.Native.String.{String}
use mathlib.Core.Path.{◌≡◌, refl, ap}
use mathlib.Core.Logic.{◌≢◌, ◌↔◌, inl, inr}
use mathlib.Core.Bool.{Bool, true, false, ◌&&◌, ◌||◌}
use mathlib.Core.List.{List, [], ◌∷◌, ◌++◌}
use mathlib.Core.Option
use mathlib.Core.Option.{Option, none, some}
use native.Mathlib.Omega.{arith}
use final_system_progamming.Common.Booleans.{leb, ◌==◌, ==_iff, Bool-cases, if◌then◌else◌}
use final_system_progamming.Common.Lists.{length, All, take, drop}

abbrev pub Bytes : Type 0
Bytes = List ℕ

-- The bytes of an ASCII literal.
abbrev pub codes : String → Bytes
codes String.[] = []
codes (String.◌∷◌ c s) = code c ∷ codes s

-- `size_t` has 64 bits.
abbrev pub size_mod : ℕ
size_mod = 2 ^ 64

abbrev pub size_max : ℕ
size_max = 2 ^ 64 - 1

-- `size_t` addition and subtraction.
abbrev pub add_size : ℕ → ℕ → ℕ
add_size a b = (a + b) % size_mod

abbrev pub sub_size : ℕ → ℕ → ℕ
sub_size a b = (a + size_mod - b) % size_mod

-- The offset that `memchr` finds in a span.
abbrev pub memchr : ℕ → Bytes → Option ℕ
memchr c [] = none
memchr c (x ∷ xs) = if x == c then some 0 else Option.map suc (memchr c xs)

-- The C string that an array holds: its bytes before the first NUL.
abbrev pub c_string : Bytes → Bytes
c_string [] = []
c_string (x ∷ xs) = if x == 0 then [] else x ∷ c_string xs

-- `memcmp(a, b, n) == 0` on spans of one length, `strcmp(a, b) == 0` on C strings.
abbrev pub bytes_eq : Bytes → Bytes → Bool
bytes_eq [] [] = true
bytes_eq (x ∷ xs) (y ∷ ys) = x == y && bytes_eq xs ys
bytes_eq _ _ = false

abbrev pub tolower : ℕ → ℕ
tolower c = if leb b'A' c && leb c b'Z' then c + 32 else c

abbrev pub isdigit : ℕ → Bool
isdigit c = leb b'0' c && leb c b'9'

abbrev pub isalnum : ℕ → Bool
isalnum c = isdigit c || leb b'A' c && leb c b'Z' || leb b'a' c && leb c b'z'

abbrev pub Avoids : ℕ → Bytes → Type 0
Avoids c xs = All (λ x. x ≢ c) xs

pub bytes_eq_iff : (xs ys : Bytes) → (bytes_eq xs ys ≡ true) ↔ (xs ≡ ys)
bytes_eq_iff [] [] = ground arith
bytes_eq_iff (x ∷ xs) (y ∷ ys) = ground (arith, bytes_eq_iff xs ys)
bytes_eq_iff [] (y ∷ ys) = ground arith
bytes_eq_iff (x ∷ xs) [] = ground arith

pub bytes_eq_refl : (xs : Bytes) → bytes_eq xs xs ≡ true
bytes_eq_refl xs = (bytes_eq_iff xs xs).1 refl

pub memchr-append :
    (c : ℕ) (xs ys : Bytes) → Avoids c xs → memchr c (xs ++ c ∷ ys) ≡ some (length xs)
memchr-append c [] ys h = ground arith
memchr-append c (x ∷ xs) ys h = ground (arith, memchr-append c xs ys h.1)

pub memchr-none : (c : ℕ) (xs : Bytes) → Avoids c xs → memchr c xs ≡ none
memchr-none c [] h = refl
memchr-none c (x ∷ xs) h = ground (arith, memchr-none c xs h.1)

pub memchr-lt : (c : ℕ) (xs : Bytes) (i : ℕ) → memchr c xs ≡ some i → i < length xs
memchr-lt c [] i h = cc
memchr-lt c (x ∷ xs) i h = grind (arith, memchr-lt c xs)

pub c_string-Avoids : (xs : Bytes) → Avoids 0 (c_string xs)
c_string-Avoids [] = tt
c_string-Avoids (x ∷ xs) = ground (arith, c_string-Avoids xs)

pub c_string_self : (xs : Bytes) → Avoids 0 xs → c_string xs ≡ xs
c_string_self [] h = refl
c_string_self (x ∷ xs) h = ground (arith, c_string_self xs h.1)

pub c_string-append : (xs ys : Bytes) → Avoids 0 xs → c_string (xs ++ 0 ∷ ys) ≡ xs
c_string-append [] ys h = refl
c_string-append (x ∷ xs) ys h = ground (arith, c_string-append xs ys h.1)

-- A terminator ends the string, whatever stands behind it.
pub c_string-stop : (xs ys : Bytes) → c_string (xs ++ 0 ∷ ys) ≡ c_string xs
c_string-stop [] ys = refl
c_string-stop (x ∷ xs) ys = ground (arith, c_string-stop xs ys)

Splits : ℕ → Bytes → Option ℕ → Type 0
Splits c xs none = Avoids c xs
Splits c xs (some i) = (xs ≡ take i xs ++ c ∷ drop (suc i) xs) × Avoids c (take i xs)

Splits-cons :
    (c x : ℕ) (xs : Bytes) (found : Option ℕ)
    → x ≢ c
    → Splits c xs found
    → Splits c (x ∷ xs) (Option.map suc found)
unfolding Splits
Splits-cons c x xs none ne s = (ne, s)
Splits-cons c x xs (some i) ne s = (ap (λ ys. x ∷ ys) s.0, (ne, s.1))

memchr-Splits : (c : ℕ) (xs : Bytes) → Splits c xs (memchr c xs)
unfolding Splits
memchr-Splits c [] = tt
memchr-Splits c (x ∷ xs) = elim (Bool-cases (x == c)) [
  | inl here ↦ rw here (ap (λ y. y ∷ xs) ((==_iff x c).0 here), tt)
  | inr later ↦
      rw later (unfold Splits in Splits-cons c x xs _ (λ e. ground arith) (memchr-Splits c xs))
]

-- What `memchr` finds splits the span at its first such byte.
pub memchr-split :
    (c : ℕ) (xs : Bytes) (i : ℕ)
    → memchr c xs ≡ some i
    → (xs ≡ take i xs ++ c ∷ drop (i + 1) xs) × Avoids c (take i xs)
unfolding Splits
memchr-split c xs i h =
    let s = rw h at (memchr-Splits c xs) in let next : i + 1 ≡ suc i = omega arith in rw next s

pub memchr-Avoids : (c : ℕ) (xs : Bytes) → memchr c xs ≡ none → Avoids c xs
unfolding Splits
memchr-Avoids c xs h = rw h at (memchr-Splits c xs)
