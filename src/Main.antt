-- ===== src/Main.antt =====
-- The command line (src/main.c, include/config.h). A text is that of a C string; what `getopt`
-- returns is a parameter.
pub mod Numbers
pub mod Options
pub mod Program
use final_system_progamming.Common.{
  ℕ, ◌-◌, ◌^◌, min, Bool, true, false, not, ◌&&◌, ◌||◌, List, [], ◌∷◌, Option, none, some, Bytes,
  codes, ltb, leb, ◌==◌, if◌then◌else◌, length, isdigit, decimal_value,
}

-- `isspace` in the "C" locale.
abbrev pub isspace : ℕ → Bool
isspace c = c == b' ' || leb 9 c && leb c 13

abbrev pub skip_white : Bytes → Bytes
skip_white [] = []
skip_white (c ∷ text) = let rest = skip_white text in if isspace c then rest else c ∷ text

-- Whether the sign is a minus, and the text behind it.
abbrev pub read_sign : Bytes → Bool × Bytes
read_sign [] = (false, [])
read_sign (c ∷ text) =
    if c == b'-' then (true, text) else if c == b'+' then (false, text) else (false, c ∷ text)

abbrev pub leading_digits : Bytes → Bytes × Bytes
leading_digits [] = ([], [])
leading_digits (c ∷ text) =
    let (digits, rest) = leading_digits text in
    if isdigit c then (c ∷ digits, rest) else ([], c ∷ text)

-- A `long` as its sign and magnitude, and what `*end` is then set to.
pub record Parsed : Type 0 where
  pub negative : Bool
  pub magnitude : ℕ
  pub rest : Bytes

-- `LONG_MAX` and `LONG_MIN` for a value out of range.
abbrev pub saturate : Bool → ℕ → ℕ
saturate true n = min n (2 ^ 63)
saturate false n = min n (2 ^ 63 - 1)

abbrev pub parsed_digits : Bytes → Bool → Bytes × Bytes → Parsed
parsed_digits text negative (digits, rest) =
    if length digits == 0 then record { negative = false; magnitude = 0; rest = text } else record {
      negative = negative;
      magnitude = saturate negative (decimal_value digits);
      rest = rest;
    }

-- `strtol` in base 10.
abbrev pub strtol : Bytes → Parsed
strtol text =
    let (negative, body) = read_sign (skip_white text) in
    parsed_digits text negative (leading_digits body)

-- The test of the result; `none` is -1.
abbrev pub checked : Bytes → Parsed → Option ℕ
checked text parsed =
    if length text == 0
      || not (length parsed.rest == 0)
      || (parsed.negative || parsed.magnitude == 0)
      || not parsed.negative && ltb 65535 parsed.magnitude
    then none
    else some parsed.magnitude

unfoldable pub parse_positive_int : Bytes → Option ℕ
parse_positive_int text = checked text (strtol text)
