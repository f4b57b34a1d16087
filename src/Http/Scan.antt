-- ===== src/Http/Scan.antt =====
-- The scanning helpers of src/http.c. A pair of pointers into the buffer is the list of the bytes
-- between them; a pointer that a helper returns is an offset, or the span from it on.
pub mod Laws
pub mod Number
use mathlib.Core.Option
use final_system_progamming.Common.{
  ℕ, zero, suc, ◌+◌, ◌-◌, ◌*◌, ◌/◌, ◌%◌, Bool, true, false, not, ◌&&◌, ◌||◌, [], ◌∷◌, ◌++◌, Option,
  none, some, Bytes, ltb, leb, ◌==◌, if◌then◌else◌, length, take, drop, get_or, tolower, isdigit,
  size_mod, size_max,
}

-- `dest` after the call: the bytes copied, a terminator, and what stood behind it.
unfoldable pub copy_bounded : Bytes → Bytes → Bytes
copy_bounded dest src =
    let copy_len = if leb (length dest) (length src) then length dest - 1 else length src in
    take copy_len src ++ 0 ∷ drop (suc copy_len) dest

-- `ascii_case_equal`: the loop, and the `return` behind it. Reading past a list reads a
-- terminator.
unfoldable pub ascii_case_equal : Bytes → Bytes → Bool
ascii_case_equal [] [] = true
ascii_case_equal [] (r ∷ right) = r == 0
ascii_case_equal (l ∷ left) [] = l == 0
ascii_case_equal (l ∷ left) (r ∷ right) =
    if l == 0 || r == 0
    then l == 0 && r == 0
    else if not (tolower l == tolower r)
    then false
    else ascii_case_equal left right

case_equal_from : Bytes → Bytes → Bool
case_equal_from [] expected = true
case_equal_from (c ∷ text) [] = true
case_equal_from (c ∷ text) (e ∷ expected) =
    if not (tolower c == tolower e) then false else case_equal_from text expected

unfoldable pub ascii_case_equal_bounded : Bytes → Bytes → Bool
unfolding case_equal_from
ascii_case_equal_bounded text expected =
    if not (length text == length expected) then false else case_equal_from text expected

-- The offset of the first `\r\n` in the span.
unfoldable pub find_crlf : Bytes → Option ℕ
find_crlf [] = none
find_crlf (a ∷ []) = none
find_crlf (a ∷ b ∷ rest) =
    let later = find_crlf (b ∷ rest) in
    if a == b'\r' && b == b'\n' then some 0 else Option.map suc later

abbrev is_space : ℕ → Bool
is_space c = c == b' ' || c == b'\t'

unfoldable pub skip_spaces : Bytes → Bytes
skip_spaces [] = []
skip_spaces (c ∷ text) = let rest = skip_spaces text in if is_space c then rest else c ∷ text

-- The loop of `trim_trailing_span`, with `end - start` as its counter.
trim_from : ℕ → Bytes → Bytes
trim_from zero span = []
trim_from (suc n) span =
    let shorter = trim_from n span in
    let last = get_or span n 0 in
    if is_space last || last == b'\r' || last == b'\n' then shorter else take (suc n) span

unfoldable pub trim_trailing_span : Bytes → Bytes
unfolding trim_from
trim_trailing_span span = trim_from (length span) span

-- The loop of `parse_size_token`, with `size_t` arithmetic.
parse_digits : ℕ → Bytes → Option ℕ
parse_digits parsed [] = some parsed
parse_digits parsed (c ∷ rest) =
    let digit = c - b'0' in
    let later = parse_digits ((parsed * 10 + digit) % size_mod) rest in
    if not (isdigit c) then none else if ltb ((size_max - digit) / 10) parsed then none else later

unfoldable pub parse_size_token : Bytes → Option ℕ
unfolding parse_digits
parse_size_token span = if length span == 0 then none else parse_digits 0 span
