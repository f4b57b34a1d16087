-- ===== src/Http/Scan/Number.antt =====
-- `parse_size_token` reads exactly the decimal numbers of a `size_t`.
use final_system_progamming.Common.{
  ◌≢◌, ℕ, ◌+◌, ◌-◌, ◌*◌, ◌≤◌, ◌≡◌, not, true, ◌&&◌, [], ◌∷◌, some, none, arith, Bytes, leb, ◌==◌,
  if◌then◌else◌, length, size_max, value_from, decimal_value, all_digits, le-value_from, decimal,
  decimal-value, decimal-digits, decimal-pos,
}
use final_system_progamming.Http.Scan.{parse_digits, parse_size_token}

parse_digits_exact :
    (text : Bytes) (parsed : ℕ)
    → parsed ≤ size_max
    → parse_digits parsed text ≡ (
        if all_digits text && leb (value_from parsed text) size_max
        then some (value_from parsed text)
        else none)
unfolding parse_digits
parse_digits_exact [] parsed h = ground arith
parse_digits_exact (c ∷ rest) parsed h = ground (
  arith,
  parse_digits_exact rest (parsed * 10 + (c - b'0')),
  le-value_from (parsed * 10 + (c - b'0')) rest,
)

-- The token is accepted exactly when it is a nonempty string of decimal digits whose value fits a
-- `size_t`, and the result is that value: the overflow test neither wraps nor refuses too early.
pub parse_size_token_exact :
    (text : Bytes)
    → parse_size_token text ≡ (
        if not (length text == 0) && (all_digits text && leb (decimal_value text) size_max)
        then some (decimal_value text)
        else none)
unfolding parse_size_token
parse_size_token_exact text = ground (arith, parse_digits_exact text 0)

-- Every `size_t` is read back from the digits that `%zu` prints for it.
parse_size_token-decimal : (n : ℕ) → n ≤ size_max → parse_size_token (decimal n) ≡ some n
parse_size_token-decimal n h =
    ground
      (arith, parse_size_token_exact (decimal n), decimal-value n, decimal-digits n, decimal-pos n)

-- What an accepted token looks like.
pub parse_size_token-some :
    (text : Bytes) (n : ℕ)
    → parse_size_token text ≡ some n
    → (all_digits text ≡ true) × (text ≢ []) × (n ≤ size_max)
parse_size_token-some [] n h = ground (arith, parse_size_token_exact [])
parse_size_token-some (c ∷ rest) n h = ground (arith, parse_size_token_exact (c ∷ rest))
