-- ===== src/Files/Decode.antt =====
-- `hex_value` and `decode_path` (src/files.c).
pub mod Laws
pub mod Memory
use final_system_progamming.Common.{
  ℕ, zero, suc, ◌+◌, ◌-◌, ◌*◌, ◌%◌, ◌^◌, bit_or, ◌&&◌, ◌||◌, [], ◌∷◌, ◌++◌, Option, none, some,
  Bytes, leb, ◌==◌, if◌then◌else◌, length, get_or,
}
use final_system_progamming.Files.Types.{FileResult, ok, forbidden, error}

-- `none` is the result -1. A byte from 128 on, negative as a `char`, lies in no range either way.
unfoldable pub hex_value : ℕ → Option ℕ
hex_value ch =
    if leb b'0' ch && leb ch b'9'
    then some (ch - b'0')
    else if leb b'a' ch && leb ch b'f'
    then some (ch - b'a' + 10)
    else if leb b'A' ch && leb ch b'F'
    then some (ch - b'A' + 10)
    else none

-- `(unsigned char)((high << 4) | low)`
abbrev pub hex_byte : ℕ → ℕ → ℕ
hex_byte high low = bit_or (high * 2 ^ 4) low % 2 ^ 8

-- The byte that stands for the one at `i`, and how far `i` is moved on, or `none` for a bad
-- escape.
abbrev pub hex_pair : Option ℕ → Option ℕ → Option (ℕ × ℕ)
hex_pair (some high) (some low) = some (hex_byte high low, 2)
hex_pair _ _ = none

-- The bytes behind `input[i]` are `rest`. Both of the next two are read before they are tested;
-- what stands behind the memory that the model is given reads as 0.
unfoldable pub decode_char : ℕ → Bytes → Option (ℕ × ℕ)
decode_char ch rest =
    if ch == b'%'
    then hex_pair (hex_value (get_or rest 0 0)) (hex_value (get_or rest 1 0))
    else if ch == b'+'
    then some (b' ', 0)
    else some (ch, 0)

-- The loop on the memory from `input + i` on, with `output[0..written)`. The second number counts
-- the bytes that `i += 2` passes over.
unfoldable pub decode_loop : ℕ → ℕ → Bytes → Bytes → FileResult Bytes
decode_loop output_size skip [] output = ok output
decode_loop output_size (suc skip) (c ∷ rest) output = decode_loop output_size skip rest output
decode_loop output_size zero (c ∷ rest) output =
    if c == 0 then ok output else elim (decode_char c rest) [
      | none ↦ forbidden
      | some (ch, skip) ↦
          let later = decode_loop output_size skip rest (output ++ ch ∷ []) in
          if ch == 0 || ch == b'\\'
          then forbidden
          else if leb output_size (length output + 1)
          then error
          else later
    ]

-- The C string that is left in `output`; `output_size == 0` is refused at once.
unfoldable pub decode_path : Bytes → ℕ → FileResult Bytes
unfolding decode_char decode_loop
decode_path input output_size =
    if output_size == 0 then error else decode_loop output_size 0 input []
