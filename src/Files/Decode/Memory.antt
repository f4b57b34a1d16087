-- ===== src/Files/Decode/Memory.antt =====
-- `decode_path` reads `input[i + 2]` before it has seen that `input[i + 1]` ends the string, so at
-- a `%` in the last place it reads the byte behind the terminator. The result does not depend on
-- it.
use final_system_progamming.Common.{
  ℕ, zero, suc, ◌≤◌, ◌≡◌, refl, ap, ◌∙◌, [], ◌∷◌, ◌++◌, Option, none, some, arith, Bytes, ◌==◌,
  if◌then◌else◌, length, get_or, Option-cases, inl, inr,
}
use final_system_progamming.Files.Types.{error}
use final_system_progamming.Files.Decode.{
  hex_value, hex_pair, decode_char, decode_loop, decode_path,
}

hex_pair-none : (low : Option ℕ) → hex_pair none low ≡ none
hex_pair-none none = refl
hex_pair-none (some low) = refl

hex_pair-none_right : (high : Option ℕ) → hex_pair high none ≡ none
hex_pair-none_right none = refl
hex_pair-none_right (some high) = refl

hex_value-zero : hex_value 0 ≡ none
unfolding hex_value
hex_value-zero = refl

module _ (behind other : Bytes) where
  decode_char-memory :
      (c : ℕ) (text : Bytes)
      → decode_char c (text ++ 0 ∷ behind) ≡ decode_char c (text ++ 0 ∷ other)
  unfolding decode_char
  decode_char-memory c [] = ground (
    arith,
    hex_value-zero,
    hex_pair-none (hex_value (get_or behind 0 0)),
    hex_pair-none (hex_value (get_or other 0 0)),
  )
  decode_char-memory c (x ∷ []) = refl
  decode_char-memory c (x ∷ y ∷ text) = refl

  decode_char-within :
      (c : ℕ) (text : Bytes) (ch skip : ℕ)
      → decode_char c (text ++ 0 ∷ behind) ≡ some (ch, skip)
      → skip ≤ length text
  unfolding decode_char
  decode_char-within c [] ch skip h =
      ground (arith, h, hex_value-zero, hex_pair-none (hex_value (get_or behind 0 0)))
  decode_char-within c (x ∷ []) ch skip h =
      ground (arith, h, hex_value-zero, hex_pair-none_right (hex_value x))
  decode_char-within c (x ∷ y ∷ text) ch skip h = ground (arith, h)

  decode_loop-memory :
      (size skip : ℕ) (text output : Bytes)
      → skip ≤ length text
      → decode_loop size skip (text ++ 0 ∷ behind) output
        ≡ decode_loop size skip (text ++ 0 ∷ other) output
  unfolding decode_loop
  decode_loop-memory size zero [] output h = refl
  decode_loop-memory size (suc skip) [] output h = absurd (omega arith)
  decode_loop-memory size (suc skip) (c ∷ text) output h =
      decode_loop-memory size skip text output (omega arith)
  decode_loop-memory size zero (c ∷ text) output h =
      elim (Option-cases (decode_char c (text ++ 0 ∷ other))) [
        | inl e ↦ ground (arith, e, decode_char-memory c text)
        | inr ((ch, skip), e) ↦ ground (
          arith,
          e,
          decode_char-memory c text,
          decode_loop-memory size skip text (output ++ ch ∷ [])
              (decode_char-within c text ch skip (decode_char-memory c text ∙ e)),
        )
      ]

  -- What stands in memory behind the terminator of the request's path does not change how it is
  -- decoded, for any text without a terminator and any size of the output.
  pub decode_path-memory :
      (text : Bytes) (size : ℕ)
      → decode_path (text ++ 0 ∷ behind) size ≡ decode_path (text ++ 0 ∷ other) size
  unfolding decode_path
  decode_path-memory text size =
      ap (λ r. if size == 0 then error else r) (decode_loop-memory size 0 text [] (omega arith))
