-- ===== src/Files/Decode/Laws.antt =====
-- What a decoded path never holds.
use mathlib.Core.Path.{subst}
use final_system_progamming.Common.{
  ℕ, zero, suc, ◌+◌, ◌<◌, ◌≡◌, ◌≢◌, false, [], ◌∷◌, ◌++◌, some, arith, Bytes, All, All-append, ◌==◌,
  length, length-append, Option-cases, Bool-cases, inl, inr,
}
use final_system_progamming.Files.Types.{ok}
use final_system_progamming.Files.Decode.{decode_char, decode_loop, decode_path}

-- Neither a terminator nor a backslash.
abbrev pub IsPlain : ℕ → Type 0
IsPlain c = (c ≢ 0) × (c ≢ b'\\')

record Fits (size : ℕ) (output : Bytes) : Type 0 where
  plain : All IsPlain output
  room : length output < size

Fits-concat :
    {size : ℕ} {output : Bytes} (ch : ℕ)
    → Fits size output
    → IsPlain ch
    → length output + 1 < size
    → Fits size (output ++ ch ∷ [])
Fits-concat {output} ch f p h = record {
  plain = All-append IsPlain output (ch ∷ []) f.plain (p, tt);
  room = omega (arith, length-append output (ch ∷ []));
}

-- What a round that goes on has passed.
abbrev Goes : ℕ → ℕ → ℕ → Bytes → Bytes → Bytes → Type 0
Goes size ch skip rest output r =
    IsPlain ch
    × (length output + 1 < size)
    × (decode_loop size skip rest (output ++ ch ∷ []) ≡ ok r)

decode_loop-Goes :
    (size c ch skip : ℕ) (rest output : Bytes) {r : Bytes}
    → (c == 0) ≡ false
    → decode_char c rest ≡ some (ch, skip)
    → decode_loop size 0 (c ∷ rest) output ≡ ok r
    → Goes size ch skip rest output r
unfolding decode_loop
decode_loop-Goes size c ch skip rest output more e h = ground (arith, more, e, h)

decode_loop-Fits :
    (size skip : ℕ) (input output : Bytes) {r : Bytes}
    → Fits size output
    → decode_loop size skip input output ≡ ok r
    → Fits size r
unfolding decode_loop
decode_loop-Fits size zero [] output f h = subst (Fits size) (ground (arith, h)) f
decode_loop-Fits size (suc skip) [] output f h = subst (Fits size) (ground (arith, h)) f
decode_loop-Fits size (suc skip) (c ∷ rest) output f h = decode_loop-Fits size skip rest output f h
decode_loop-Fits size zero (c ∷ rest) output f h = elim (Bool-cases (c == 0)) [
  | inl end ↦ subst (Fits size) (ground (arith, h, end)) f
  | inr more ↦ elim (Option-cases (decode_char c rest)) [
    | inl e ↦ absurd (ground (arith, h, more, e))
    | inr ((ch, skip), e) ↦
        let go = decode_loop-Goes size c ch skip rest output more e h in
        decode_loop-Fits size skip rest (output ++ ch ∷ []) (Fits-concat ch f go.0 go.1) go.2
  ]
]

-- Whatever the request says, a path that is decoded has neither a NUL nor a backslash among its
-- bytes, and with its terminator it fits the output array.
pub decode_path-IsPlain :
    (input : Bytes) (size : ℕ) {r : Bytes}
    → decode_path input size ≡ ok r
    → All IsPlain r × (length r < size)
unfolding decode_path
decode_path-IsPlain input size h = elim (Bool-cases (size == 0)) [
  | inl e ↦ absurd (ground (arith, h, e))
  | inr ne ↦
      let f =
        decode_loop-Fits size 0 input [] (record { plain = tt; room = ground arith })
          (ground (arith, h, ne)) in
      (f.plain, f.room)
]
