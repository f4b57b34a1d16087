-- ===== src/Server/Response/Framing.antt =====
-- Where a response's head ends.
use final_system_progamming.Common.{
  ℕ, ◌+◌, ◌≡◌, ◌≢◌, ◌<◌, refl, ap, ◌∙◌, false, List, [], ◌∷◌, ◌++◌, append_assoc, arith, Bytes,
  some, length, length-append, Avoids, All,
}
use final_system_progamming.Server.Read.{at_header_end, find_header_end}
use final_system_progamming.Server.Response.{header_block, crlf}

-- A line of a head: it is not empty and holds no carriage return.
abbrev pub IsHeaderLine : Bytes → Type 0
IsHeaderLine line = Avoids b'\r' line × (0 < length line)

at_header_end-ne : (a : ℕ) (xs : Bytes) → a ≢ b'\r' → at_header_end (a ∷ xs) ≡ false
at_header_end-ne a [] h = refl
at_header_end-ne a (b ∷ []) h = refl
at_header_end-ne a (b ∷ c ∷ []) h = refl
at_header_end-ne a (b ∷ c ∷ d ∷ xs) h = ground arith

skip_line :
    (line xs : Bytes) (n : ℕ)
    → Avoids b'\r' line
    → find_header_end xs ≡ some n
    → find_header_end (line ++ xs) ≡ some (length line + n)
unfolding find_header_end
skip_line [] xs n h e = ground (arith, e)
skip_line (a ∷ line) xs n h e =
    let rest = skip_line line xs n h.1 e in
    rw (at_header_end-ne a (line ++ xs) h.0, rest) (ap some (omega arith))

skip_crlf :
    (c : ℕ) (xs : Bytes) (n : ℕ)
    → c ≢ b'\r'
    → find_header_end (c ∷ xs) ≡ some n
    → find_header_end (crlf ++ c ∷ xs) ≡ some (2 + n)
unfolding find_header_end
skip_crlf c xs n h e = ground (arith, e, at_header_end-ne b'\n' (c ∷ xs), at_header_end-ne c xs h)

block-end :
    (line : Bytes) (lines : List Bytes) (body : Bytes)
    → IsHeaderLine line
    → All IsHeaderLine lines
    → find_header_end (header_block (line ∷ lines) ++ body)
      ≡ some (length (header_block (line ∷ lines)))
unfolding find_header_end
block-end line [] body h a =
    ap find_header_end (append_assoc line (crlf ++ crlf) body)
    ∙ skip_line line (crlf ++ (crlf ++ body)) 4 h.0 refl
    ∙ ap some (omega (arith, length-append line (crlf ++ crlf)))
block-end line ([] ∷ lines) body h a = absurd (omega (arith, a.0.1))
block-end line ((c ∷ next) ∷ lines) body h a =
    let block = header_block ((c ∷ next) ∷ lines) in
    let rest = block-end (c ∷ next) lines body a.0 a.1 in
    let skipped = skip_crlf c _ (length block) a.0.0.0 rest in
    ap find_header_end (append_assoc line (crlf ++ block) body)
    ∙ skip_line line _ (2 + length block) h.0 skipped
    ∙ ap some (omega (arith, length-append line (crlf ++ block)))

pub header_block-ends :
    (lines : List Bytes) (body : Bytes)
    → (0 < length lines)
    → All IsHeaderLine lines
    → find_header_end (header_block lines ++ body) ≡ some (length (header_block lines))
header_block-ends [] body h a = absurd (omega (arith, h))
header_block-ends (line ∷ lines) body h a = block-end line lines body a.0 a.1
