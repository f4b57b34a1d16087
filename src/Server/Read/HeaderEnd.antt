-- ===== src/Server/Read/HeaderEnd.antt =====
-- The end of a header block, in a buffer and with more bytes behind it.
use final_system_progamming.Common.{
  sym, ap, take-append, leb, ◌-◌, if◌then◌else◌, suc, ◌&&◌, ◌==◌, Bool-cases, Option-cases, inl,
  inr, ℕ, ◌≡◌, ◌≤◌, ◌<◌, refl, false, [], ◌∷◌, ◌++◌, arith, Bytes, none, some, length,
}
use final_system_progamming.Http.Scan.{find_crlf}
use final_system_progamming.Http.Scan.Laws.{find_crlf-append_some, find_crlf-lt}
use final_system_progamming.Server.Read.{
  at_header_end, find_header_end, line_length, extract_request_line,
}

at_header_end-append : (xs ys : Bytes) → 4 ≤ length xs → at_header_end (xs ++ ys) ≡ at_header_end xs
at_header_end-append [] ys h = absurd (omega arith)
at_header_end-append (a ∷ []) ys h = absurd (omega arith)
at_header_end-append (a ∷ b ∷ []) ys h = absurd (omega arith)
at_header_end-append (a ∷ b ∷ c ∷ []) ys h = absurd (omega arith)
at_header_end-append (a ∷ b ∷ c ∷ d ∷ xs) ys h = refl

at_header_end-short : (xs : Bytes) → length xs < 4 → at_header_end xs ≡ false
at_header_end-short [] h = refl
at_header_end-short (a ∷ []) h = refl
at_header_end-short (a ∷ b ∷ []) h = refl
at_header_end-short (a ∷ b ∷ c ∷ []) h = refl
at_header_end-short (a ∷ b ∷ c ∷ d ∷ xs) h = absurd (omega arith)

pub find_header_end-le :
    (xs : Bytes) (n : ℕ) → find_header_end xs ≡ some n → (4 ≤ n) × (n ≤ length xs)
unfolding find_header_end
find_header_end-le [] n h = cc
find_header_end-le (a ∷ rest) n h =
    grind (arith, at_header_end-short (a ∷ rest), find_header_end-le rest)

pub find_header_end-append :
    (xs ys : Bytes) (n : ℕ) → find_header_end xs ≡ some n → find_header_end (xs ++ ys) ≡ some n
unfolding find_header_end
find_header_end-append [] ys n h = cc
find_header_end-append (a ∷ rest) ys n h = grind (
  arith,
  at_header_end-append (a ∷ rest) ys,
  at_header_end-short (a ∷ rest),
  find_header_end-append rest ys,
  find_header_end-le rest,
)

pub find_header_end-none :
    (xs ys : Bytes) (n : ℕ)
    → find_header_end xs ≡ none
    → find_header_end (xs ++ ys) ≡ some n
    → length xs < n
unfolding find_header_end
find_header_end-none [] ys n h e = omega (arith, find_header_end-le ys n e)
find_header_end-none (a ∷ rest) ys n h e = grind (
  arith,
  at_header_end-append (a ∷ rest) ys,
  at_header_end-short (a ∷ rest),
  find_header_end-none rest ys,
)

at_header_end-other :
    (a b : ℕ) (rest : Bytes)
    → (a == b'\r' && b == b'\n') ≡ false
    → at_header_end (a ∷ b ∷ rest) ≡ false
at_header_end-other a b [] h = refl
at_header_end-other a b (c ∷ []) h = refl
at_header_end-other a b (c ∷ d ∷ rest) h = ground (arith, h)

-- A header block ends behind a first line.
pub find_header_end-find_crlf :
    (xs : Bytes) (n : ℕ) → find_header_end xs ≡ some n → (m : ℕ) × (find_crlf xs ≡ some m)
unfolding find_header_end find_crlf
find_header_end-find_crlf [] n h = cc
find_header_end-find_crlf (a ∷ []) n h = cc
find_header_end-find_crlf (a ∷ b ∷ rest) n h = elim (Bool-cases (a == b'\r' && b == b'\n')) [
  | inl here ↦ (0, rw here refl)
  | inr other ↦ elim (Option-cases (find_header_end (b ∷ rest))) [
    | inl nothing ↦ absurd (ground (arith, h, nothing, at_header_end-other a b rest other))
    | inr (k, later) ↦
        let (m, found) = find_header_end-find_crlf (b ∷ rest) k later in
        (suc m, rw (other, found) refl)
  ]
]

line_length-some : (buffer : Bytes) (m : ℕ) → find_crlf buffer ≡ some m → line_length buffer ≡ m
line_length-some buffer m e = ap (λ o. elim o [ none ↦ length buffer | some line_end ↦ line_end ]) e

-- What follows a block does not change the line that is logged for it.
pub extract_request_line-append :
    (buffer more : Bytes) (size : ℕ) {n : ℕ}
    → find_header_end buffer ≡ some n
    → extract_request_line buffer size ≡ extract_request_line (buffer ++ more) size
unfolding extract_request_line
extract_request_line-append buffer more size {n} e =
    let (m, line_end) = find_header_end-find_crlf buffer n e in
    let longer = find_crlf-append_some buffer more m line_end in
    let lt = find_crlf-lt buffer m line_end in
    rw (line_length-some buffer m line_end, line_length-some (buffer ++ more) m longer)
      (sym (take-append (if leb size m then size - 1 else m) buffer more (ground (arith, lt))))
