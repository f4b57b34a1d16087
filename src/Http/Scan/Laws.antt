-- ===== src/Http/Scan/Laws.antt =====
-- What the scanning helpers find and copy.
use mathlib.Core.Option
use final_system_progamming.Common.{
  ℕ, zero, suc, ◌+◌, ◌-◌, ◌≤◌, ◌<◌, ◌≡◌, refl, sym, ap, ◌∙◌, false, ◌&&◌, ◌||◌, [], ◌∷◌, ◌++◌,
  Option, none, some, arith, Bytes, Avoids, leb, ◌==◌, length, take, drop, get_elem?, c_string,
  length-append, length-take, length-drop, take-all, c_string-stop, get_or-append_length,
  Bool-cases, inl, inr,
}
use final_system_progamming.Http.Scan.{
  copy_bounded, find_crlf, skip_spaces, trim_trailing_span, is_space,
}

-- The two bytes of a line end stand at an offset.
abbrev pub CrlfAt : Bytes → ℕ → Type 0
CrlfAt text n = (get_elem? text n ≡ some b'\r') × (get_elem? text (suc n) ≡ some b'\n')

abbrev pub FirstCrlf : Bytes → Option ℕ → Type 0
FirstCrlf text none = (m : ℕ) → ¬ CrlfAt text m
FirstCrlf text (some n) = CrlfAt text n × ((m : ℕ) → m < n → ¬ CrlfAt text m)

FirstCrlf-cons :
    (a b : ℕ) (rest : Bytes) (later : Option ℕ)
    → (a == b'\r' && b == b'\n') ≡ false
    → FirstCrlf (b ∷ rest) later
    → FirstCrlf (a ∷ b ∷ rest) (Option.map suc later)
FirstCrlf-cons a b rest none h f = go
  where
    go : (m : ℕ) → ¬ CrlfAt (a ∷ b ∷ rest) m
    go zero e = ground arith
    go (suc m) e = f m e
FirstCrlf-cons a b rest (some n) h f = (f.0, go)
  where
    go : (m : ℕ) → m < suc n → ¬ CrlfAt (a ∷ b ∷ rest) m
    go zero lt e = ground arith
    go (suc m) lt e = f.1 m (omega arith) e

-- `find_crlf` finds the first `\r\n` of the span, and none exactly when there is none.
pub find_crlf-FirstCrlf : (text : Bytes) → FirstCrlf text (find_crlf text)
unfolding find_crlf
find_crlf-FirstCrlf [] = λ m e. cc
find_crlf-FirstCrlf (a ∷ []) = go
  where
    go : (m : ℕ) → ¬ CrlfAt (a ∷ []) m
    go zero e = cc
    go (suc m) e = cc
find_crlf-FirstCrlf (a ∷ b ∷ rest) = elim (Bool-cases (a == b'\r' && b == b'\n')) [
  | inl here ↦ rw here (ground arith, λ m lt. absurd (omega arith))
  | inr later ↦ rw later (FirstCrlf-cons a b rest _ later (find_crlf-FirstCrlf (b ∷ rest)))
]

pub CrlfAt-splits :
    (text : Bytes) (n : ℕ) → CrlfAt text n → text ≡ take n text ++ b'\r' ∷ b'\n' ∷ drop (n + 2) text
CrlfAt-splits [] n h = cc
CrlfAt-splits (a ∷ []) zero h = cc
CrlfAt-splits (a ∷ b ∷ rest) zero h = ground arith
CrlfAt-splits (a ∷ rest) (suc n) h =
    let next : suc n + 2 ≡ suc (n + 2) = omega arith in
    rw next (ap (λ ys. a ∷ ys) (CrlfAt-splits rest n h))

pub find_crlf-lt : (text : Bytes) (n : ℕ) → find_crlf text ≡ some n → n + 2 ≤ length text
unfolding find_crlf
find_crlf-lt [] n h = cc
find_crlf-lt (a ∷ []) n h = cc
find_crlf-lt (a ∷ b ∷ rest) n h = grind (arith, find_crlf-lt (b ∷ rest))

pub find_crlf-append :
    (line rest : Bytes)
    → Avoids b'\r' line
    → find_crlf (line ++ (b'\r' ∷ b'\n' ∷ rest)) ≡ some (length line)
unfolding find_crlf
find_crlf-append [] rest h = refl
find_crlf-append (a ∷ []) rest h = ground arith
find_crlf-append (a ∷ b ∷ line) rest h = ground (arith, find_crlf-append (b ∷ line) rest h.1)

-- What follows does not change where the first line ends.
pub find_crlf-append_some :
    (xs ys : Bytes) (n : ℕ) → find_crlf xs ≡ some n → find_crlf (xs ++ ys) ≡ some n
unfolding find_crlf
find_crlf-append_some [] ys n h = cc
find_crlf-append_some (a ∷ []) ys n h = cc
find_crlf-append_some (a ∷ b ∷ rest) ys n h = grind (arith, find_crlf-append_some (b ∷ rest) ys)

length-splice :
    (k : ℕ) (dest src : Bytes)
    → k ≤ length src
    → k < length dest
    → length (take k src ++ 0 ∷ drop (suc k) dest) ≡ length dest
length-splice k dest src h lt = omega (
  arith,
  length-append (take k src) (0 ∷ drop (suc k) dest),
  length-take k src,
  length-drop (suc k) dest,
)

pub length-copy_bounded :
    (dest src : Bytes) → 0 < length dest → length (copy_bounded dest src) ≡ length dest
unfolding copy_bounded
length-copy_bounded dest src h = elim (Bool-cases (leb (length dest) (length src))) [
  | inl long ↦ rw long (length-splice (length dest - 1) dest src (ground arith) (omega arith))
  | inr short ↦ rw short (length-splice (length src) dest src (omega arith) (ground arith))
]

pub c_string-copy_bounded :
    (dest src : Bytes)
    → 0 < length dest
    → c_string (copy_bounded dest src) ≡ c_string (take (length dest - 1) src)
unfolding copy_bounded
c_string-copy_bounded dest src h = elim (Bool-cases (leb (length dest) (length src))) [
  | inl long ↦ rw long (c_string-stop (take (length dest - 1) src) _)
  | inr short ↦ rw short (
      c_string-stop (take (length src) src) _
      ∙ ap c_string (
          take-all (length src) src (omega arith)
          ∙ sym (take-all (length dest - 1) src (ground arith))))
]

-- `copy_bounded` writes inside an array of one byte at least: it keeps its length, and as a C
-- string it then holds the source up to a NUL or up to one byte less than the array has.
copy_bounded_fits :
    (dest src : Bytes)
    → 0 < length dest
    → (length (copy_bounded dest src) ≡ length dest)
      × (c_string (copy_bounded dest src) ≡ c_string (take (length dest - 1) src))
copy_bounded_fits dest src h = (length-copy_bounded dest src h, c_string-copy_bounded dest src h)

pub trim_trailing_span-last :
    (front : Bytes) (c : ℕ)
    → (is_space c || c == b'\r' || c == b'\n') ≡ false
    → trim_trailing_span (front ++ c ∷ []) ≡ front ++ c ∷ []
unfolding trim_trailing_span
trim_trailing_span-last front c h =
    let size : length (front ++ c ∷ []) ≡ suc (length front) =
      omega (arith, length-append front (c ∷ [])) in
    let whole : take (suc (length front)) (front ++ c ∷ []) ≡ front ++ c ∷ [] =
      take-all (suc (length front)) (front ++ c ∷ []) (omega arith) in
    rw (size, get_or-append_length, h) whole

pub skip_spaces-cons :
    (c : ℕ) (text : Bytes) → is_space c ≡ false → skip_spaces (c ∷ text) ≡ c ∷ text
unfolding skip_spaces
skip_spaces-cons c text h = ground arith
