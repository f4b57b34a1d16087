-- ===== src/Files/Escape/Html.antt =====
-- Escaped text holds no markup, and stands for one text only.
use final_system_progamming.Common.{
  ◌↔◌, ap, ℕ, ◌≡◌, ◌≢◌, refl, sym, ap₂, [], ◌∷◌, ◌++◌, arith, Bytes, All, All-append, ◌==◌,
  Bool-cases, inl, inr,
}
use final_system_progamming.Files.Escape.{html_escape_char, html_escape}

-- Not one of the bytes that open or close a tag or an attribute.
abbrev IsText : ℕ → Type 0
IsText c = (c ≢ b'<') × (c ≢ b'>') × (c ≢ b'"')

html_escape_char-IsText : (c : ℕ) → All IsText (html_escape_char c)
unfolding html_escape_char
html_escape_char-IsText c = elim (Bool-cases (c == b'&')) [
  | inl e ↦ rw (e, html_escape_char) (omega arith)
  | inr amp ↦
      rw (amp, html_escape_char)
        (elim (Bool-cases (c == b'<')) [
          | inl e ↦ rw e (omega arith)
          | inr lt ↦ rw lt (elim (Bool-cases (c == b'>')) [
            | inl e ↦ rw e (omega arith)
            | inr gt ↦ rw gt (elim (Bool-cases (c == b'"')) [
              | inl e ↦ rw e (omega arith)
              | inr quote ↦ rw quote ((λ e. ground arith, λ e. ground arith, λ e. ground arith), tt)
            ])
          ])
        ])
]

pub html_escape-All : (text : Bytes) → All IsText (html_escape text)
unfolding html_escape
html_escape-All [] = tt
html_escape-All (c ∷ text) =
    All-append IsText (html_escape_char c) (html_escape text) (html_escape_char-IsText c)
      (html_escape-All text)

html_escape_char-injective :
    (x y : ℕ) (s t : Bytes) → html_escape_char x ++ s ≡ html_escape_char y ++ t → (x ≡ y) × (s ≡ t)
unfolding html_escape_char
html_escape_char-injective x y s t h = ground arith

html_escape_char-ne : (x : ℕ) (s : Bytes) → html_escape_char x ++ s ≢ []
unfolding html_escape_char
html_escape_char-ne x s h = ground arith

html_escape-injective : (a b : Bytes) → html_escape a ≡ html_escape b → a ≡ b
unfolding html_escape
html_escape-injective [] [] h = refl
html_escape-injective [] (y ∷ b) h = absurd (html_escape_char-ne y (html_escape b) (sym h))
html_escape-injective (x ∷ a) [] h = absurd (html_escape_char-ne x (html_escape a) h)
html_escape-injective (x ∷ a) (y ∷ b) h =
    let e = html_escape_char-injective x y (html_escape a) (html_escape b) h in
    ap₂ (λ c text. c ∷ text) e.0 (html_escape-injective a b e.1)

-- What is appended for a text holds no `<`, `>` or `"`, and no two texts look alike.
pub html_escape_safe :
    (a b : Bytes)
    → All (λ c. (c ≢ b'<') × (c ≢ b'>') × (c ≢ b'"')) (html_escape a)
      × ((html_escape a ≡ html_escape b) ↔ (a ≡ b))
html_escape_safe a b = (html_escape-All a, (html_escape-injective a b, ap html_escape))
