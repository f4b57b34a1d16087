-- ===== src/Files/Mime/Extensions.antt =====
-- Which part of a path decides its type, and that every row of the table can be reached.
use final_system_progamming.Common.{
  ℕ, ◌≡◌, refl, sym, ap, ◌∙◌, Bool, true, false, not, ◌&&◌, List, [], ◌∷◌, ◌++◌, none, some, arith,
  Bytes, Avoids, All, bytes_eq, bytes_eq_iff, ◌==◌, if◌then◌else◌,
}
use final_system_progamming.Files.Mime.{strrchr, mime_table, octet_stream, type_of, file_mime_type}

strrchr-none : (c : ℕ) (text : Bytes) → Avoids c text → strrchr c text ≡ none
strrchr-none c [] a = refl
strrchr-none c (x ∷ text) a = ground (arith, a.0, strrchr-none c text a.1)

strrchr-last :
    (c : ℕ) (stem text : Bytes) → Avoids c text → strrchr c (stem ++ c ∷ text) ≡ some (c ∷ text)
strrchr-last c [] text a = ground (arith, strrchr-none c text a)
strrchr-last c (x ∷ stem) text a = ground (arith, strrchr-last c stem text a)

-- The type of a path is decided by what stands from its last dot on, whatever stands before it; a
-- path without a dot is an octet stream.
file_mime_type-extension :
    (stem extension path : Bytes)
    → Avoids b'.' extension
    → Avoids b'.' path
    → (file_mime_type (stem ++ b'.' ∷ extension) ≡ type_of mime_table (b'.' ∷ extension))
      × (file_mime_type path ≡ octet_stream)
unfolding file_mime_type
file_mime_type-extension stem extension path a b = (
  rw (strrchr-last b'.' stem extension a, file_mime_type),
  rw (strrchr-none b'.' path b, file_mime_type),
)

abbrev has_dot : Bytes → Bool
has_dot [] = false
has_dot (c ∷ text) = if c == b'.' then true else has_dot text

abbrev is_extension : Bytes → Bool
is_extension [] = false
is_extension (c ∷ text) = c == b'.' && not (has_dot text)

reached : List (Bytes × Bytes) → Bool
reached [] = true
reached ((e, mime) ∷ more) = is_extension e && bytes_eq (type_of mime_table e) mime && reached more

table-reached : reached mime_table ≡ true
unfolding reached
table-reached = refl

has_dot-Avoids : (text : Bytes) → has_dot text ≡ false → Avoids b'.' text
has_dot-Avoids [] h = tt
has_dot-Avoids (c ∷ text) h = (λ e. ground arith, has_dot-Avoids text (ground arith))

and3 : (a b c : Bool) → (a && b && c) ≡ true → (a ≡ true) × (b ≡ true) × (c ≡ true)
and3 a b c h = ground arith

row-hit :
    (stem e mime : Bytes)
    → is_extension e ≡ true
    → bytes_eq (type_of mime_table e) mime ≡ true
    → file_mime_type (stem ++ e) ≡ mime
row-hit stem [] mime h k = cc
row-hit stem (c ∷ text) mime h k =
    let dot : b'.' ≡ c = ground (arith, h) in
    let plain : has_dot text ≡ false = ground (arith, h) in
    ap (λ x. file_mime_type (stem ++ x ∷ text)) (sym dot)
    ∙ (file_mime_type-extension stem text [] (has_dot-Avoids text plain) tt).0
    ∙ ap (λ x. type_of mime_table (x ∷ text)) dot
    ∙ (bytes_eq_iff _ mime).0 k

rows-hit :
    (stem : Bytes) (rows : List (Bytes × Bytes))
    → reached rows ≡ true
    → All (λ row. file_mime_type (stem ++ row.0) ≡ row.1) rows
unfolding reached
rows-hit stem [] h = tt
rows-hit stem ((e, mime) ∷ more) h =
    let t = and3 (is_extension e) (bytes_eq (type_of mime_table e) mime) (reached more) h in
    (row-hit stem e mime t.0 t.1, rows-hit stem more t.2)

-- Every row of the table is reached: a path that ends in its extension, whatever stands before,
-- gets its type, so no earlier test hides a later one.
file_mime_type-rows :
    (stem : Bytes) → All (λ row. file_mime_type (stem ++ row.0) ≡ row.1) mime_table
file_mime_type-rows stem = rows-hit stem mime_table table-reached
