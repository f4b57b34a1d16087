-- ===== src/Files/Mime/Plain.antt =====
-- No MIME type of `file_mime_type` (src/files.c) can end a header line.
use final_system_progamming.Common.{
  ℕ, ◌≡◌, refl, Bool, true, ◌&&◌, List, [], ◌∷◌, Bytes, Avoids, bytes_eq, Bool-cases, Option-cases,
  inl, inr, not, ◌==◌, arith,
}
use final_system_progamming.Files.Mime.{strrchr, mime_table, octet_stream, type_of, file_mime_type}

-- No byte of the text is `c`.
abbrev lacks : ℕ → Bytes → Bool
lacks c [] = true
lacks c (x ∷ text) = not (x == c) && lacks c text

abbrev all_lack : ℕ → List (Bytes × Bytes) → Bool
all_lack c [] = true
all_lack c ((e, mime) ∷ more) = lacks c mime && all_lack c more

lacks-Avoids : (c : ℕ) (text : Bytes) → lacks c text ≡ true → Avoids c text
lacks-Avoids c [] h = tt
lacks-Avoids c (x ∷ text) h = (λ e. ground (arith, h, e), lacks-Avoids c text (ground (arith, h)))

type_of-Avoids :
    (c : ℕ) (table : List (Bytes × Bytes)) (extension : Bytes)
    → all_lack c table ≡ true
    → Avoids c octet_stream
    → Avoids c (type_of table extension)
type_of-Avoids c [] extension h o = o
type_of-Avoids c ((e, mime) ∷ more) extension h o = elim (Bool-cases (bytes_eq extension e)) [
  | inl same ↦ rw same (lacks-Avoids c mime (ground (arith, h)))
  | inr other ↦ rw other (type_of-Avoids c more extension (ground (arith, h)) o)
]

table_lacks : all_lack b'\r' mime_table ≡ true
table_lacks = refl

pub file_mime_type-Avoids : (path : Bytes) → Avoids b'\r' (file_mime_type path)
unfolding file_mime_type
file_mime_type-Avoids path = elim (Option-cases (strrchr b'.' path)) [
  | inl e ↦ rw (e, file_mime_type) (lacks-Avoids b'\r' octet_stream refl)
  | inr (extension, e) ↦
      rw (e, file_mime_type)
        (type_of-Avoids b'\r' mime_table extension table_lacks
          (lacks-Avoids b'\r' octet_stream refl))
]
