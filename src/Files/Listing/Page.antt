-- ===== src/Files/Listing/Page.antt =====
-- The page of a listing holds every visible name, escaped, in order.
use mathlib.Core.Path.{subst}
use final_system_progamming.Common.{
  ℕ, ◌≡◌, sym, ap, ◌∙◌, Bool, List, [], ◌∷◌, ◌++◌, append-nil, append_assoc, Option, none, some,
  arith, Bytes, if◌then◌else◌, Bool-cases, Option-cases, inl, inr,
}
use final_system_progamming.Files.Types.{ok}
use final_system_progamming.Files.Escape.{
  html_escape, html_escape_char, url_escape, url_escape_char,
}
use final_system_progamming.Files.Resolve.{FileSystem}
use final_system_progamming.Files.Builder.{
  StringBuilder, empty_builder, and_then, builder_append_text, builder_append_char, append_each,
}
use final_system_progamming.Files.Builder.Appends.{
  IsBuilder, text_of, empty-IsBuilder, builder_append_text-Holds,
}
use final_system_progamming.Files.Listing.Text.{
  piece_text, pieces_text, page_text, pieces_text-page,
}
use final_system_progamming.Files.Listing.{
  DirectoryEntry, Memory, Entries, Piece, plain, html, url, single, append_piece, append_pieces,
  append_directory_entry, read_entries, entry_of, is_hidden, qsort, page_pieces, finished,
  file_build_directory_listing,
}

-- The entries for the names that are not hidden.
abbrev pub listed : FileSystem → Bytes → List Bytes → List DirectoryEntry
listed fs resolved_path [] = []
listed fs resolved_path (name ∷ names) =
    let rest = listed fs resolved_path names in
    if is_hidden name then rest else entry_of fs resolved_path name ∷ rest

-- A successful call keeps the builder in order and appends this text.
abbrev Appends : (StringBuilder → Option StringBuilder) → Bytes → Type 0
Appends append text =
    (b b' : StringBuilder)
    → IsBuilder b
    → append b ≡ some b'
    → IsBuilder b' × (text_of b' ≡ text_of b ++ text)

nothing-Appends : Appends (λ b. some b) []
nothing-Appends b b' v h =
    let same : b ≡ b' = ground (arith, h) in
    subst (λ c. IsBuilder c × (text_of c ≡ text_of b ++ [])) same (v, sym (append-nil (text_of b)))

and_then-Appends :
    (first next : StringBuilder → Option StringBuilder) (s t : Bytes)
    → Appends first s
    → Appends next t
    → Appends (λ b. and_then (first b) next) (s ++ t)
and_then-Appends first next s t f g b b' v h = elim (Option-cases (first b)) [
  | inl failed ↦ absurd (ground (arith, rw failed at h))
  | inr (m, e) ↦
      let one = f b m v e in
      let two = g m b' one.0 (rw e at h) in
      (two.0, two.1 ∙ ap (λ xs. xs ++ t) one.1 ∙ append_assoc (text_of b) s t)
]

module _ (realloc : ℕ → Bool) where
  text-Appends : (text : Bytes) → Appends (λ b. builder_append_text realloc b text) text
  text-Appends text b b' v h =
      let p = builder_append_text-Holds realloc text v h in (p.in_order, p.is_text)

  html-Appends :
      (text : Bytes) → Appends (append_each html_escape_char realloc text) (html_escape text)
  unfolding append_each html_escape
  html-Appends [] = nothing-Appends
  html-Appends (p ∷ text) =
      and_then-Appends (λ b. builder_append_text realloc b (html_escape_char p)) _
        (html_escape_char p) (html_escape text) (text-Appends (html_escape_char p))
        (html-Appends text)

  url-Appends :
      (text : Bytes) → Appends (append_each url_escape_char realloc text) (url_escape text)
  unfolding append_each url_escape
  url-Appends [] = nothing-Appends
  url-Appends (p ∷ text) =
      and_then-Appends (λ b. builder_append_text realloc b (url_escape_char p)) _
        (url_escape_char p) (url_escape text) (text-Appends (url_escape_char p)) (url-Appends text)

  char-Appends : (ch : ℕ) → Appends (λ b. builder_append_char realloc b ch) (ch ∷ [])
  unfolding builder_append_char builder_append_text
  char-Appends ch = text-Appends (ch ∷ [])

  piece-Appends : (piece : Piece) → Appends (append_piece realloc piece) (piece_text piece)
  piece-Appends (plain text) = text-Appends text
  piece-Appends (html text) = html-Appends text
  piece-Appends (url text) = url-Appends text
  piece-Appends (single ch) = char-Appends ch

  pieces-Appends :
      (pieces : List Piece) → Appends (append_pieces realloc pieces) (pieces_text pieces)
  unfolding append_pieces
  pieces-Appends [] = nothing-Appends
  pieces-Appends (piece ∷ pieces) =
      and_then-Appends (append_piece realloc piece) _ (piece_text piece) (pieces_text pieces)
        (piece-Appends piece) (pieces-Appends pieces)

append_directory_entry-list :
    (memory : Memory) (entries : Entries) (entry : DirectoryEntry) {entries' : Entries}
    → append_directory_entry memory entries entry ≡ some entries'
    → entries'.list ≡ entries.list ++ entry ∷ []
unfolding append_directory_entry
append_directory_entry-list memory entries entry h = ground (arith, h)

read_entries-listed :
    (fs : FileSystem) (resolved_path : Bytes) (memory : Memory) (names : List Bytes)
    (entries : Entries) {entries' : Entries}
    → read_entries fs resolved_path memory names (some entries) ≡ some entries'
    → entries'.list ≡ entries.list ++ listed fs resolved_path names
unfolding read_entries
read_entries-listed fs resolved_path memory [] entries {entries'} h =
    let same : entries ≡ entries' = ground (arith, h) in
    ap (λ e. e.list) (sym same) ∙ sym (append-nil entries.list)
read_entries-listed fs resolved_path memory (name ∷ names) entries {entries'} h =
    let e = entry_of fs resolved_path name in
    let go : read_entries fs resolved_path memory names
          (if is_hidden name then some entries else append_directory_entry memory entries e)
        ≡ some entries' =
      h in
    elim (Bool-cases (is_hidden name)) [
      | inl hidden ↦
          rw hidden (read_entries-listed fs resolved_path memory names entries (rw hidden at go))
      | inr visible ↦ elim (Option-cases (append_directory_entry memory entries e)) [
        | inl failed ↦ absurd (ground (arith, rw (visible, failed) at go))
        | inr (m, put) ↦
            let later =
              read_entries-listed fs resolved_path memory names m (rw (visible, put) at go) in
            rw visible (
              later
              ∙ ap (λ xs. xs ++ listed fs resolved_path names)
                  (append_directory_entry-list memory entries e put)
              ∙ append_assoc entries.list (e ∷ []) (listed fs resolved_path names))
      ]
    ]

finished-ok :
    (o : Option StringBuilder) {body : StringBuilder} → finished o ≡ ok body → o ≡ some body
finished-ok none h = cc
finished-ok (some b) h = ap some (ground (arith, h))

pub file_build_directory_listing-page :
    (fs : FileSystem) (memory : Memory) (request_path resolved_path : Bytes) (names : List Bytes)
    {body : StringBuilder}
    → file_build_directory_listing fs memory request_path resolved_path (some names) ≡ ok body
    → IsBuilder body
      × (text_of body ≡ page_text request_path (qsort (listed fs resolved_path names)))
unfolding file_build_directory_listing
file_build_directory_listing-page fs memory request_path resolved_path names {body} h =
    let start : Entries = record { list = []; capacity = 0 } in
    elim (Option-cases (read_entries fs resolved_path memory names (some start))) [
      | inl failed ↦ absurd (ground (arith, rw failed at h))
      | inr (entries, read) ↦
          let list = read_entries-listed fs resolved_path memory names start read in
          let built = finished-ok _ (rw (read, list) at h) in
          let es = qsort (listed fs resolved_path names) in
          let all =
            pieces-Appends memory.realloc (page_pieces request_path es) empty_builder body
              empty-IsBuilder built in
          (all.0, all.1 ∙ pieces_text-page request_path es)
    ]
