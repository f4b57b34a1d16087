-- ===== src/Files/Listing/Text.antt =====
-- The text of a listing's page, and of the calls that append it.
use final_system_progamming.Common.{
  ◌≡◌, refl, sym, ap, ap₂, ◌∙◌, Bool, List, [], ◌∷◌, ◌++◌, append_assoc, Bytes, codes,
  if◌then◌else◌, Bool-cases, inl, inr,
}
use final_system_progamming.Files.Escape.{html_escape, url_escape}
use final_system_progamming.Files.Listing.{
  DirectoryEntry, Piece, plain, html, url, single, row_pieces, rows_pieces, page_pieces,
}

-- The text that a call appends.
abbrev pub piece_text : Piece → Bytes
piece_text (plain text) = text
piece_text (html text) = html_escape text
piece_text (url text) = url_escape text
piece_text (single ch) = ch ∷ []

abbrev pub pieces_text : List Piece → Bytes
pieces_text [] = []
pieces_text (piece ∷ pieces) = piece_text piece ++ pieces_text pieces

abbrev slash_text : Bool → Bytes
slash_text directory = if directory then codes "/" else []

-- The link of an entry, and the page.
abbrev pub row_text : DirectoryEntry → Bytes
row_text e =
    codes "<li><a href=\""
    ++ (url_escape e.name
        ++ (slash_text e.directory
            ++ (codes "\">"
                ++ (html_escape e.name ++ (slash_text e.directory ++ codes "</a></li>")))))

abbrev pub rows_text : List DirectoryEntry → Bytes
rows_text [] = []
rows_text (e ∷ rest) = row_text e ++ rows_text rest

abbrev pub page_text : Bytes → List DirectoryEntry → Bytes
page_text request_path entries =
    codes "<!doctype html><html><head><meta charset=\"utf-8\"><title>Index of "
    ++ (html_escape request_path
        ++ (codes "</title></head><body><h1>Index of "
            ++ (html_escape request_path
                ++ (codes "</h1><ul>" ++ (rows_text entries ++ codes "</ul></body></html>")))))

pieces_text-append :
    (xs ys : List Piece) → pieces_text (xs ++ ys) ≡ pieces_text xs ++ pieces_text ys
pieces_text-append [] ys = refl
pieces_text-append (x ∷ xs) ys =
    ap (λ t. piece_text x ++ t) (pieces_text-append xs ys)
    ∙ sym (append_assoc (piece_text x) (pieces_text xs) (pieces_text ys))

pieces_text-row : (e : DirectoryEntry) → pieces_text (row_pieces e) ≡ row_text e
pieces_text-row e = elim (Bool-cases e.directory) [
  | inl directory ↦ rw directory refl
  | inr file ↦ rw file refl
]

pieces_text-rows :
    (entries : List DirectoryEntry) → pieces_text (rows_pieces entries) ≡ rows_text entries
pieces_text-rows [] = refl
pieces_text-rows (e ∷ rest) =
    pieces_text-append (row_pieces e) (rows_pieces rest)
    ∙ ap₂ (λ s t. s ++ t) (pieces_text-row e) (pieces_text-rows rest)

pub pieces_text-page :
    (request_path : Bytes) (entries : List DirectoryEntry)
    → pieces_text (page_pieces request_path entries) ≡ page_text request_path entries
pieces_text-page request_path entries =
    let end = plain (codes "</ul></body></html>") ∷ [] in
    let rows =
      pieces_text-append (rows_pieces entries) end
      ∙ ap (λ t. t ++ codes "</ul></body></html>") (pieces_text-rows entries) in
    rw rows refl
