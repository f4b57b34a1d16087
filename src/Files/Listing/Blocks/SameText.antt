-- ===== src/Files/Listing/Blocks/SameText.antt =====
-- The appends with the block of the builder leave what those without it do (src/files.c).
use mathlib.Core.Option
use final_system_progamming.Common.{
  ℕ, ◌≡◌, refl, sym, ap, ◌∙◌, Bool, true, false, List, [], ◌∷◌, ◌++◌, Option, none, some, Bytes,
  ltb, leb, Bool-cases, inl, inr, length, size_max, add_size, sub_size,
}
use final_system_progamming.Files.Escape.{html_escape_char, url_escape_char}
use final_system_progamming.Files.Builder.{
  builder_append_html_escaped, builder_append_url_escaped, StringBuilder, grow_capacity,
  builder_reserve, put_text, builder_append_text, builder_append_char, and_then, append_each,
}
use final_system_progamming.Files.Listing.{Piece, plain, html, url, single, append_pieces}
use final_system_progamming.Files.Listing.Blocks.{
  TextBlock, reserve_block, put_part, append_parts, escaped_parts, parts_of,
}

-- The builder, where nothing failed.
abbrev pub builder_of : Bool × TextBlock → Option StringBuilder
builder_of (false, text) = none
builder_of (true, text) = some text.builder

builder_of-put_part :
    (part : Bytes) (r : Bool × TextBlock)
    → builder_of (put_part part r) ≡ Option.map (put_text part) (builder_of r)
builder_of-put_part part (false, text) = refl
builder_of-put_part part (true, text) = refl

module _ (realloc : ℕ → Bool) where
  reserve_block-builder_reserve :
      (text : TextBlock) (additional : ℕ)
      → builder_of (reserve_block realloc text additional)
        ≡ builder_reserve realloc text.builder additional
  unfolding reserve_block builder_reserve
  reserve_block-builder_reserve text additional =
      let required = add_size (add_size text.builder.length_used additional) 1 in
      elim (Bool-cases (ltb (sub_size (sub_size size_max text.builder.length_used) 1) additional)) [
        | inl wraps ↦ rw wraps refl
        | inr fits ↦ rw fits (elim (Bool-cases (leb required text.builder.capacity)) [
          | inl room ↦ rw room refl
          | inr full ↦
              rw full (elim (Bool-cases (realloc (grow_capacity text.builder.capacity required))) [
                | inl given ↦ rw given refl
                | inr fails ↦ rw fails refl
              ])
        ])
      ]

  -- The same appends on the builder alone.
  abbrev pub append_all : List Bytes → Option StringBuilder → Option StringBuilder
  append_all [] b = b
  append_all (part ∷ parts) b =
      append_all parts (and_then b (λ b'. builder_append_text realloc b' part))

  append_all-none : (parts : List Bytes) → append_all parts none ≡ none
  append_all-none [] = refl
  append_all-none (part ∷ parts) = append_all-none parts

  pub append_all-append :
      (parts others : List Bytes) (b : Option StringBuilder)
      → append_all (parts ++ others) b ≡ append_all others (append_all parts b)
  append_all-append [] others b = refl
  append_all-append (part ∷ parts) others b =
      append_all-append parts others (and_then b (λ b'. builder_append_text realloc b' part))

  pub append_parts-append_all :
      (parts : List Bytes) (r : Bool × TextBlock)
      → builder_of (append_parts realloc parts r) ≡ append_all parts (builder_of r)
  unfolding append_parts builder_append_text
  append_parts-append_all parts (false, text) = sym (append_all-none parts)
  append_parts-append_all [] (true, text) = refl
  append_parts-append_all (part ∷ parts) (true, text) =
      append_parts-append_all parts (put_part part (reserve_block realloc text (length part)))
      ∙ ap (append_all parts) (
          builder_of-put_part part (reserve_block realloc text (length part))
          ∙ ap (Option.map (put_text part)) (reserve_block-builder_reserve text (length part)))

  text-char :
      (b : StringBuilder) (ch : ℕ)
      → builder_append_text realloc b (ch ∷ []) ≡ builder_append_char realloc b ch
  unfolding builder_append_text builder_append_char
  text-char b ch = refl

  append_all-append_each :
      (escape : ℕ → Bytes) (text : Bytes) (b : Option StringBuilder)
      → append_all (escaped_parts escape text) b ≡ and_then b (append_each escape realloc text)
  unfolding append_each
  append_all-append_each escape text none = append_all-none (escaped_parts escape text)
  append_all-append_each escape [] (some b) = refl
  append_all-append_each escape (p ∷ text) (some b) =
      append_all-append_each escape text (builder_append_text realloc b (escape p))

  pub append_all-append_pieces :
      (pieces : List Piece) (b : Option StringBuilder)
      → append_all (parts_of pieces) b ≡ and_then b (append_pieces realloc pieces)
  unfolding append_pieces
  append_all-append_pieces pieces none = append_all-none (parts_of pieces)
  append_all-append_pieces [] (some b) = refl
  append_all-append_pieces (plain text ∷ pieces) (some b) =
      append_all-append_pieces pieces (builder_append_text realloc b text)
  append_all-append_pieces (html text ∷ pieces) (some b) =
      append_all-append (escaped_parts html_escape_char text) (parts_of pieces) (some b)
      ∙ ap (append_all (parts_of pieces)) (append_all-append_each html_escape_char text (some b))
      ∙ append_all-append_pieces pieces (builder_append_html_escaped realloc text b)
  append_all-append_pieces (url text ∷ pieces) (some b) =
      append_all-append (escaped_parts url_escape_char text) (parts_of pieces) (some b)
      ∙ ap (append_all (parts_of pieces)) (append_all-append_each url_escape_char text (some b))
      ∙ append_all-append_pieces pieces (builder_append_url_escaped realloc text b)
  append_all-append_pieces (single ch ∷ pieces) (some b) =
      ap (append_all (parts_of pieces)) (text-char b ch)
      ∙ append_all-append_pieces pieces (builder_append_char realloc b ch)
