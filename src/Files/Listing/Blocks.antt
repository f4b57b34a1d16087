-- ===== src/Files/Listing/Blocks.antt =====
-- The memory that `file_build_directory_listing` (src/files.c) obtains and frees, with
-- `builder_reserve` and `builder_destroy` over the block that a builder holds.
pub mod Ledger
pub mod Rows
pub mod SameText
pub mod Same
pub mod Freed
use final_system_progamming.Common.{
  ℕ, suc, ◌+◌, ◌*◌, ◌%◌, Bool, true, false, not, List, [], ◌∷◌, ◌++◌, Option, none, some, Bytes,
  codes, ltb, leb, ◌==◌, if◌then◌else◌, length, size_mod, size_max, add_size, sub_size,
}
use final_system_progamming.Files.Types.{FileResult, ok, error}
use final_system_progamming.Files.Resolve.{FileSystem}
use final_system_progamming.Files.Escape.{url_escape_char, html_escape_char}
use final_system_progamming.Files.Builder.{
  StringBuilder, empty_builder, grow_capacity, resized, put_text,
}
use final_system_progamming.Files.Listing.{
  Memory, DirectoryEntry, Entries, entry_size, larger, entry_of, is_hidden, qsort, Piece, plain,
  html, url, single, row_pieces, rows_pieces,
}
use final_system_progamming.Files.Listing.Heap.{
  Heap, taken, free, EntryBlocks, grow_array, duplicate_string, set_name, append_entry_block,
  read_entry_blocks, free_names, free_directory_entries,
}

-- The builder with the block of its array.
pub record TextBlock : Type 0 where
  pub builder : StringBuilder
  pub data_at : Option ℕ
  pub heap : Heap

abbrev pub grow_text : (ℕ → Bool) → TextBlock → ℕ → Bool × TextBlock
grow_text realloc text new_capacity =
    if realloc new_capacity
    then (
      true,
      record text {
        builder = record text.builder {
          data_bytes = resized new_capacity text.builder.data_bytes;
          capacity = new_capacity;
        };
        data_at = some text.heap.next;
        heap = free text.data_at (taken text.heap);
      },
    )
    else (false, text)

-- `builder_reserve`
unfoldable pub reserve_block : (ℕ → Bool) → TextBlock → ℕ → Bool × TextBlock
unfolding grow_capacity
reserve_block realloc text additional =
    let required = add_size (add_size text.builder.length_used additional) 1 in
    if ltb (sub_size (sub_size size_max text.builder.length_used) 1) additional
    then (false, text)
    else if leb required text.builder.capacity
    then (true, text)
    else grow_text realloc text (grow_capacity text.builder.capacity required)

abbrev pub put_part : Bytes → Bool × TextBlock → Bool × TextBlock
put_part part (false, text) = (false, text)
put_part part (true, text) = (true, record text { builder = put_text part text.builder })

-- Appends one after the other, until one fails.
unfoldable pub append_parts : (ℕ → Bool) → List Bytes → Bool × TextBlock → Bool × TextBlock
unfolding reserve_block
append_parts realloc parts (false, text) = (false, text)
append_parts realloc [] (true, text) = (true, text)
append_parts realloc (part ∷ parts) (true, text) =
    append_parts realloc parts (put_part part (reserve_block realloc text (length part)))

abbrev pub escaped_parts : (ℕ → Bytes) → Bytes → List Bytes
escaped_parts escape [] = []
escaped_parts escape (ch ∷ text) = escape ch ∷ escaped_parts escape text

-- The calls that reserve room, by the text that each puts there.
abbrev pub parts_of : List Piece → List Bytes
parts_of [] = []
parts_of (plain text ∷ pieces) = text ∷ parts_of pieces
parts_of (html text ∷ pieces) = escaped_parts html_escape_char text ++ parts_of pieces
parts_of (url text ∷ pieces) = escaped_parts url_escape_char text ++ parts_of pieces
parts_of (single ch ∷ pieces) = (ch ∷ []) ∷ parts_of pieces

-- The page without its last text.
abbrev pub front_pieces : Bytes → List DirectoryEntry → List Piece
front_pieces request_path entries =
    plain (codes "<!doctype html><html><head><meta charset=\"utf-8\"><title>Index of ")
    ∷ html request_path
    ∷ plain (codes "</title></head><body><h1>Index of ")
    ∷ html request_path
    ∷ plain (codes "</h1><ul>")
    ∷ rows_pieces entries

-- What the caller gets, the block of `*body`, and the heap.
pub record Handed : Type 0 where
  pub result : FileResult StringBuilder
  pub body_at : Option ℕ
  pub heap : Heap

abbrev pub builder_destroy : TextBlock → TextBlock
builder_destroy text = record {
  builder = empty_builder;
  data_at = none;
  heap = free text.data_at text.heap;
}

-- The builder is destroyed, or its array handed over.
abbrev pub hand_body : Bool × TextBlock → Handed
hand_body (false, text) = record {
  result = error;
  body_at = none;
  heap = (builder_destroy text).heap;
}
hand_body (true, text) = record {
  result = ok text.builder;
  body_at = text.data_at;
  heap = text.heap;
}

-- The entries are freed behind the rows, whether all were appended or not; `qsort` has moved the
-- blocks of the names, which are the same ones.
abbrev pub free_entries_of : EntryBlocks → TextBlock → TextBlock
free_entries_of held text = record text {
  heap = free_directory_entries held.array_at held.names_at text.heap;
}

abbrev pub end_page : (ℕ → Bool) → EntryBlocks → Bool × TextBlock → Handed
end_page realloc held (false, text) = hand_body (false, free_entries_of held text)
end_page realloc held (true, text) =
    hand_body
      (append_parts realloc (codes "</ul></body></html>" ∷ []) (true, free_entries_of held text))

-- `string_builder_t builder = {0};`
abbrev pub empty_text : Heap → TextBlock
empty_text heap = record { builder = empty_builder; data_at = none; heap = heap }

-- The page up to the end of the rows.
abbrev pub front_of : Memory → Bytes → EntryBlocks → Bool × TextBlock
front_of memory request_path held =
    append_parts memory.realloc (parts_of (front_pieces request_path (qsort held.entries.list)))
      (true, empty_text held.heap)

abbrev pub page_blocks : Memory → Bytes → Bool × EntryBlocks → Handed
page_blocks memory request_path (false, held) = record {
  result = error;
  body_at = none;
  heap = free_directory_entries held.array_at held.names_at held.heap;
}
page_blocks memory request_path (true, held) =
    end_page memory.realloc held (front_of memory request_path held)

abbrev pub no_entries : Heap → EntryBlocks
no_entries heap = record {
  entries = record { list = []; capacity = 0 };
  array_at = none;
  names_at = [];
  heap = heap;
}

-- `file_build_directory_listing`
unfoldable pub listing_blocks :
    FileSystem → Memory → Bytes → Bytes → Option (List Bytes) → Heap → Handed
unfolding append_parts read_entry_blocks
listing_blocks fs memory request_path resolved_path none heap = record {
  result = error;
  body_at = none;
  heap = heap;
}
listing_blocks fs memory request_path resolved_path (some names) heap =
    page_blocks memory request_path
      (read_entry_blocks fs resolved_path memory names (true, no_entries heap))
