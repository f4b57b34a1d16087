-- ===== src/Files/Listing.antt =====
-- `append_directory_entry` and `file_build_directory_listing` (src/files.c). What `opendir`,
-- `readdir`, `stat`, `realloc` and `malloc` answer are parameters.
pub mod Text
pub mod Page
pub mod Order
pub mod Sorted
pub mod Heap
pub mod Blocks
use final_system_progamming.Common.{
  ℕ, ◌+◌, ◌*◌, ◌%◌, Bool, true, false, not, ◌&&◌, List, [], ◌∷◌, ◌++◌, Option, none, some, Bytes,
  codes, ltb, leb, ◌==◌, if◌then◌else◌, length, get_or, size_mod,
}
use final_system_progamming.Files.Types.{FileResult, ok, error, file_path_max}
use final_system_progamming.Files.Resolve.{FileSystem, Stat, is_directory}
use final_system_progamming.Files.Builder.{
  StringBuilder, empty_builder, and_then, builder_append_text, builder_append_char,
  builder_append_html_escaped, builder_append_url_escaped,
}

pub record DirectoryEntry : Type 0 where
  pub name : Bytes
  pub directory : Bool

-- Which calls get memory, each of which a listing makes once at most, so that any of them may
-- fail, whatever the others do: `realloc_entries` and `malloc` are asked with the number of the
-- entries before the call and a size, `realloc`, for the builder's array, with the size, which is
-- larger at every call. An entry follows on a `malloc` that succeeds, and one that fails is the
-- last.
pub record Memory : Type 0 where
  pub realloc_entries : ℕ → ℕ → Bool
  pub malloc : ℕ → ℕ → Bool
  pub realloc : ℕ → Bool

-- The entries of the array, and its capacity.
pub record Entries : Type 0 where
  pub list : List DirectoryEntry
  pub capacity : ℕ

abbrev pub entry_size : ℕ
entry_size = 16

abbrev pub larger : ℕ → ℕ
larger capacity = if capacity == 0 then 16 else capacity * 2 % size_mod

-- The array once it has room for one entry more.
abbrev pub make_room : Memory → Entries → Option Entries
make_room memory entries =
    if not (length entries.list == entries.capacity)
    then some entries
    else if ltb (larger entries.capacity) entries.capacity
    then none
    else if memory.realloc_entries (length entries.list)
        (larger entries.capacity * entry_size % size_mod)
    then some (record entries { capacity = larger entries.capacity })
    else none

abbrev pub put_entry : Memory → Option Entries → DirectoryEntry → Option Entries
put_entry memory none entry = none
put_entry memory (some entries) entry =
    if memory.malloc (length entries.list) (length entry.name + 1)
    then some (record entries { list = entries.list ++ entry ∷ [] })
    else none

unfoldable pub append_directory_entry : Memory → Entries → DirectoryEntry → Option Entries
append_directory_entry memory entries entry = put_entry memory (make_room memory entries) entry

abbrev says_directory : Stat → Bool
says_directory is_directory = true
says_directory _ = false

-- What is kept of a name that `readdir` gives.
abbrev pub entry_of : FileSystem → Bytes → Bytes → DirectoryEntry
entry_of fs resolved_path name =
    let child_path = resolved_path ++ b'/' ∷ name in
    record {
      name = name;
      directory =
          if leb file_path_max (length child_path)
          then false
          else says_directory (fs.stat child_path);
    }

-- The names of hidden entries, and of the directory and its parent.
abbrev pub is_hidden : Bytes → Bool
is_hidden name = get_or name 0 0 == b'.'

-- The loop over the names that `readdir` gives; a failed append ends it.
unfoldable pub read_entries :
    FileSystem → Bytes → Memory → List Bytes → Option Entries → Option Entries
unfolding append_directory_entry
read_entries fs resolved_path memory names none = none
read_entries fs resolved_path memory [] (some entries) = some entries
read_entries fs resolved_path memory (name ∷ names) (some entries) =
    read_entries fs resolved_path memory names (
      if is_hidden name
      then some entries
      else append_directory_entry memory entries (entry_of fs resolved_path name))

-- `compare_directory_entries(left, right) <= 0`
abbrev pub name_le : Bytes → Bytes → Bool
name_le [] right = true
name_le (l ∷ left) [] = false
name_le (l ∷ left) (r ∷ right) = if l == r then name_le left right else ltb l r

abbrev pub insert : DirectoryEntry → List DirectoryEntry → List DirectoryEntry
insert e [] = e ∷ []
insert e (f ∷ rest) =
    let later = insert e rest in if name_le e.name f.name then e ∷ f ∷ rest else f ∷ later

-- The entries in the order of their names; the names of a directory differ, so there is one.
unfoldable pub qsort : List DirectoryEntry → List DirectoryEntry
qsort [] = []
qsort (e ∷ rest) = insert e (qsort rest)

-- One call of an append, by which function makes it.
pub data Piece : Type 0 where
  plain html url : Bytes → Piece
  single : ℕ → Piece

abbrev append_piece : (ℕ → Bool) → Piece → StringBuilder → Option StringBuilder
append_piece realloc (plain text) builder = builder_append_text realloc builder text
append_piece realloc (html text) builder = builder_append_html_escaped realloc text builder
append_piece realloc (url text) builder = builder_append_url_escaped realloc text builder
append_piece realloc (single ch) builder = builder_append_char realloc builder ch

-- A chain of appends joined by `||`, until one fails.
unfoldable pub append_pieces : (ℕ → Bool) → List Piece → StringBuilder → Option StringBuilder
append_pieces realloc [] builder = some builder
append_pieces realloc (piece ∷ pieces) builder =
    and_then (append_piece realloc piece builder) (append_pieces realloc pieces)

abbrev slash_if : Bool → List Piece
slash_if true = single b'/' ∷ []
slash_if false = []

-- The appends for an entry.
abbrev pub row_pieces : DirectoryEntry → List Piece
row_pieces e =
    plain (codes "<li><a href=\"")
    ∷ url e.name
    ∷ (slash_if e.directory
        ++ plain (codes "\">")
          ∷ html e.name
          ∷ (slash_if e.directory ++ plain (codes "</a></li>") ∷ []))

abbrev pub rows_pieces : List DirectoryEntry → List Piece
rows_pieces [] = []
rows_pieces (e ∷ rest) = row_pieces e ++ rows_pieces rest

-- All the appends of a page.
abbrev pub page_pieces : Bytes → List DirectoryEntry → List Piece
page_pieces request_path entries =
    plain (codes "<!doctype html><html><head><meta charset=\"utf-8\"><title>Index of ")
    ∷ html request_path
    ∷ plain (codes "</title></head><body><h1>Index of ")
    ∷ html request_path
    ∷ plain (codes "</h1><ul>")
    ∷ (rows_pieces entries ++ plain (codes "</ul></body></html>") ∷ [])

abbrev pub finished : Option StringBuilder → FileResult StringBuilder
finished (some builder) = ok builder
finished none = error

abbrev pub build_page : Memory → Bytes → Option Entries → FileResult StringBuilder
build_page memory request_path none = error
build_page memory request_path (some entries) =
    finished
      (append_pieces memory.realloc (page_pieces request_path (qsort entries.list)) empty_builder)

-- `none` for the names is a failed `opendir`. The body handed over is the builder's text.
unfoldable pub file_build_directory_listing :
    FileSystem → Memory → Bytes → Bytes → Option (List Bytes) → FileResult StringBuilder
file_build_directory_listing fs memory request_path resolved_path none = error
file_build_directory_listing fs memory request_path resolved_path (some names) =
    build_page memory request_path
      (read_entries fs resolved_path memory names (some (record { list = []; capacity = 0 })))
