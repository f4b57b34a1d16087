-- ===== src/Tests/ListingTests.antt =====
-- A listing, and the results on the string builder and the listing at an input.
use mathlib.Core.List.Perm
use final_system_progamming.Common.{
  ◌==◌, leb, ◌≡◌, inl, refl, true, List, [], ◌∷◌, some, arith, Bytes, codes, bytes_eq,
  if◌then◌else◌,
}
use final_system_progamming.Files.Types.{FileResult, ok}
use final_system_progamming.Files.Escape.{html_escape_char, url_escape_char}
use final_system_progamming.Files.Resolve.{FileSystem, failed, is_regular, is_directory}
use final_system_progamming.Files.Builder.{
  StringBuilder, empty_builder, grow_from, builder_append_text, builder_append_char, append_each,
}
use final_system_progamming.Files.Builder.Appends.{
  IsBuilder, Holds, text_of, builder_append_text-Holds,
}
use final_system_progamming.Files.Listing.{
  Memory, DirectoryEntry, read_entries, qsort, append_pieces, file_build_directory_listing,
}
use final_system_progamming.Files.Listing.Heap.{
  Heap, grow_array, append_entry_block, read_entry_blocks,
}
use final_system_progamming.Files.Listing.Blocks.{reserve_block, append_parts, listing_blocks}
use final_system_progamming.Files.Listing.Blocks.Freed.{IsClean, listing_blocks-IsClean}
use final_system_progamming.Files.Listing.Text.{page_text}
use final_system_progamming.Files.Listing.Order.{file_build_directory_listing-order}
use final_system_progamming.Files.Listing.Sorted.{
  visible, IsAscending, file_build_directory_listing-sorted,
}
use mathlib.Core.List.{Perm}

abbrev result_or_empty : FileResult StringBuilder → StringBuilder
result_or_empty (ok builder) = builder
result_or_empty _ = empty_builder

abbrev hello : StringBuilder
hello = record { data_bytes = codes "hello\0\0\0"; length_used = 5; capacity = 8 }

abbrev hello_you : StringBuilder
hello_you = record { data_bytes = codes "hello you\0\0\0\0\0\0\0"; length_used = 9; capacity = 16 }

hello-IsBuilder : IsBuilder hello
hello-IsBuilder = record { sized = refl; fits = inl (omega arith); bounded = omega arith }

appended : builder_append_text (λ size. true) hello (codes " you") ≡ some hello_you
unfolding builder_append_text grow_from
appended = refl

builder_append_text-Holds_example : Holds (codes "hello you") hello_you
builder_append_text-Holds_example =
    builder_append_text-Holds (λ size. true) (codes " you") hello-IsBuilder appended

-- A directory with a hidden file, a directory and a file.
abbrev names : List Bytes
names = codes "b&" ∷ codes ".git" ∷ codes "a" ∷ []

abbrev disk : FileSystem
disk = record {
  realpath = λ p. failed;
  stat = λ p. if bytes_eq p (codes "/w/a") then is_directory else is_regular 1;
}

abbrev plenty : Memory
plenty = record {
  realloc_entries = λ i size. true;
  malloc = λ i size. true;
  realloc = λ size. true;
}

abbrev page : StringBuilder
page =
    result_or_empty (file_build_directory_listing disk plenty (codes "/") (codes "/w") (some names))

page_is :
    text_of page
    ≡ codes
        "<!doctype html><html><head><meta charset=\"utf-8\"><title>Index of /</title></head><body><h1>Index of /</h1><ul><li><a href=\"a/\">a/</a></li><li><a href=\"b%26\">b&amp;</a></li></ul></body></html>"
unfolding file_build_directory_listing read_entries append_pieces builder_append_text append_each
    html_escape_char grow_from qsort url_escape_char builder_append_char
page_is = refl

page_built :
    file_build_directory_listing disk plenty (codes "/") (codes "/w") (some names) ≡ ok page
unfolding file_build_directory_listing read_entries append_pieces builder_append_text append_each
    html_escape_char grow_from qsort url_escape_char builder_append_char
page_built = refl

file_build_directory_listing-sorted_example :
    IsBuilder page
    × ((es : List DirectoryEntry) × (text_of page ≡ page_text (codes "/") es)
        × Perm es (visible disk (codes "/w") names)
        × IsAscending es)
file_build_directory_listing-sorted_example =
    file_build_directory_listing-sorted disk plenty (codes "/") (codes "/w") names page_built

-- The names of the directory in another order, with its page.
abbrev names_swapped : List Bytes
names_swapped = codes ".git" ∷ codes "b&" ∷ codes "a" ∷ []

swapped_built :
    file_build_directory_listing disk plenty (codes "/") (codes "/w") (some names_swapped) ≡ ok page
unfolding file_build_directory_listing read_entries append_pieces builder_append_text append_each
    html_escape_char grow_from qsort url_escape_char builder_append_char
swapped_built = refl

file_build_directory_listing-order_example : text_of page ≡ text_of page
file_build_directory_listing-order_example =
    file_build_directory_listing-order disk (codes "/w") plenty plenty (codes "/")
      (Perm.swap (codes ".git") (codes "b&") (codes "a" ∷ [])) page_built swapped_built

abbrev new_heap : Heap
new_heap = record { next = 0; freed = [] }

-- The builder gets no memory: the array and the names of both entries are freed.
without_body :
    (listing_blocks disk
      (record {
        realloc_entries = λ i size. true;
        malloc = λ i size. true;
        realloc = λ size. leb size 512;
      })
      (codes "/")
      (codes "/w")
      (some names)
      new_heap).heap.freed
    ≡ 1 ∷ 2 ∷ 0 ∷ []
unfolding listing_blocks read_entry_blocks append_entry_block grow_array append_parts reserve_block
    grow_from qsort
without_body = refl

-- Two names of one length, of which the second gets no memory.
abbrev second_fails : Memory
second_fails = record plenty { malloc = λ i size. i == 0 }

without_second :
    (listing_blocks disk second_fails
      (codes "/")
      (codes "/w")
      (some (codes "a" ∷ codes "b" ∷ []))
      new_heap).heap.freed
    ≡ 1 ∷ 0 ∷ []
unfolding listing_blocks read_entry_blocks append_entry_block grow_array
without_second = refl

listing_blocks-IsClean_example :
    let handed = listing_blocks disk plenty (codes "/") (codes "/w") (some names) new_heap in
    IsClean [] handed
    × (handed.result
        ≡ file_build_directory_listing disk plenty (codes "/") (codes "/w") (some names))
listing_blocks-IsClean_example =
    listing_blocks-IsClean disk plenty (codes "/") (codes "/w") (some names) new_heap []
      (λ block. grind arith)
