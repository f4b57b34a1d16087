-- ===== src/Files/Listing/Blocks/Same.antt =====
-- The listing with its blocks returns what the listing without them does (src/files.c).
use final_system_progamming.Common.{
  ◌+◌, append_assoc, ◌≡◌, refl, sym, ap, ◌∙◌, Bool, true, false, List, [], ◌∷◌, ◌++◌, Option, none,
  some, Bytes, codes, ltb, ◌==◌, ◌*◌, ◌%◌, if◌then◌else◌, Bool-cases, inl, inr, length, size_mod,
}
use final_system_progamming.Files.Escape.{html_escape_char, url_escape_char}
use final_system_progamming.Files.Builder.{empty_builder}
use final_system_progamming.Files.Listing.{
  finished, build_page, qsort, file_build_directory_listing, Memory, DirectoryEntry, Entries,
  entry_size, larger, entry_of, is_hidden, read_entries, make_room, put_entry, Piece, plain, html,
  url, single,
}
use final_system_progamming.Files.Listing.Heap.{
  Heap, EntryBlocks, grow_array, append_entry_block, read_entry_blocks,
}
use final_system_progamming.Files.Listing.Blocks.{
  hand_body, end_page, free_entries_of, page_blocks, front_pieces, front_of, empty_text,
  listing_blocks, no_entries, TextBlock, escaped_parts, parts_of,
}
use final_system_progamming.Files.Resolve.{FileSystem}
use final_system_progamming.Files.Listing.Blocks.SameText.{
  builder_of, append_all, append_all-append, append_parts-append_all, append_all-append_pieces,
}

-- The entries, where nothing failed.
abbrev pub entries_of : Bool × EntryBlocks → Option Entries
entries_of (false, held) = none
entries_of (true, held) = some held.entries

module _ (memory : Memory) where
  grow_array-make_room :
      (held : EntryBlocks) → entries_of (grow_array memory held) ≡ make_room memory held.entries
  unfolding grow_array
  grow_array-make_room held =
      elim (Bool-cases (length held.entries.list == held.entries.capacity)) [
        | inr room ↦ rw room refl
        | inl full ↦
            rw full (elim (Bool-cases (ltb (larger held.entries.capacity) held.entries.capacity)) [
              | inl wraps ↦ rw wraps refl
              | inr fits ↦
                  rw fits
                    (elim (Bool-cases (
                      memory.realloc_entries (length held.entries.list)
                        (larger held.entries.capacity * entry_size % size_mod))) [
                          | inl given ↦ rw given refl
                          | inr fails ↦ rw fails refl
                        ])
            ])
      ]

  append_entry_block-put_entry :
      (entry : DirectoryEntry) (r : Bool × EntryBlocks)
      → entries_of (append_entry_block memory entry r) ≡ put_entry memory (entries_of r) entry
  unfolding append_entry_block
  append_entry_block-put_entry entry (false, held) = refl
  append_entry_block-put_entry entry (true, held) =
      elim (Bool-cases (memory.malloc (length held.entries.list) (length entry.name + 1))) [
        | inl given ↦ rw given refl
        | inr fails ↦ rw fails refl
      ]

  pub read_entry_blocks-read_entries :
      (fs : FileSystem) (resolved_path : Bytes) (names : List Bytes) (r : Bool × EntryBlocks)
      → entries_of (read_entry_blocks fs resolved_path memory names r)
        ≡ read_entries fs resolved_path memory names (entries_of r)
  unfolding read_entry_blocks read_entries
  read_entry_blocks-read_entries fs resolved_path names (false, held) = refl
  read_entry_blocks-read_entries fs resolved_path [] (true, held) = refl
  read_entry_blocks-read_entries fs resolved_path (name ∷ names) (true, held) =
      let entry = entry_of fs resolved_path name in
      let next =
        if is_hidden name
        then (true, held)
        else append_entry_block memory entry (grow_array memory held) in
      let pure =
        if is_hidden name
        then some held.entries
        else put_entry memory (make_room memory held.entries) entry in
      let same : entries_of next ≡ pure = elim (Bool-cases (is_hidden name)) [
        | inl hidden ↦ rw hidden refl
        | inr shown ↦ rw shown (
            append_entry_block-put_entry entry (grow_array memory held)
            ∙ ap (λ o. put_entry memory o entry) (grow_array-make_room held))
      ] in
      read_entry_blocks-read_entries fs resolved_path names next
      ∙ ap (read_entries fs resolved_path memory names) same

parts_of-append :
    (pieces others : List Piece) → parts_of (pieces ++ others) ≡ parts_of pieces ++ parts_of others
parts_of-append [] others = refl
parts_of-append (plain text ∷ pieces) others =
    ap (λ parts. text ∷ parts) (parts_of-append pieces others)
parts_of-append (html text ∷ pieces) others =
    ap (λ parts. escaped_parts html_escape_char text ++ parts) (parts_of-append pieces others)
    ∙ sym (append_assoc (escaped_parts html_escape_char text) (parts_of pieces) (parts_of others))
parts_of-append (url text ∷ pieces) others =
    ap (λ parts. escaped_parts url_escape_char text ++ parts) (parts_of-append pieces others)
    ∙ sym (append_assoc (escaped_parts url_escape_char text) (parts_of pieces) (parts_of others))
parts_of-append (single ch ∷ pieces) others =
    ap (λ parts. (ch ∷ []) ∷ parts) (parts_of-append pieces others)

result-hand_body : (r : Bool × TextBlock) → (hand_body r).result ≡ finished (builder_of r)
result-hand_body (false, text) = refl
result-hand_body (true, text) = refl

module _ (memory : Memory) (request_path : Bytes) where
  result-end_page :
      (held : EntryBlocks) (r : Bool × TextBlock)
      → (end_page memory.realloc held r).result
        ≡ finished (append_all memory.realloc (codes "</ul></body></html>" ∷ []) (builder_of r))
  result-end_page held (false, text) = refl
  result-end_page held (true, text) =
      result-hand_body _
      ∙ ap finished (
          append_parts-append_all memory.realloc (codes "</ul></body></html>" ∷ [])
            (true, free_entries_of held text))

  result-page_blocks :
      (r : Bool × EntryBlocks)
      → (page_blocks memory request_path r).result ≡ build_page memory request_path (entries_of r)
  result-page_blocks (false, held) = refl
  result-page_blocks (true, held) =
      let end = codes "</ul></body></html>" in
      let front = front_pieces request_path (qsort held.entries.list) in
      let all = append_all memory.realloc in
      result-end_page held (front_of memory request_path held)
      ∙ ap (λ b. finished (all (end ∷ []) b))
          (append_parts-append_all memory.realloc (parts_of front) (true, empty_text held.heap))
      ∙ ap finished (
          sym (append_all-append memory.realloc (parts_of front) (end ∷ []) (some empty_builder))
          ∙ ap (λ parts. all parts (some empty_builder))
              (sym (parts_of-append front (plain end ∷ [])))
          ∙ append_all-append_pieces memory.realloc (front ++ plain end ∷ []) (some empty_builder))

pub result-listing_blocks :
    (fs : FileSystem) (memory : Memory) (request_path resolved_path : Bytes)
    (names : Option (List Bytes)) (heap : Heap)
    → (listing_blocks fs memory request_path resolved_path names heap).result
      ≡ file_build_directory_listing fs memory request_path resolved_path names
unfolding listing_blocks file_build_directory_listing
result-listing_blocks fs memory request_path resolved_path none heap = refl
result-listing_blocks fs memory request_path resolved_path (some names) heap =
    result-page_blocks memory request_path
      (read_entry_blocks fs resolved_path memory names (true, no_entries heap))
    ∙ ap (build_page memory request_path)
        (read_entry_blocks-read_entries memory fs resolved_path names (true, no_entries heap))
