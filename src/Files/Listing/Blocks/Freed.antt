-- ===== src/Files/Listing/Blocks/Freed.antt =====
-- Every block of memory that a listing takes is freed once, or is the body handed over.
use final_system_progamming.Common.{
  ℕ, ◌≡◌, ◌⊎◌, refl, Bool, true, false, List, [], ◌∷◌, ◌++◌, Option, none, some, Bytes, arith,
  count-append, size_max, add_size, sub_size, ltb, leb, codes, Bool-cases, inl, inr, length,
}
use final_system_progamming.Files.Builder.{StringBuilder, grow_capacity}
use final_system_progamming.Files.Types.{FileResult, ok, not_found, forbidden, error}
use final_system_progamming.Files.Resolve.{FileSystem}
use final_system_progamming.Files.Listing.{file_build_directory_listing, qsort, Memory}
use final_system_progamming.Files.Listing.Heap.{
  EntryBlocks, Heap, free_names, free_directory_entries,
}
use final_system_progamming.Files.Listing.Blocks.{
  front_of, empty_text, front_pieces, parts_of, listing_blocks, no_entries, page_blocks, end_page,
  hand_body, Handed, free_entries_of, TextBlock, reserve_block, put_part, append_parts,
}
use final_system_progamming.Files.Listing.Blocks.Ledger.{
  owned, has_block, IsBalanced, IsBalanced-free, IsBalanced-free_names, IsBalanced-realloc,
}
use final_system_progamming.Files.Listing.Blocks.Same.{result-listing_blocks}
use final_system_progamming.Files.Listing.Blocks.Rows.{IsSound, read_entry_blocks-IsSound}

-- The builder's array is live, with the blocks of others.
abbrev HoldsText : List ℕ → TextBlock → Type 0
HoldsText rest text = IsBalanced text.heap (owned text.data_at ++ rest)

put_part-HoldsText :
    (part : Bytes) (rest : List ℕ) (r : Bool × TextBlock)
    → HoldsText rest r.1
    → HoldsText rest (put_part part r).1
put_part-HoldsText part rest (false, text) h = h
put_part-HoldsText part rest (true, text) h = h

module _ (realloc : ℕ → Bool) (rest : List ℕ) where
  reserve_block-HoldsText :
      (text : TextBlock) (additional : ℕ)
      → HoldsText rest text
      → HoldsText rest (reserve_block realloc text additional).1
  unfolding reserve_block
  reserve_block-HoldsText text additional h =
      let required = add_size (add_size text.builder.length_used additional) 1 in
      elim (Bool-cases (ltb (sub_size (sub_size size_max text.builder.length_used) 1) additional)) [
        | inl wraps ↦ rw wraps h
        | inr fits ↦ rw fits (elim (Bool-cases (leb required text.builder.capacity)) [
          | inl room ↦ rw room h
          | inr full ↦
              rw full (elim (Bool-cases (realloc (grow_capacity text.builder.capacity required))) [
                | inl given ↦ rw given (IsBalanced-realloc text.data_at text.heap rest h)
                | inr fails ↦ rw fails h
              ])
        ])
      ]

  append_parts-HoldsText :
      (parts : List Bytes) (r : Bool × TextBlock)
      → HoldsText rest r.1
      → HoldsText rest (append_parts realloc parts r).1
  unfolding append_parts
  append_parts-HoldsText parts (false, text) h = h
  append_parts-HoldsText [] (true, text) h = h
  append_parts-HoldsText (part ∷ parts) (true, text) h =
      append_parts-HoldsText parts (put_part part (reserve_block realloc text (length part))) (
        put_part-HoldsText part rest (reserve_block realloc text (length part))
          (reserve_block-HoldsText text (length part) h))

-- The block that the caller has to free, which is none where the function fails.
abbrev pub live_of : FileResult StringBuilder → Option ℕ → List ℕ
live_of (ok builder) body_at = owned body_at
live_of not_found body_at = []
live_of forbidden body_at = []
live_of error body_at = []

-- What is live once the function has returned is the body.
abbrev pub IsClean : List ℕ → Handed → Type 0
IsClean rest handed = IsBalanced handed.heap (live_of handed.result handed.body_at ++ rest)

free_directory_entries-IsBalanced :
    (rest : List ℕ) (array : Option ℕ) (names : List ℕ) (heap : Heap)
    → IsBalanced heap (owned array ++ (names ++ rest))
    → (has_block array ≡ true) ⊎ (names ≡ [])
    → IsBalanced (free_directory_entries array names heap) rest
free_directory_entries-IsBalanced rest none names heap h (inl e) block = ground (arith, e)
free_directory_entries-IsBalanced rest none names heap h (inr e) block =
    omega (arith, rw e at h block)
free_directory_entries-IsBalanced rest (some b) names heap h e block =
    IsBalanced-free (some b) (free_names names heap) rest
      (IsBalanced-free_names names heap (b ∷ rest) (λ block.
        omega (arith, h block, count-append block names rest, count-append block names (b ∷ rest))))
      block

hand_body-IsClean :
    (rest : List ℕ) (r : Bool × TextBlock) → HoldsText rest r.1 → IsClean rest (hand_body r)
hand_body-IsClean rest (false, text) h = IsBalanced-free text.data_at text.heap rest h
hand_body-IsClean rest (true, text) h = h

module _ (rest : List ℕ) (held : EntryBlocks) (s : IsSound rest held) where
  no_names : (has_block held.array_at ≡ true) ⊎ (held.names_at ≡ [])
  no_names = elim s.tied [ inl there ↦ inl there | inr none_there ↦ inr none_there.0 ]

  free_entries_of-HoldsText :
      (text : TextBlock)
      → HoldsText (owned held.array_at ++ (held.names_at ++ rest)) text
      → HoldsText rest (free_entries_of held text)
  free_entries_of-HoldsText text h =
      free_directory_entries-IsBalanced (owned text.data_at ++ rest) held.array_at held.names_at
        text.heap
        (λ block. omega (
          arith,
          h block,
          count-append block (owned text.data_at) (owned held.array_at ++ (held.names_at ++ rest)),
          count-append block (owned held.array_at) (held.names_at ++ rest),
          count-append block held.names_at rest,
          count-append block (owned held.array_at) (held.names_at ++ (owned text.data_at ++ rest)),
          count-append block held.names_at (owned text.data_at ++ rest),
          count-append block (owned text.data_at) rest,
        ))
        no_names

  end_page-IsClean :
      (realloc : ℕ → Bool) (r : Bool × TextBlock)
      → HoldsText (owned held.array_at ++ (held.names_at ++ rest)) r.1
      → IsClean rest (end_page realloc held r)
  end_page-IsClean realloc (false, text) h =
      hand_body-IsClean rest (false, free_entries_of held text) (free_entries_of-HoldsText text h)
  end_page-IsClean realloc (true, text) h = hand_body-IsClean rest _ (
      append_parts-HoldsText realloc rest (codes "</ul></body></html>" ∷ [])
        (true, free_entries_of held text) (free_entries_of-HoldsText text h))

page_blocks-IsClean :
    (memory : Memory) (rest : List ℕ) (request_path : Bytes) (r : Bool × EntryBlocks)
    → IsSound rest r.1
    → IsClean rest (page_blocks memory request_path r)
page_blocks-IsClean memory rest request_path (false, held) s =
    free_directory_entries-IsBalanced rest held.array_at held.names_at held.heap s.balanced
      (no_names rest held s)
page_blocks-IsClean memory rest request_path (true, held) s =
    end_page-IsClean rest held s memory.realloc (front_of memory request_path held) (
      append_parts-HoldsText memory.realloc (owned held.array_at ++ (held.names_at ++ rest))
        (parts_of (front_pieces request_path (qsort held.entries.list)))
        (true, empty_text held.heap) s.balanced)

IsClean-listing_blocks :
    (fs : FileSystem) (memory : Memory) (request_path resolved_path : Bytes)
    (names : Option (List Bytes)) (heap : Heap) (rest : List ℕ)
    → IsBalanced heap rest
    → IsClean rest (listing_blocks fs memory request_path resolved_path names heap)
unfolding listing_blocks
IsClean-listing_blocks fs memory request_path resolved_path none heap rest h = h
IsClean-listing_blocks fs memory request_path resolved_path (some names) heap rest h =
    page_blocks-IsClean memory rest request_path _ (
      read_entry_blocks-IsSound memory rest fs resolved_path names (true, no_entries heap)
        (record { balanced = h; tied = inr (refl, refl) }))

-- A listing neither leaks nor frees twice, on every path: whatever the directory holds and
-- whichever of its calls of `malloc` and `realloc` fail, each by itself, each block that `malloc`
-- or `realloc` gave has been freed once when the function returns, save the array of a body that
-- is handed over with success; what was live before stays live. The account of the blocks returns
-- what the listing without it does.
pub listing_blocks-IsClean :
    (fs : FileSystem) (memory : Memory) (request_path resolved_path : Bytes)
    (names : Option (List Bytes)) (heap : Heap) (rest : List ℕ)
    → IsBalanced heap rest
    → let handed = listing_blocks fs memory request_path resolved_path names heap in
      IsClean rest handed
      × (handed.result ≡ file_build_directory_listing fs memory request_path resolved_path names)
listing_blocks-IsClean fs memory request_path resolved_path names heap rest h = (
  IsClean-listing_blocks fs memory request_path resolved_path names heap rest h,
  result-listing_blocks fs memory request_path resolved_path names heap,
)
