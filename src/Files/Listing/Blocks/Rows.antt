-- ===== src/Files/Listing/Blocks/Rows.antt =====
-- `append_directory_entry` (src/files.c) keeps account of the blocks.
use final_system_progamming.Common.{
  ℕ, ◌+◌, ◌≡◌, ◌⊎◌, refl, Bool, true, false, List, [], ◌∷◌, ◌++◌, Bytes, arith, count-append, ◌%◌,
  ◌*◌, size_mod, ◌==◌, ltb, if◌then◌else◌, Bool-cases, inl, inr, length,
}
use final_system_progamming.Files.Resolve.{FileSystem}
use final_system_progamming.Files.Listing.{
  Memory, DirectoryEntry, entry_size, larger, entry_of, is_hidden,
}
use final_system_progamming.Files.Listing.Heap.{
  EntryBlocks, grow_array, append_entry_block, read_entry_blocks, duplicate_string, set_name,
}
use final_system_progamming.Files.Listing.Blocks.Ledger.{
  owned, has_block, IsBalanced, IsBalanced-taken, IsBalanced-realloc,
}

-- The array and the names are live, with the blocks of others; without an array there are no names
-- and no room.
pub record IsSound (rest : List ℕ) (held : EntryBlocks) : Type 0 where
  pub balanced : IsBalanced held.heap (owned held.array_at ++ (held.names_at ++ rest))
  pub tied :
      (has_block held.array_at ≡ true)
      ⊎ ((held.names_at ≡ []) × (length held.entries.list ≡ held.entries.capacity))

module _ (memory : Memory) (rest : List ℕ) where
  grow_array-IsSound :
      (held : EntryBlocks)
      → IsSound rest held
      → let r = grow_array memory held in
        IsSound rest r.1 × (r.0 ≡ true → has_block r.1.array_at ≡ true)
  unfolding grow_array
  grow_array-IsSound held s =
      elim (Bool-cases (length held.entries.list == held.entries.capacity)) [
        | inr room ↦ rw room (
          s,
          λ e. elim s.tied [
            | inl there ↦ there
            | inr none_there ↦ ground (arith, room, none_there)
          ],
        )
        | inl full ↦
            rw full (elim (Bool-cases (ltb (larger held.entries.capacity) held.entries.capacity)) [
              | inl wraps ↦ rw wraps (s, λ e. ground (arith, e))
              | inr fits ↦
                  rw fits
                    (elim (Bool-cases (
                      memory.realloc_entries (length held.entries.list)
                        (larger held.entries.capacity * entry_size % size_mod))) [
                          | inr fails ↦ rw fails (s, λ e. ground (arith, e))
                          | inl given ↦ rw given (
                            record {
                              balanced =
                                  IsBalanced-realloc held.array_at held.heap (held.names_at ++ rest)
                                    s.balanced;
                              tied = inl refl;
                            },
                            λ e. refl,
                          )
                        ])
            ])
      ]

  set_name-IsSound :
      (entry : DirectoryEntry) (held : EntryBlocks)
      → IsSound rest held
      → has_block held.array_at ≡ true
      → IsSound rest
          (set_name entry held
            (duplicate_string (memory.malloc (length held.entries.list)) entry.name held.heap)).1
  set_name-IsSound entry held s there =
      elim (Bool-cases (memory.malloc (length held.entries.list) (length entry.name + 1))) [
        | inr fails ↦ rw fails s
        | inl given ↦ rw given (record {
          balanced = λ block. grind (
            arith,
            IsBalanced-taken held.heap (owned held.array_at ++ (held.names_at ++ rest)) s.balanced
                block,
            count-append block (owned held.array_at) (held.names_at ++ rest),
            count-append block held.names_at rest,
            count-append block (owned held.array_at)
                ((held.names_at ++ held.heap.next ∷ []) ++ rest),
            count-append block (held.names_at ++ held.heap.next ∷ []) rest,
            count-append block held.names_at (held.heap.next ∷ []),
          );
          tied = inl there;
        })
      ]

  append_entry_block-IsSound :
      (entry : DirectoryEntry) (r : Bool × EntryBlocks)
      → IsSound rest r.1
      → (r.0 ≡ true → has_block r.1.array_at ≡ true)
      → IsSound rest (append_entry_block memory entry r).1
  unfolding append_entry_block
  append_entry_block-IsSound entry (false, held) s there = s
  append_entry_block-IsSound entry (true, held) s there = set_name-IsSound entry held s (there refl)

  abbrev next_entry : FileSystem → Bytes → Bytes → EntryBlocks → Bool × EntryBlocks
  next_entry fs resolved_path name held =
      if is_hidden name
      then (true, held)
      else append_entry_block memory (entry_of fs resolved_path name) (grow_array memory held)

  pub read_entry_blocks-IsSound :
      (fs : FileSystem) (resolved_path : Bytes) (names : List Bytes) (r : Bool × EntryBlocks)
      → IsSound rest r.1
      → IsSound rest (read_entry_blocks fs resolved_path memory names r).1
  unfolding read_entry_blocks
  read_entry_blocks-IsSound fs resolved_path names (false, held) s = s
  read_entry_blocks-IsSound fs resolved_path [] (true, held) s = s
  read_entry_blocks-IsSound fs resolved_path (name ∷ names) (true, held) s =
      read_entry_blocks-IsSound fs resolved_path names _
        (elim (Bool-cases (is_hidden name))
          as (λ c. IsSound rest (next_entry fs resolved_path name held).1) [
            | inl hidden ↦ rw hidden s
            | inr shown ↦
                let grown = grow_array-IsSound held s in
                rw shown (
                  append_entry_block-IsSound (entry_of fs resolved_path name)
                    (grow_array memory held) grown.0 grown.1)
          ])
