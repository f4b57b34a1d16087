-- ===== src/Files/Listing/Heap.antt =====
-- The blocks of memory of `append_directory_entry`, `duplicate_string` and
-- `free_directory_entries` (src/files.c). A block is a number: `malloc` and `realloc` hand out the
-- next one, and a `realloc` that succeeds gives the old block back.
use final_system_progamming.Common.{
  ℕ, suc, ◌+◌, ◌*◌, ◌%◌, Bool, true, false, not, List, [], ◌∷◌, ◌++◌, Option, none, some, Bytes,
  ltb, ◌==◌, if◌then◌else◌, length, size_mod,
}
use final_system_progamming.Files.Resolve.{FileSystem}
use final_system_progamming.Files.Listing.{
  Memory, DirectoryEntry, Entries, entry_size, larger, entry_of, is_hidden,
}

-- The next block to be handed out, and the blocks that were freed, in order.
pub record Heap : Type 0 where
  pub next : ℕ
  pub freed : List ℕ

abbrev pub taken : Heap → Heap
taken heap = record heap { next = suc heap.next }

-- `free`, which does nothing with a null pointer.
abbrev pub free : Option ℕ → Heap → Heap
free none heap = heap
free (some block) heap = record heap { freed = heap.freed ++ block ∷ [] }

-- The array of entries with the blocks of the array and of the names.
pub record EntryBlocks : Type 0 where
  pub entries : Entries
  pub array_at : Option ℕ
  pub names_at : List ℕ
  pub heap : Heap

-- The array once it has room for one entry more, and whether it has.
unfoldable pub grow_array : Memory → EntryBlocks → Bool × EntryBlocks
grow_array memory held =
    let new_capacity = larger held.entries.capacity in
    if not (length held.entries.list == held.entries.capacity)
    then (true, held)
    else if ltb new_capacity held.entries.capacity
    then (false, held)
    else if memory.realloc_entries (length held.entries.list) (new_capacity * entry_size % size_mod)
    then (
      true,
      record held {
        entries = record held.entries { capacity = new_capacity };
        array_at = some held.heap.next;
        heap = free held.array_at (taken held.heap);
      },
    )
    else (false, held)

-- The block of the copy, and the heap behind the call.
abbrev pub duplicate_string : (ℕ → Bool) → Bytes → Heap → Option ℕ × Heap
duplicate_string malloc text heap =
    if malloc (length text + 1) then (some heap.next, taken heap) else (none, heap)

abbrev pub set_name : DirectoryEntry → EntryBlocks → Option ℕ × Heap → Bool × EntryBlocks
set_name entry held (none, heap) = (false, record held { heap = heap })
set_name entry held (some block, heap) = (
  true,
  record held {
    entries = record held.entries { list = held.entries.list ++ entry ∷ [] };
    names_at = held.names_at ++ block ∷ [];
    heap = heap;
  },
)

unfoldable pub append_entry_block :
    Memory → DirectoryEntry → Bool × EntryBlocks → Bool × EntryBlocks
append_entry_block memory entry (false, held) = (false, held)
append_entry_block memory entry (true, held) =
    set_name entry held
      (duplicate_string (memory.malloc (length held.entries.list)) entry.name held.heap)

-- The loop over the names that `readdir` gives.
unfoldable pub read_entry_blocks :
    FileSystem → Bytes → Memory → List Bytes → Bool × EntryBlocks → Bool × EntryBlocks
unfolding append_entry_block grow_array
read_entry_blocks fs resolved_path memory names (false, held) = (false, held)
read_entry_blocks fs resolved_path memory [] (true, held) = (true, held)
read_entry_blocks fs resolved_path memory (name ∷ names) (true, held) =
    read_entry_blocks fs resolved_path memory names (
      if is_hidden name
      then (true, held)
      else append_entry_block memory (entry_of fs resolved_path name) (grow_array memory held))

abbrev pub free_names : List ℕ → Heap → Heap
free_names [] heap = heap
free_names (block ∷ names) heap = free_names names (free (some block) heap)

-- Nothing is freed, the names neither, if the array is the null pointer.
abbrev pub free_directory_entries : Option ℕ → List ℕ → Heap → Heap
free_directory_entries none names_at heap = heap
free_directory_entries (some array) names_at heap = free (some array) (free_names names_at heap)
