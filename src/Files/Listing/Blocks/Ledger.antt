-- ===== src/Files/Listing/Blocks/Ledger.antt =====
-- Blocks of memory that are freed once (src/files.c).
use final_system_progamming.Common.{
  ℕ, ◌+◌, ◌≡◌, Bool, true, false, List, [], ◌∷◌, ◌++◌, Option, none, some, arith, count,
  count-append, ltb, if◌then◌else◌,
}
use final_system_progamming.Files.Listing.Heap.{Heap, taken, free, free_names}

-- The blocks behind a pointer that may be null.
abbrev pub owned : Option ℕ → List ℕ
owned none = []
owned (some block) = block ∷ []

abbrev pub has_block : Option ℕ → Bool
has_block none = false
has_block (some block) = true

-- Each block handed out was freed or is live, once; none else is.
abbrev pub IsBalanced : Heap → List ℕ → Type 0
IsBalanced heap live =
    (block : ℕ) → count block heap.freed + count block live ≡ (if ltb block heap.next then 1 else 0)

pub IsBalanced-taken :
    (heap : Heap) (live : List ℕ)
    → IsBalanced heap live
    → IsBalanced (taken heap) (heap.next ∷ live)
IsBalanced-taken heap live h block = grind (arith, h block)

pub IsBalanced-free :
    (p : Option ℕ) (heap : Heap) (live : List ℕ)
    → IsBalanced heap (owned p ++ live)
    → IsBalanced (free p heap) live
IsBalanced-free none heap live h block = h block
IsBalanced-free (some b) heap live h block =
    omega (arith, h block, count-append block heap.freed (b ∷ []))

-- A `realloc` of a block that may be null.
pub IsBalanced-realloc :
    (p : Option ℕ) (heap : Heap) (live : List ℕ)
    → IsBalanced heap (owned p ++ live)
    → IsBalanced (free p (taken heap)) (heap.next ∷ live)
IsBalanced-realloc p heap live h = IsBalanced-free p (taken heap) (heap.next ∷ live) (λ block.
    omega (
      arith,
      IsBalanced-taken heap (owned p ++ live) h block,
      count-append block (owned p) live,
      count-append block (owned p) (heap.next ∷ live),
    ))

pub IsBalanced-free_names :
    (names : List ℕ) (heap : Heap) (live : List ℕ)
    → IsBalanced heap (names ++ live)
    → IsBalanced (free_names names heap) live
IsBalanced-free_names [] heap live h = h
IsBalanced-free_names (b ∷ names) heap live h =
    IsBalanced-free_names names (free (some b) heap) live
      (IsBalanced-free (some b) heap (names ++ live) h)
