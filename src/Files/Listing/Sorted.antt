-- ===== src/Files/Listing/Sorted.antt =====
-- What a listing shows, said without the functions that filter and sort (src/files.c).
use mathlib.Core.List.Perm
use mathlib.Core.List.{Perm}
use final_system_progamming.Common.{
  ◌≡◌, ◌⊎◌, ◌<◌, refl, ap, Bool, true, false, List, [], ◌∷◌, Bytes, ◌==◌, arith, if◌then◌else◌,
  Bool-cases, inl, inr, some,
}
use final_system_progamming.Files.Types.{ok}
use final_system_progamming.Files.Resolve.{FileSystem}
use final_system_progamming.Files.Builder.{StringBuilder}
use final_system_progamming.Files.Builder.Appends.{IsBuilder, text_of}
use final_system_progamming.Files.Listing.Text.{page_text}
use final_system_progamming.Files.Listing.{
  DirectoryEntry, Memory, entry_of, name_le, insert, qsort, file_build_directory_listing,
}
use final_system_progamming.Files.Listing.Page.{listed, file_build_directory_listing-page}

abbrev pub has_dot_first : Bytes → Bool
has_dot_first [] = false
has_dot_first (c ∷ name) = c == b'.'

-- An entry for each name without a dot in front.
abbrev pub visible : FileSystem → Bytes → List Bytes → List DirectoryEntry
visible fs resolved_path [] = []
visible fs resolved_path (name ∷ names) =
    let rest = visible fs resolved_path names in
    if has_dot_first name then rest else entry_of fs resolved_path name ∷ rest

-- The order of `strcmp`: a prefix comes first, else the first byte that differs decides.
abbrev pub IsUpTo : Bytes → Bytes → Type 0
IsUpTo [] right = Unit
IsUpTo (l ∷ left) [] = ⊥
IsUpTo (l ∷ left) (r ∷ right) = (l < r) ⊎ ((l ≡ r) × IsUpTo left right)

abbrev pub IsAscending : List DirectoryEntry → Type 0
IsAscending [] = Unit
IsAscending (e ∷ []) = Unit
IsAscending (e ∷ f ∷ rest) = IsUpTo e.name f.name × IsAscending (f ∷ rest)

listed-visible :
    (fs : FileSystem) (resolved_path : Bytes) (names : List Bytes)
    → listed fs resolved_path names ≡ visible fs resolved_path names
listed-visible fs resolved_path [] = refl
listed-visible fs resolved_path ([] ∷ names) =
    ap (λ rest. entry_of fs resolved_path [] ∷ rest) (listed-visible fs resolved_path names)
listed-visible fs resolved_path ((c ∷ name) ∷ names) =
    ap (λ rest. if c == b'.' then rest else entry_of fs resolved_path (c ∷ name) ∷ rest)
      (listed-visible fs resolved_path names)

name_le-IsUpTo : (left right : Bytes) → name_le left right ≡ true → IsUpTo left right
name_le-IsUpTo [] right h = tt
name_le-IsUpTo (l ∷ left) [] h = absurd (ground (arith, h))
name_le-IsUpTo (l ∷ left) (r ∷ right) h = elim (Bool-cases (l == r)) [
  | inl same ↦ inr (ground (arith, same), name_le-IsUpTo left right (rw same at h))
  | inr other ↦ inl (ground (arith, other, h))
]

name_le-swapped : (left right : Bytes) → name_le left right ≡ false → IsUpTo right left
name_le-swapped [] right h = absurd (ground (arith, h))
name_le-swapped (l ∷ left) [] h = tt
name_le-swapped (l ∷ left) (r ∷ right) h = elim (Bool-cases (l == r)) [
  | inl same ↦ inr (ground (arith, same), name_le-swapped left right (rw same at h))
  | inr other ↦ inl (ground (arith, other, h))
]

insert-Perm : (e : DirectoryEntry) (es : List DirectoryEntry) → Perm (insert e es) (e ∷ es)
insert-Perm e [] = Perm.rfl
insert-Perm e (f ∷ rest) = elim (Bool-cases (name_le e.name f.name)) [
  | inl le ↦ rw le Perm.rfl
  | inr gt ↦ rw gt (Perm.trans (Perm.cons f (insert-Perm e rest)) (Perm.swap e f rest))
]

qsort-Perm : (es : List DirectoryEntry) → Perm (qsort es) es
unfolding qsort
qsort-Perm [] = Perm.rfl
qsort-Perm (e ∷ es) = Perm.trans (insert-Perm e (qsort es)) (Perm.cons e (qsort-Perm es))

-- What stands behind `f` still does once `e` is inserted there.
insert-behind :
    (f e : DirectoryEntry) (es : List DirectoryEntry)
    → IsUpTo f.name e.name
    → IsAscending (f ∷ es)
    → IsAscending (f ∷ insert e es)
insert-behind f e [] h a = (h, tt)
insert-behind f e (g ∷ rest) h a = elim (Bool-cases (name_le e.name g.name)) [
  | inl le ↦ rw le (h, (name_le-IsUpTo e.name g.name le, a.1))
  | inr gt ↦ rw gt (a.0, insert-behind g e rest (name_le-swapped e.name g.name gt) a.1)
]

insert-IsAscending :
    (e : DirectoryEntry) (es : List DirectoryEntry) → IsAscending es → IsAscending (insert e es)
insert-IsAscending e [] a = tt
insert-IsAscending e (f ∷ rest) a = elim (Bool-cases (name_le e.name f.name)) [
  | inl le ↦ rw le (name_le-IsUpTo e.name f.name le, a)
  | inr gt ↦ rw gt (insert-behind f e rest (name_le-swapped e.name f.name gt) a)
]

qsort-IsAscending : (es : List DirectoryEntry) → IsAscending (qsort es)
unfolding qsort
qsort-IsAscending [] = tt
qsort-IsAscending (e ∷ es) = insert-IsAscending e (qsort es) (qsort-IsAscending es)

-- A listing that is handed over, of a directory with these names: its builder is in order, and its
-- text is that of the page for the entries whose names do not begin with a dot, each as often as
-- `readdir` gave it, in the byte order of their names, directories among files: the fixed parts,
-- the path and the names as `html_escape` shows them, and the links as `url_escape` writes them.
-- No append is lost, whatever memory is refused.
pub file_build_directory_listing-sorted :
    (fs : FileSystem) (memory : Memory) (request_path resolved_path : Bytes) (names : List Bytes)
    {body : StringBuilder}
    → file_build_directory_listing fs memory request_path resolved_path (some names) ≡ ok body
    → IsBuilder body
      × ((es : List DirectoryEntry) × (text_of body ≡ page_text request_path es)
          × Perm es (visible fs resolved_path names)
          × IsAscending es)
file_build_directory_listing-sorted fs memory request_path resolved_path names h =
    let page = file_build_directory_listing-page fs memory request_path resolved_path names h in
    let es = listed fs resolved_path names in
    (
      page.0,
      (
        qsort es,
        page.1,
        rw (← listed-visible fs resolved_path names) (qsort-Perm es),
        qsort-IsAscending es,
      ),
    )
