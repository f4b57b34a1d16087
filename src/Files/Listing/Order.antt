-- ===== src/Files/Listing/Order.antt =====
-- A listing does not depend on the order in which `readdir` gives the names.
use mathlib.Core.Logic.{∥∥₁_elim}
use mathlib.Core.List.{Perm, Permᴰ}
use final_system_progamming.Common.{
  ◌≡◌, ◌⊎◌, refl, sym, ap, ap₂, ◌∙◌, true, List, [], ◌∷◌, some, arith, Bytes, if◌then◌else◌,
  Bool-cases, inl, inr,
}
use final_system_progamming.Files.Types.{ok}
use final_system_progamming.Files.Resolve.{FileSystem}
use final_system_progamming.Files.Builder.{StringBuilder}
use final_system_progamming.Files.Builder.Appends.{text_of}
use final_system_progamming.Files.Listing.{
  DirectoryEntry, Memory, entry_of, is_hidden, name_le, insert, qsort, file_build_directory_listing,
}
use final_system_progamming.Files.Listing.Text.{page_text}
use final_system_progamming.Files.Listing.Page.{listed, file_build_directory_listing-page}

name_le_total : (a b : Bytes) → (name_le a b ≡ true) ⊎ (name_le b a ≡ true)
name_le_total [] b = inl refl
name_le_total (x ∷ a) [] = inr refl
name_le_total (x ∷ a) (y ∷ b) = ground (arith, name_le_total a b)

name_le_antisymm : (a b : Bytes) → name_le a b ≡ true → name_le b a ≡ true → a ≡ b
name_le_antisymm [] [] h k = refl
name_le_antisymm [] (y ∷ b) h k = cc
name_le_antisymm (x ∷ a) [] h k = cc
name_le_antisymm (x ∷ a) (y ∷ b) h k = ground (arith, name_le_antisymm a b)

name_le_trans : (a b c : Bytes) → name_le a b ≡ true → name_le b c ≡ true → name_le a c ≡ true
name_le_trans [] b c h k = refl
name_le_trans (x ∷ a) [] c h k = cc
name_le_trans (x ∷ a) (y ∷ b) [] h k = cc
name_le_trans (x ∷ a) (y ∷ b) (z ∷ c) h k = ground (arith, name_le_trans a b c)

-- Two insertions commute, where entries of one name are one entry.
insert_comm :
    (e f : DirectoryEntry) (rest : List DirectoryEntry)
    → (e.name ≡ f.name → e ≡ f)
    → insert e (insert f rest) ≡ insert f (insert e rest)
insert_comm e f [] one =
    ground (arith, one, name_le_total e.name f.name, name_le_antisymm e.name f.name)
insert_comm e f (x ∷ rest) one = ground (
  arith,
  one,
  insert_comm e f rest one,
  name_le_total e.name f.name,
  name_le_antisymm e.name f.name,
  name_le_trans e.name f.name x.name,
  name_le_trans f.name e.name x.name,
)

module _ (fs : FileSystem) (resolved_path : Bytes) where
  -- The entries that a name adds to the sorted ones of the other names.
  abbrev with_name : Bytes → List DirectoryEntry → List DirectoryEntry
  with_name name rest =
      if is_hidden name then rest else insert (entry_of fs resolved_path name) rest

  abbrev shown : List Bytes → List DirectoryEntry
  shown names = qsort (listed fs resolved_path names)

  shown-cons :
      (name : Bytes) (names : List Bytes) → shown (name ∷ names) ≡ with_name name (shown names)
  unfolding qsort
  shown-cons name names = elim (Bool-cases (is_hidden name)) [
    | inl hidden ↦ rw hidden refl
    | inr visible ↦ rw visible refl
  ]

  with_name_comm :
      (a b : Bytes) (rest : List DirectoryEntry)
      → with_name a (with_name b rest) ≡ with_name b (with_name a rest)
  with_name_comm a b rest = ground (
    arith,
    insert_comm (entry_of fs resolved_path a) (entry_of fs resolved_path b) rest
        (λ same. ap (entry_of fs resolved_path) same),
  )

  shown-Permᴰ : {names names' : List Bytes} → Permᴰ names names' → shown names ≡ shown names'
  shown-Permᴰ Permᴰ.nil = refl
  shown-Permᴰ (Permᴰ.cons {a = a} {b = b} {l₁ = xs} {l₂ = ys} e d) =
      shown-cons a xs ∙ ap₂ with_name e (shown-Permᴰ d) ∙ sym (shown-cons b ys)
  shown-Permᴰ (Permᴰ.swap {a = a} {b = b} {a' = a'} {b' = b'} {l = l} e f) =
      twice a b l
      ∙ with_name_comm a b (shown l)
      ∙ sym (twice b a l)
      ∙ ap₂ (λ x y. shown (x ∷ y ∷ l)) f e
    where
      twice :
          (x y : Bytes) (l : List Bytes) → shown (x ∷ y ∷ l) ≡ with_name x (with_name y (shown l))
      twice x y l = shown-cons x (y ∷ l) ∙ ap (with_name x) (shown-cons y l)
  shown-Permᴰ (Permᴰ.trans d d') = shown-Permᴰ d ∙ shown-Permᴰ d'

  text-Perm :
      (request_path : Bytes) {names names' : List Bytes}
      → Perm names names'
      → page_text request_path (shown names) ≡ page_text request_path (shown names')
  text-Perm request_path p = ∥∥₁_elim p (hlevel) (λ d. ap (page_text request_path) (shown-Permᴰ d))

  -- A listing does not depend on the order in which `readdir` gives the names: two listings of one
  -- directory that are handed over, with the names in any two orders and whatever memory is
  -- granted, have the same text, since the entries are sorted first.
  pub file_build_directory_listing-order :
      (memory memory' : Memory) (request_path : Bytes) {names names' : List Bytes}
      {body body' : StringBuilder}
      → Perm names names'
      → file_build_directory_listing fs memory request_path resolved_path (some names) ≡ ok body
      → file_build_directory_listing fs memory' request_path resolved_path (some names') ≡ ok body'
      → text_of body ≡ text_of body'
  file_build_directory_listing-order memory memory' request_path {names} {names'} p h h' =
      let page = file_build_directory_listing-page fs memory request_path resolved_path names h in
      let page' =
        file_build_directory_listing-page fs memory' request_path resolved_path names' h' in
      page.1 ∙ text-Perm request_path p ∙ sym page'.1
