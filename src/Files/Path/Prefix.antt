-- ===== src/Files/Path/Prefix.antt =====
-- What `path_has_prefix` accepts.
use mathlib.Core.Path.{subst}
use final_system_progamming.Common.{
  ℕ, ◌≡◌, ◌≢◌, ◌↔◌, ◌⊎◌, inl, inr, refl, sym, ap₂, true, false, [], ◌∷◌, ◌++◌, arith, Bytes, Avoids,
  codes,
}
use final_system_progamming.Files.Path.{path_has_prefix}

-- The directory itself, or a path below it.
abbrev pub IsWithin : Bytes → Bytes → Type 0
IsWithin path root = (path ≡ root) ⊎ ((rest : Bytes) × (path ≡ root ++ b'/' ∷ rest))

within :
    (path prefix : Bytes)
    → Avoids 0 path
    → path_has_prefix path prefix ≡ true
    → IsWithin path prefix
unfolding path_has_prefix
within [] [] a h = inl refl
within (p ∷ path) [] a h = inr (path, ground (arith, a.0))
within [] (c ∷ prefix) a h = cc
within (p ∷ path) (c ∷ prefix) a h =
    let same : p ≡ c = ground (arith, h) in
    elim (within path prefix a.1 (ground (arith, h))) [
      | inl e ↦ inl (ap₂ (λ x xs. x ∷ xs) same e)
      | inr (rest, e) ↦ inr (rest, ap₂ (λ x xs. x ∷ xs) same e)
    ]

accepts_self : (prefix : Bytes) → path_has_prefix prefix prefix ≡ true
unfolding path_has_prefix
accepts_self [] = refl
accepts_self (c ∷ prefix) = ground (arith, accepts_self prefix)

accepts_below : (prefix rest : Bytes) → path_has_prefix (prefix ++ b'/' ∷ rest) prefix ≡ true
unfolding path_has_prefix
accepts_below [] rest = refl
accepts_below (c ∷ prefix) rest = ground (arith, accepts_below prefix rest)

accepts : (path prefix : Bytes) → IsWithin path prefix → path_has_prefix path prefix ≡ true
accepts path prefix (inl e) =
    subst (λ p. path_has_prefix p prefix ≡ true) (sym e) (accepts_self prefix)
accepts path prefix (inr (rest, e)) =
    subst (λ p. path_has_prefix p prefix ≡ true) (sym e) (accepts_below prefix rest)

-- A C string is accepted exactly when it is the prefix itself, or the prefix, a slash and any
-- rest: a name that merely begins with the prefix, as `/srv/www2` with `/srv/www`, is not.
pub path_has_prefix_iff :
    (path prefix : Bytes)
    → Avoids 0 path
    → (path_has_prefix path prefix ≡ true)
      ↔ ((path ≡ prefix) ⊎ ((rest : Bytes) × (path ≡ prefix ++ b'/' ∷ rest)))
path_has_prefix_iff path prefix a = (within path prefix a, accepts path prefix)

-- With `/` as document root every path below it is refused: the slash of the root is not followed
-- by another. This holds of every path whose second byte is no slash.
pub path_has_prefix_root :
    (c : ℕ) (path : Bytes)
    → c ≢ 0
    → c ≢ b'/'
    → path_has_prefix (b'/' ∷ c ∷ path) (codes "/") ≡ false
unfolding path_has_prefix
path_has_prefix_root c path h k = ground arith
