-- ===== src/Files/Path.antt =====
-- `contains_dot_dot_segment` and `path_has_prefix` (src/files.c), on C strings without their
-- terminator: reading one place behind the end reads 0.
pub mod Segments
pub mod Prefix
use final_system_progamming.Common.{
  ℕ, zero, suc, Bool, true, false, ◌&&◌, ◌||◌, [], ◌∷◌, Bytes, ◌==◌, if◌then◌else◌, length, get_or,
  drop,
}

-- `while (*p == '/') p++;`
unfoldable pub skip_slashes : Bytes → Bytes
skip_slashes [] = []
skip_slashes (c ∷ p) = let rest = skip_slashes p in if c == b'/' then rest else c ∷ p

-- `while (*p != '/' && *p != '\0') p++;`
skip_segment : Bytes → Bytes
skip_segment [] = []
skip_segment (c ∷ p) = let rest = skip_segment p in if c == b'/' || c == 0 then c ∷ p else rest

abbrev at_dot_dot : Bytes → Bool
at_dot_dot p =
    get_or p 0 0 == b'.' && get_or p 1 0 == b'.' && (get_or p 2 0 == b'/' || get_or p 2 0 == 0)

-- The loop; the fuel is the number of its tests.
dot_dot_from : ℕ → Bytes → Bool
dot_dot_from zero p = false
dot_dot_from (suc fuel) [] = false
dot_dot_from (suc fuel) (c ∷ p) =
    let segment = skip_slashes (c ∷ p) in
    let later = dot_dot_from fuel (skip_segment segment) in
    if c == 0 then false else if at_dot_dot segment then true else later

-- Each round passes over one byte at least.
unfoldable pub contains_dot_dot_segment : Bytes → Bool
unfolding skip_slashes skip_segment dot_dot_from
contains_dot_dot_segment path = dot_dot_from (suc (length path)) path

-- `strncmp(path, prefix, strlen(prefix)) == 0`
abbrev pub starts_with : Bytes → Bytes → Bool
starts_with path [] = true
starts_with [] (c ∷ prefix) = false
starts_with (p ∷ path) (c ∷ prefix) = p == c && starts_with path prefix

unfoldable pub path_has_prefix : Bytes → Bytes → Bool
path_has_prefix path prefix =
    let next = get_or path (length prefix) 0 in
    starts_with path prefix && (next == 0 || next == b'/')
