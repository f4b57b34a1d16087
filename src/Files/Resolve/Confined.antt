-- ===== src/Files/Resolve/Confined.antt =====
-- No request gets a file outside the document root.
use mathlib.Core.Path.{subst}
use final_system_progamming.Common.{
  ℕ, ◌≡◌, ◌<◌, ◌⊎◌, refl, ap, ◌∙◌, All, true, false, [], ◌∷◌, ◌++◌, arith, Bytes, Avoids, codes,
  leb, ◌==◌, length, Bool-cases, inl, inr,
}
use final_system_progamming.Files.Types.{
  FileInfo, FileResult, ok, forbidden, error, not_found, file_path_max,
}
use final_system_progamming.Files.Decode.{decode_path}
use final_system_progamming.Files.Decode.Laws.{IsPlain, decode_path-IsPlain}
use final_system_progamming.Files.Path.{skip_slashes, contains_dot_dot_segment, path_has_prefix}
use final_system_progamming.Files.Path.Prefix.{path_has_prefix_iff}
use final_system_progamming.Files.Path.Segments.{
  segments, has_segment, contains_dot_dot_segment-segments,
}
use final_system_progamming.Files.Resolve.{
  Stat, is_directory, is_regular, is_other, stat_missing, stat_failed, describe, stat_resolved,
  file_stat_path, FileSystem, RealPath, resolved, missing, failed, resolve_target, resolve_joined,
  resolve_decoded, file_resolve_path,
}

-- What an accepted path has gone through.
record Passed (fs : FileSystem) (doc_root : Bytes) (path : Bytes) (size : ℕ) : Type 0 where
  root_real : Bytes
  root_is : fs.realpath doc_root ≡ resolved root_real
  prefixed : path_has_prefix path root_real ≡ true
  fits : length path < size
  joined : Bytes
  target_is : fs.realpath joined ≡ resolved path

module _ (fs : FileSystem) (doc_root : Bytes) (size : ℕ) {path : Bytes} where
  target-Passed :
      (root_real joined : Bytes) (target : RealPath)
      → fs.realpath doc_root ≡ resolved root_real
      → fs.realpath joined ≡ target
      → resolve_target root_real target size ≡ ok path
      → Passed fs doc_root path size
  target-Passed root_real joined (resolved target_real) r t h =
      let same : target_real ≡ path = ground (arith, h) in
      record {
        root_real = root_real;
        root_is = r;
        prefixed = subst (λ p. path_has_prefix p root_real ≡ true) same (ground (arith, h));
        fits = subst (λ p. length p < size) same (ground (arith, h));
        joined = joined;
        target_is = t ∙ ap resolved same;
      }
  target-Passed root_real joined missing r t h = cc
  target-Passed root_real joined failed r t h = cc

  root-Passed :
      (joined : Bytes) (root : RealPath)
      → fs.realpath doc_root ≡ root
      → elim root [
        | resolved root_real ↦ resolve_target root_real (fs.realpath joined) size
        | missing ↦ error
        | failed ↦ error
      ]
        ≡ ok path
      → Passed fs doc_root path size
  root-Passed joined (resolved root_real) r h =
      target-Passed root_real joined (fs.realpath joined) r refl h
  root-Passed joined missing r h = cc
  root-Passed joined failed r h = cc

  joined-Passed :
      (joined : Bytes)
      → resolve_joined fs doc_root joined size ≡ ok path
      → Passed fs doc_root path size
  joined-Passed joined h = elim (Bool-cases (leb file_path_max (length joined))) [
    | inl long ↦ absurd (ground (arith, long, h))
    | inr fits ↦ root-Passed joined (fs.realpath doc_root) refl (rw fits at h)
  ]

  decoded-Passed :
      (decoded : FileResult Bytes)
      → resolve_decoded fs doc_root decoded size ≡ ok path
      → Passed fs doc_root path size
  decoded-Passed (ok decoded) h = elim (Bool-cases (contains_dot_dot_segment decoded)) [
    | inl up ↦ absurd (ground (arith, up, h))
    | inr plain ↦ joined-Passed (doc_root ++ b'/' ∷ skip_slashes decoded) (rw plain at h)
  ]
  decoded-Passed not_found h = cc
  decoded-Passed forbidden h = cc
  decoded-Passed error h = cc

  file_resolve_path-Passed :
      (request_path : Bytes)
      → file_resolve_path fs doc_root request_path size ≡ ok path
      → Passed fs doc_root path size
  unfolding file_resolve_path
  file_resolve_path-Passed request_path h = elim (Bool-cases (size == 0)) [
    | inl e ↦ absurd (ground (arith, e, h))
    | inr ne ↦ decoded-Passed (decode_path request_path file_path_max) (rw ne at h)
  ]

-- Whatever the request asks for, and whatever links the file system has: a path that is handed out
-- is the canonical document root or lies below it, is itself the canonical form of some path, and
-- fits the caller's array. It rests on `realpath` returning C strings only.
pub file_resolve_path_confined :
    (fs : FileSystem) (doc_root request_path : Bytes) (size : ℕ) {path : Bytes}
    → ((p q : Bytes) → fs.realpath p ≡ resolved q → Avoids 0 q)
    → file_resolve_path fs doc_root request_path size ≡ ok path
    → (root_real : Bytes) × (fs.realpath doc_root ≡ resolved root_real)
      × ((path ≡ root_real) ⊎ ((rest : Bytes) × (path ≡ root_real ++ b'/' ∷ rest)))
      × ((joined : Bytes) × (fs.realpath joined ≡ resolved path))
      × (length path < size)
file_resolve_path_confined fs doc_root request_path size {path} strings h =
    let p = file_resolve_path-Passed fs doc_root size request_path h in
    (
      p.root_real,
      p.root_is,
      (path_has_prefix_iff path p.root_real (strings p.joined path p.target_is)).0 p.prefixed,
      (p.joined, p.target_is),
      p.fits,
    )

-- The canonical document root, or a path below it.
abbrev pub IsBelow : FileSystem → Bytes → Bytes → Type 0
IsBelow fs doc_root path =
    (root_real : Bytes) × (fs.realpath doc_root ≡ resolved root_real)
    × ((path ≡ root_real) ⊎ ((rest : Bytes) × (path ≡ root_real ++ b'/' ∷ rest)))

describe-path :
    (path : Bytes) (stat : Stat) {info : FileInfo}
    → describe path stat ≡ ok info
    → info.resolved_path ≡ path
describe-path path is_directory h = ground (arith, h)
describe-path path (is_regular size) h = ground (arith, h)
describe-path path is_other h = cc
describe-path path stat_missing h = cc
describe-path path stat_failed h = cc

module _ (fs : FileSystem) (doc_root : Bytes)
    (strings : (p q : Bytes) → fs.realpath p ≡ resolved q → Avoids 0 q) where
  resolved-IsBelow :
      (request_path : Bytes) (result : FileResult Bytes) {info : FileInfo}
      → file_resolve_path fs doc_root request_path file_path_max ≡ result
      → stat_resolved fs result ≡ ok info
      → IsBelow fs doc_root info.resolved_path
  resolved-IsBelow request_path (ok path) e h =
      let (root_real, is_root, below, _, _) =
        file_resolve_path_confined fs doc_root request_path file_path_max strings e in
      rw (describe-path path (fs.stat path) h) (root_real, is_root, below)
  resolved-IsBelow request_path not_found e h = cc
  resolved-IsBelow request_path forbidden e h = cc
  resolved-IsBelow request_path error e h = cc

  pub file_stat_path-IsBelow :
      (request_path : Bytes) {info : FileInfo}
      → file_stat_path fs doc_root request_path ≡ ok info
      → IsBelow fs doc_root info.resolved_path
  unfolding file_stat_path
  file_stat_path-IsBelow request_path h = resolved-IsBelow request_path _ refl h

plain-Avoids : (text : Bytes) → All IsPlain text → Avoids 0 text
plain-Avoids [] a = tt
plain-Avoids (c ∷ text) a = (a.0.0, plain-Avoids text a.1)

-- A request whose decoded path has a `..` among its segments, however it was escaped, is refused
-- as forbidden before the file system is asked: this holds of every file system and document root.
pub file_resolve_path-dot_dot :
    (fs : FileSystem) (doc_root request_path : Bytes) (size : ℕ) {decoded : Bytes}
    → 0 < size
    → decode_path request_path file_path_max ≡ ok decoded
    → has_segment (codes "..") (segments decoded) ≡ true
    → file_resolve_path fs doc_root request_path size ≡ forbidden
unfolding file_resolve_path
file_resolve_path-dot_dot fs doc_root request_path size {decoded} pos d up =
    let plain = plain-Avoids decoded (decode_path-IsPlain request_path file_path_max d).0 in
    let found = contains_dot_dot_segment-segments decoded plain ∙ up in
    let sized : (size == 0) ≡ false = ground arith in rw (sized, d, found)
