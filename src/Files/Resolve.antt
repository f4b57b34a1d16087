-- ===== src/Files/Resolve.antt =====
-- `file_resolve_path` and `file_stat_path` (src/files.c). The file system is a parameter: what
-- `realpath` and `stat` answer for a C string.
pub mod Confined
use final_system_progamming.Common.{
  ℕ, Bool, true, false, [], ◌∷◌, ◌++◌, Bytes, codes, leb, ◌==◌, if◌then◌else◌, length,
}
use final_system_progamming.Files.Types.{
  FileResult, ok, not_found, forbidden, error, FileKind, regular, directory, FileInfo,
  file_path_max,
}
use final_system_progamming.Files.Decode.{decode_path}
use final_system_progamming.Files.Path.{skip_slashes, contains_dot_dot_segment, path_has_prefix}
use final_system_progamming.Files.Mime.{file_mime_type}

-- A failure is `missing` where `errno` is ENOENT or ENOTDIR.
pub data RealPath : Type 0 where
  resolved : Bytes → RealPath
  missing failed : RealPath

-- What S_ISDIR and S_ISREG say of the mode, with `st_size`.
pub data Stat : Type 0 where
  is_directory : Stat
  is_regular : ℕ → Stat
  is_other : Stat
  stat_missing stat_failed : Stat

pub record FileSystem : Type 0 where
  pub realpath : Bytes → RealPath
  pub stat : Bytes → Stat

-- The last two tests, on the two canonical paths.
abbrev check_target : Bytes → Bytes → ℕ → FileResult Bytes
check_target root_real target_real resolved_size =
    if path_has_prefix target_real root_real
    then (if leb resolved_size (length target_real) then error else ok target_real)
    else forbidden

abbrev resolve_target : Bytes → RealPath → ℕ → FileResult Bytes
resolve_target root_real (resolved target_real) resolved_size =
    check_target root_real target_real resolved_size
resolve_target root_real missing resolved_size = not_found
resolve_target root_real failed resolved_size = error

-- The file system's part: `doc_root`, and `joined`.
abbrev resolve_joined : FileSystem → Bytes → Bytes → ℕ → FileResult Bytes
resolve_joined fs doc_root joined resolved_size =
    if leb file_path_max (length joined) then error else elim (fs.realpath doc_root) [
      | resolved root_real ↦ resolve_target root_real (fs.realpath joined) resolved_size
      | missing ↦ error
      | failed ↦ error
    ]

abbrev resolve_decoded : FileSystem → Bytes → FileResult Bytes → ℕ → FileResult Bytes
resolve_decoded fs doc_root (ok decoded) resolved_size =
    if contains_dot_dot_segment decoded
    then forbidden
    else resolve_joined fs doc_root (doc_root ++ b'/' ∷ skip_slashes decoded) resolved_size
resolve_decoded fs doc_root not_found resolved_size = not_found
resolve_decoded fs doc_root forbidden resolved_size = forbidden
resolve_decoded fs doc_root error resolved_size = error

-- `doc_root` is a C string without its terminator, `request_path` the memory that holds one.
unfoldable pub file_resolve_path : FileSystem → Bytes → Bytes → ℕ → FileResult Bytes
file_resolve_path fs doc_root request_path resolved_size =
    if resolved_size == 0
    then error
    else resolve_decoded fs doc_root (decode_path request_path file_path_max) resolved_size

abbrev describe : Bytes → Stat → FileResult FileInfo
describe path is_directory =
    ok (record { resolved_path = path; kind = directory; size = 0; mime_type = codes "text/html" })
describe path (is_regular size) =
    ok (record {
      resolved_path = path;
      kind = regular;
      size = size;
      mime_type = file_mime_type path;
    })
describe path is_other = forbidden
describe path stat_missing = not_found
describe path stat_failed = error

abbrev stat_resolved : FileSystem → FileResult Bytes → FileResult FileInfo
stat_resolved fs (ok path) = describe path (fs.stat path)
stat_resolved fs not_found = not_found
stat_resolved fs forbidden = forbidden
stat_resolved fs error = error

unfoldable pub file_stat_path : FileSystem → Bytes → Bytes → FileResult FileInfo
file_stat_path fs doc_root request_path =
    stat_resolved fs (file_resolve_path fs doc_root request_path file_path_max)
