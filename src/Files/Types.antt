-- ===== src/Files/Types.antt =====
-- The types of include/files.h, and the errors that a library call reports.
use final_system_progamming.Common.{ℕ, Bytes}

-- `file_result_t`, with what is handed over on success.
pub data FileResult {ℓ} (A : Type ℓ) : Type ℓ where
  ok : A → FileResult A
  not_found forbidden error : FileResult A

pub data FileKind : Type 0 where
  regular directory : FileKind

-- `file_info_t`; its strings are C strings.
pub record FileInfo : Type 0 where
  pub resolved_path : Bytes
  pub kind : FileKind
  pub size : ℕ
  pub mime_type : Bytes

abbrev pub file_path_max : ℕ
file_path_max = 4096
