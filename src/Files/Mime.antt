-- ===== src/Files/Mime.antt =====
-- `file_mime_type` (src/files.c).
pub mod Extensions
pub mod Plain
use Prim.Native.String.{String}
use final_system_progamming.Common.{
  ℕ, Bool, List, [], ◌∷◌, Option, none, some, Bytes, codes, bytes_eq, ◌==◌, if◌then◌else◌,
}

-- The C string from its last `c` on.
abbrev pub strrchr : ℕ → Bytes → Option Bytes
strrchr c [] = none
strrchr c (x ∷ text) = elim (strrchr c text) [
  | some last ↦ some last
  | none ↦ if x == c then some (x ∷ text) else none
]

abbrev row : String → String → Bytes × Bytes
row extension mime = (codes extension, codes mime)

-- The tests of the function, in their order; two tests of one `if` are two rows.
abbrev pub mime_table : List (Bytes × Bytes)
mime_table =
    row ".html" "text/html"
    ∷ row ".htm" "text/html"
    ∷ row ".txt" "text/plain"
    ∷ row ".css" "text/css"
    ∷ row ".csv" "text/csv"
    ∷ row ".xml" "application/xml"
    ∷ row ".yaml" "text/yaml"
    ∷ row ".yml" "text/yaml"
    ∷ row ".js" "application/javascript"
    ∷ row ".mjs" "application/javascript"
    ∷ row ".json" "application/json"
    ∷ row ".png" "image/png"
    ∷ row ".jpg" "image/jpeg"
    ∷ row ".jpeg" "image/jpeg"
    ∷ row ".gif" "image/gif"
    ∷ row ".svg" "image/svg+xml"
    ∷ row ".svgz" "image/svg+xml"
    ∷ row ".ico" "image/x-icon"
    ∷ row ".bmp" "image/bmp"
    ∷ row ".webp" "image/webp"
    ∷ row ".pdf" "application/pdf"
    ∷ row ".zip" "application/zip"
    ∷ row ".tar" "application/x-tar"
    ∷ row ".gz" "application/gzip"
    ∷ row ".7z" "application/x-7z-compressed"
    ∷ row ".woff" "font/woff"
    ∷ row ".woff2" "font/woff2"
    ∷ row ".ttf" "font/ttf"
    ∷ row ".otf" "font/otf"
    ∷ row ".eot" "application/vnd.ms-fontobject"
    ∷ row ".wasm" "application/wasm"
    ∷ row ".xslt" "application/xslt+xml"
    ∷ row ".mp4" "video/mp4"
    ∷ row ".webm" "video/webm"
    ∷ row ".ts" "video/mp2t"
    ∷ row ".mp3" "audio/mpeg"
    ∷ row ".ogg" "audio/ogg"
    ∷ row ".wav" "audio/wav"
    ∷ row ".doc" "application/msword"
    ∷ row ".docx" "application/vnd.openxmlformats-officedocument.wordprocessingml.document"
    ∷ row ".xls" "application/vnd.ms-excel"
    ∷ row ".xlsx" "application/vnd.openxmlformats-officedocument.spreadsheetml.sheet"
    ∷ row ".ppt" "application/vnd.ms-powerpoint"
    ∷ row ".pptx" "application/vnd.openxmlformats-officedocument.presentationml.presentation"
    ∷ row ".sh" "application/x-sh"
    ∷ row ".c" "text/x-c"
    ∷ row ".h" "text/x-chdr"
    ∷ row ".md" "text/markdown"
    ∷ []

abbrev pub octet_stream : Bytes
octet_stream = codes "application/octet-stream"

-- The first row whose extension is equal.
abbrev pub type_of : List (Bytes × Bytes) → Bytes → Bytes
type_of [] extension = octet_stream
type_of ((e, mime) ∷ more) extension = if bytes_eq extension e then mime else type_of more extension

unfoldable pub file_mime_type : Bytes → Bytes
file_mime_type path = elim (strrchr b'.' path) [
  | none ↦ octet_stream
  | some extension ↦ type_of mime_table extension
]
