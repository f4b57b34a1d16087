-- ===== src/Tests/FilesTests.antt =====
-- Runs of the path and type functions, those of tests/unit_files.c among them, and their results
-- at an input.
use mathlib.Core.Path.{subst}
use final_system_progamming.Common.{
  ◌<◌, ◌≡◌, ◌≢◌, ◌↔◌, ◌⊎◌, refl, inl, inr, Bool-cases, false, [], ◌∷◌, ◌++◌, arith, Bytes, All,
  Avoids, codes, length, bytes_eq, if◌then◌else◌,
}
use final_system_progamming.Files.Types.{ok, forbidden, FileInfo, regular, file_path_max}
use final_system_progamming.Files.Decode.{hex_value, decode_path}
use final_system_progamming.Files.Decode.Memory.{decode_path-memory}
use final_system_progamming.Files.Escape.{url_escape, html_escape}
use final_system_progamming.Files.Escape.Html.{html_escape_safe}
use final_system_progamming.Files.Escape.RoundTrip.{decode_path-url_escape}
use final_system_progamming.Files.Mime.{octet_stream, file_mime_type}
use final_system_progamming.Files.Path.{contains_dot_dot_segment, path_has_prefix}
use final_system_progamming.Files.Path.Prefix.{path_has_prefix_root}
use final_system_progamming.Files.Resolve.{
  FileSystem, resolved, missing, is_regular, file_resolve_path, file_stat_path,
}
use final_system_progamming.Files.Resolve.Confined.{
  file_resolve_path_confined, file_resolve_path-dot_dot,
}

mime_types :
    (file_mime_type (codes "index.html") ≡ codes "text/html")
    × (file_mime_type (codes "archive.tar.gz") ≡ codes "application/gzip")
    × (file_mime_type (codes "unknown.bin") ≡ octet_stream)
    × (file_mime_type (codes "noextension") ≡ octet_stream)
unfolding file_mime_type
mime_types = (refl, refl, refl, refl)

link_text : url_escape (codes "space name #1.txt") ≡ codes "space%20name%20%231.txt"
unfolding url_escape
link_text = refl

-- A file system whose only names are the root and one file below it.
abbrev sample : FileSystem
sample = record {
  realpath = λ p.
      if bytes_eq p (codes "www")
      then resolved (codes "/srv/www")
      else if bytes_eq p (codes "www/a.txt")
      then resolved (codes "/srv/www/a.txt")
      else missing;
  stat = λ p. is_regular 6;
}

traversal_refused :
    (file_resolve_path sample (codes "www") (codes "/../etc/passwd\0") file_path_max ≡ forbidden)
    × (file_resolve_path sample (codes "www") (codes "/%2e%2e/etc/passwd\0") file_path_max
        ≡ forbidden)
unfolding file_resolve_path decode_path hex_value contains_dot_dot_segment
traversal_refused = (refl, refl)

abbrev a_txt : FileInfo
a_txt = record {
  resolved_path = codes "/srv/www/a.txt";
  kind = regular;
  size = 6;
  mime_type = codes "text/plain";
}

stat_file : file_stat_path sample (codes "www") (codes "//a%2Etxt\0") ≡ ok a_txt
unfolding file_stat_path file_resolve_path decode_path hex_value contains_dot_dot_segment
    path_has_prefix file_mime_type
stat_file = refl

sample-strings : (p q : Bytes) → sample.realpath p ≡ resolved q → Avoids 0 q
sample-strings p q h = elim (Bool-cases (bytes_eq p (codes "www"))) [
  | inl e ↦ subst (Avoids 0) {x = codes "/srv/www"} (ground (arith, h, e)) root_plain
  | inr ne ↦ elim (Bool-cases (bytes_eq p (codes "www/a.txt"))) [
    | inl e ↦ subst (Avoids 0) {x = codes "/srv/www/a.txt"} (ground (arith, h, ne, e)) file_plain
    | inr other ↦ absurd (ground (arith, h, ne, other))
  ]
]
  where
    root_plain : Avoids 0 (codes "/srv/www")
    root_plain = omega arith

    file_plain : Avoids 0 (codes "/srv/www/a.txt")
    file_plain = omega arith

a_txt_path :
    file_resolve_path sample (codes "www") (codes "/a.txt\0") 4096 ≡ ok (codes "/srv/www/a.txt")
unfolding file_resolve_path decode_path hex_value contains_dot_dot_segment path_has_prefix
a_txt_path = refl

file_resolve_path_confined_example :
    (root_real : Bytes) × (sample.realpath (codes "www") ≡ resolved root_real)
    × ((codes "/srv/www/a.txt" ≡ root_real)
        ⊎ ((rest : Bytes) × (codes "/srv/www/a.txt" ≡ root_real ++ b'/' ∷ rest)))
    × ((joined : Bytes) × (sample.realpath joined ≡ resolved (codes "/srv/www/a.txt")))
    × (length (codes "/srv/www/a.txt") < 4096)
file_resolve_path_confined_example =
    file_resolve_path_confined sample (codes "www") (codes "/a.txt\0") 4096 sample-strings
      a_txt_path

dot_dot_decoded : decode_path (codes "/%2e%2e/x\0") file_path_max ≡ ok (codes "/../x")
unfolding decode_path hex_value
dot_dot_decoded = refl

file_resolve_path-dot_dot_example :
    file_resolve_path sample (codes "www") (codes "/%2e%2e/x\0") 4096 ≡ forbidden
file_resolve_path-dot_dot_example =
    file_resolve_path-dot_dot sample (codes "www") (codes "/%2e%2e/x\0") 4096 (omega arith)
      dot_dot_decoded refl

decode_path-memory_example : decode_path (codes "/a%\0xy") 16 ≡ decode_path (codes "/a%\0") 16
decode_path-memory_example = decode_path-memory (codes "xy") [] (codes "/a%") 16

html_escape_safe_example :
    All (λ c. (c ≢ b'<') × (c ≢ b'>') × (c ≢ b'"')) (html_escape (codes "<a>"))
    × ((html_escape (codes "<a>") ≡ html_escape (codes "&lt;a>"))
        ↔ ◌≡◌ {A = Bytes} (codes "<a>") (codes "&lt;a>"))
html_escape_safe_example = html_escape_safe (codes "<a>") (codes "&lt;a>")

decode_path-url_escape_example :
    decode_path (url_escape (codes "a b%") ++ codes "\0") 8 ≡ ok (codes "a b%")
decode_path-url_escape_example =
    decode_path-url_escape 8 (codes "a b%") [] (omega arith) (omega arith)

path_has_prefix_root_example : path_has_prefix (codes "/etc") (codes "/") ≡ false
path_has_prefix_root_example = path_has_prefix_root b'e' (codes "tc") (omega arith) (omega arith)
