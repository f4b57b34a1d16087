-- ===== src/Files/Escape.antt =====
-- `is_url_unreserved`, and what `builder_append_url_escaped` and `builder_append_html_escaped`
-- append for each byte (src/files.c).
pub mod RoundTrip
pub mod Html
use final_system_progamming.Common.{
  ℕ, ◌/◌, ◌^◌, bit_and, Bool, ◌||◌, [], ◌∷◌, ◌++◌, Bytes, codes, ◌==◌, if◌then◌else◌, get_or,
  isalnum,
}

unfoldable pub is_url_unreserved : ℕ → Bool
is_url_unreserved ch = isalnum ch || ch == b'-' || ch == b'.' || ch == b'_' || ch == b'~'

abbrev hex : Bytes
hex = codes "0123456789ABCDEF"

unfoldable pub url_escape_char : ℕ → Bytes
unfolding is_url_unreserved
url_escape_char p =
    if is_url_unreserved p
    then p ∷ []
    else b'%' ∷ get_or hex (p / 2 ^ 4) 0 ∷ get_or hex (bit_and p 0x0f) 0 ∷ []

-- All that is appended for a C string.
unfoldable pub url_escape : Bytes → Bytes
unfolding url_escape_char
url_escape [] = []
url_escape (p ∷ text) = url_escape_char p ++ url_escape text

unfoldable pub html_escape_char : ℕ → Bytes
html_escape_char p =
    if p == b'&'
    then codes "&amp;"
    else if p == b'<'
    then codes "&lt;"
    else if p == b'>'
    then codes "&gt;"
    else if p == b'"'
    then codes "&quot;"
    else p ∷ []

unfoldable pub html_escape : Bytes → Bytes
unfolding html_escape_char
html_escape [] = []
html_escape (p ∷ text) = html_escape_char p ++ html_escape text
