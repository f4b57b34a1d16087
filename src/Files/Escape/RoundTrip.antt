-- ===== src/Files/Escape/RoundTrip.antt =====
-- The links of a directory listing lead back to the names that they stand for.
use final_system_progamming.Common.{
  ℕ, ◌+◌, ◌/◌, ◌^◌, ◌<◌, ◌≡◌, refl, sym, ap, ◌∙◌, Bool, true, false, not, ◌&&◌, [], ◌∷◌, ◌++◌,
  Option, none, some, arith, Bytes, All, ◌==◌, if◌then◌else◌, length, get_or, length-append,
  append_assoc, append-nil, bit_and, all_below, all_below_sound, Bool-cases, inl, inr,
}
use final_system_progamming.Files.Types.{ok}
use final_system_progamming.Files.Decode.{
  hex_value, hex_pair, decode_char, decode_loop, decode_path,
}
use final_system_progamming.Files.Decode.Laws.{IsPlain}
use final_system_progamming.Files.Escape.{hex, is_url_unreserved, url_escape_char, url_escape}

abbrev escaped_back : ℕ → Option (ℕ × ℕ)
escaped_back c =
    hex_pair (hex_value (get_or hex (c / 2 ^ 4) 0)) (hex_value (get_or hex (bit_and c 0x0f) 0))

abbrev reads_back : ℕ → Option (ℕ × ℕ) → Bool
reads_back c none = false
reads_back c (some (ch, skip)) = ch == c && skip == 2

abbrev is_kept : ℕ → Bool
is_kept c = not (c == b'%') && not (c == b'+')

decodes_back : ℕ → Bool
decodes_back c = if is_url_unreserved c then is_kept c else reads_back c (escaped_back c)

decode_table : all_below decodes_back 256 ≡ true
unfolding all_below decodes_back is_url_unreserved hex_value
decode_table = refl

reads_back-eq : (c : ℕ) (p : Option (ℕ × ℕ)) → reads_back c p ≡ true → p ≡ some (c, 2)
reads_back-eq c none h = cc
reads_back-eq c (some (ch, skip)) h = ground arith

-- One escaped byte is read as that byte, and the loop goes on behind it.
decode_loop-escape_char :
    (size c : ℕ) (tail output : Bytes)
    → c < 256
    → IsPlain c
    → length output + 1 < size
    → decode_loop size 0 (url_escape_char c ++ tail) output
      ≡ decode_loop size 0 tail (output ++ c ∷ [])
unfolding decode_loop decode_char url_escape_char decodes_back
decode_loop-escape_char size c tail output small p room =
    let t = all_below_sound decodes_back 256 c small decode_table in
    elim (Bool-cases (is_url_unreserved c)) [
      | inl keep ↦ ground (arith, t, keep)
      | inr escape ↦ ground (arith, t, escape, reads_back-eq c (escaped_back c))
    ]

abbrev IsName : Bytes → Type 0
IsName text = All (λ c. (c < 256) × IsPlain c) text

decode_loop-url_escape :
    (size : ℕ) (text behind output : Bytes)
    → IsName text
    → length output + length text < size
    → decode_loop size 0 (url_escape text ++ 0 ∷ behind) output ≡ ok (output ++ text)
unfolding url_escape
decode_loop-url_escape size [] behind output n h =
    unfold decode_loop in ap ok (sym (append-nil output))
decode_loop-url_escape size (c ∷ text) behind output n h =
    ap (λ t. decode_loop size 0 t output)
      (append_assoc (url_escape_char c) (url_escape text) (0 ∷ behind))
    ∙ decode_loop-escape_char size c (url_escape text ++ 0 ∷ behind) output n.0.0 n.0.1
        (omega arith)
    ∙ decode_loop-url_escape size text behind (output ++ c ∷ []) n.1
        (omega (arith, length-append output (c ∷ [])))
    ∙ ap ok (append_assoc output (c ∷ []) text)

-- A name of bytes other than NUL and backslash, escaped as a listing's links are, is decoded to
-- itself, if with its terminator it fits the output; what stands behind it in memory is ignored.
pub decode_path-url_escape :
    (size : ℕ) (text behind : Bytes)
    → All (λ c. (c < 256) × IsPlain c) text
    → length text < size
    → decode_path (url_escape text ++ 0 ∷ behind) size ≡ ok text
unfolding decode_path
decode_path-url_escape size text behind n h =
    ground (arith, decode_loop-url_escape size text behind [] n)
