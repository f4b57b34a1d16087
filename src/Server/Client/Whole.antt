-- ===== src/Server/Client/Whole.antt =====
-- The first read of a stream as a function of its bytes.
pub mod Reads
use final_system_progamming.Common.{
  ℕ, zero, suc, ◌-◌, ◌≡◌, ◌≤◌, ◌<◌, refl, sym, ap, ◌∙◌, Bool, true, false, List, [], ◌∷◌, ◌++◌,
  append-nil, arith, Bytes, Option, none, some, ◌==◌, if◌then◌else◌, length, take, drop,
  length-take, length-drop, length-append, take-append_le, take-all, ==_iff, Bool-cases,
  Option-cases, inl, inr, ltb,
}
use final_system_progamming.Http.Types.{HttpRequest, HttpParseResult, parse_ok, bad_request}
use final_system_progamming.Http.Request.{http_parse_request}
use final_system_progamming.Server.Socket.{Outcome, moves, interrupted, failed}
use final_system_progamming.Server.Socket.Delivery.{willing}
use final_system_progamming.Server.Read.{
  ReadResult, request, end_of_stream, invalid, ReadState, find_header_end, request_line_size,
  block_read, take_block, unless_stopped, try_buffer, read_next_request, read_buffer_size, taken_by,
  ended,
}
use final_system_progamming.Server.Read.HeaderEnd.{
  find_header_end-le, find_header_end-append, extract_request_line-append,
}
use final_system_progamming.Server.Read.Stream.{received, take_block-append}
use final_system_progamming.Server.Client.{invalid_line}

-- The first read of a stream, as if all of it that fits were in the buffer at once.
abbrev pub first_at : Option ℕ → Bytes → ReadResult × Bytes
first_at (some n) stream = take_block n stream
first_at none stream = (if length stream == 0 then end_of_stream else invalid, stream)

abbrev pub first_read : Bytes → ReadResult × Bytes
first_read stream = first_at (find_header_end (take read_buffer_size stream)) stream

abbrev pub never_fails : List Outcome → Bool
never_fails [] = true
never_fails (failed ∷ receives) = false
never_fails (interrupted ∷ receives) = never_fails receives
never_fails (moves n ∷ receives) = never_fails receives

-- The calls of `recv` can bring all the bytes, in pieces of any size, and none fails.
abbrev pub Delivers : List Outcome → Bytes → Type 0
Delivers receives incoming = (never_fails receives ≡ true) × (length incoming ≤ willing receives)

-- The line that is logged for a request that is refused.
abbrev pub SameLine : Bytes → ReadResult → Bytes → Type 0
SameLine stream invalid buffered =
    invalid_line buffered ≡ invalid_line (take read_buffer_size stream)
SameLine stream _ buffered = Unit

abbrev IsWhole : Bytes → ReadResult × ReadState → Type 0
IsWhole stream (result, reads) =
    (result ≡ (first_read stream).0)
    × (reads.buffered ++ reads.incoming ≡ (first_read stream).1)
    × SameLine stream result reads.buffered
    × Delivers reads.receives reads.incoming

invalid_line-append :
    (buffer more : Bytes) {n : ℕ}
    → find_header_end buffer ≡ some n
    → invalid_line buffer ≡ invalid_line (buffer ++ more)
invalid_line-append buffer more {n} e =
    let le = find_header_end-le buffer n e in
    let size = length-append buffer more in
    let here : ltb 0 (length buffer) ≡ true = ground (arith, le) in
    let there : ltb 0 (length (buffer ++ more)) ≡ true = ground (arith, le, size) in
    rw (here, there) (extract_request_line-append buffer more request_line_size e)

-- The block at the front of the buffer is the first of the stream.
first_read-block :
    (buffer incoming : Bytes) (n : ℕ)
    → length buffer ≤ read_buffer_size
    → find_header_end buffer ≡ some n
    → first_read (buffer ++ incoming) ≡ take_block n (buffer ++ incoming)
first_read-block buffer incoming n h e =
    let front = take-append_le read_buffer_size buffer incoming h in
    let found =
      find_header_end-append buffer (take (read_buffer_size - length buffer) incoming) n e in
    ap (λ o. first_at o (buffer ++ incoming)) (ap find_header_end front ∙ found)

block_read-SameLine :
    (parsed : HttpParseResult HttpRequest) (n : ℕ) (buffer stream : Bytes)
    → invalid_line buffer ≡ invalid_line (take read_buffer_size stream)
    → SameLine stream (block_read parsed n buffer).0 (block_read parsed n buffer).1
block_read-SameLine (parse_ok r) n buffer stream e = tt
block_read-SameLine bad_request n buffer stream e = e

SameLine-all :
    (stream buffered : Bytes) (result : ReadResult)
    → invalid_line buffered ≡ invalid_line (take read_buffer_size stream)
    → SameLine stream result buffered
SameLine-all stream buffered invalid e = e
SameLine-all stream buffered end_of_stream e = tt
SameLine-all stream buffered (request r line) e = tt

module _ (incoming buffer : Bytes) (receives : List Outcome) (h : length buffer ≤ read_buffer_size)
    (d : Delivers receives incoming) where
  block-IsWhole :
      (n : ℕ)
      → find_header_end buffer ≡ some n
      → (goes_on : ReadResult × ReadState)
      → IsWhole
          (buffer ++ incoming)
          (unless_stopped (some (take_block n buffer)) incoming receives goes_on)
  block-IsWhole n e goes_on =
      let le = (find_header_end-le buffer n e).1 in
      let t = take_block-append n buffer incoming le in
      let first = first_read-block buffer incoming n h e in
      let front = take-append_le read_buffer_size buffer incoming h in
      let line = invalid_line-append buffer (take (read_buffer_size - length buffer) incoming) e in
      (
        sym (ap (λ b. b.0) first ∙ t.0),
        sym (ap (λ b. b.1) first ∙ t.1),
        block_read-SameLine (http_parse_request (take n buffer)) n buffer (buffer ++ incoming)
            (line ∙ ap invalid_line (sym front)),
        d,
      )

  -- No block ends in what fits the buffer, which is in it.
  none-IsWhole :
      (result : ReadResult)
      → result ≡ (if length (buffer ++ incoming) == 0 then end_of_stream else invalid)
      → take read_buffer_size (buffer ++ incoming) ≡ buffer
      → find_header_end buffer ≡ none
      → IsWhole
          (buffer ++ incoming)
          (result, record { buffered = buffer; incoming = incoming; receives = receives })
  none-IsWhole result is all missing =
      let first = ap (λ o. first_at o (buffer ++ incoming)) (ap find_header_end all ∙ missing) in
      (
        is ∙ sym (ap (λ b. b.0) first),
        sym (ap (λ b. b.1) first),
        SameLine-all (buffer ++ incoming) buffer result (ap invalid_line (sym all)),
        d,
      )

  full-IsWhole :
      length buffer ≡ read_buffer_size
      → find_header_end buffer ≡ none
      → IsWhole
          (buffer ++ incoming)
          (invalid, record { buffered = buffer; incoming = incoming; receives = receives })
  full-IsWhole full missing =
      let long : (length (buffer ++ incoming) == 0) ≡ false =
        ground (arith, full, length-append buffer incoming) in
      let no_room : take (read_buffer_size - length buffer) incoming ≡ [] =
        let none_left : read_buffer_size - length buffer ≡ 0 = omega (arith, full) in
        ap (λ k. take k incoming) none_left in
      none-IsWhole invalid (rw long refl)
        (take-append_le read_buffer_size buffer incoming h
          ∙ ap (λ xs. buffer ++ xs) no_room
          ∙ append-nil buffer)
        missing

  ended-IsWhole :
      incoming ≡ []
      → find_header_end buffer ≡ none
      → IsWhole (buffer ++ incoming) (ended buffer incoming receives)
  ended-IsWhole nothing missing =
      let same : buffer ++ incoming ≡ buffer =
        ap (λ xs. buffer ++ xs) nothing ∙ append-nil buffer in
      none-IsWhole (ended buffer incoming receives).0 (rw same refl)
        (ap (take read_buffer_size) same ∙ take-all read_buffer_size buffer h) missing

  unless_stopped-IsWhole :
      (goes_on : ReadResult × ReadState)
      → (find_header_end buffer ≡ none
          → length buffer < read_buffer_size
          → IsWhole (buffer ++ incoming) goes_on)
      → IsWhole (buffer ++ incoming) (unless_stopped (try_buffer buffer) incoming receives goes_on)
  unless_stopped-IsWhole goes_on later = elim (Option-cases (find_header_end buffer)) [
    | inr (n, e) ↦ rw e (block-IsWhole n e goes_on)
    | inl missing ↦ elim (Bool-cases (length buffer == read_buffer_size)) [
      | inl full ↦
          rw (missing, full)
            (full-IsWhole ((==_iff (length buffer) read_buffer_size).0 full) missing)
      | inr room ↦ rw (missing, room) (later missing (ground (arith, room, h)))
    ]
  ]
