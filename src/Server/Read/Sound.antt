-- ===== src/Server/Read/Sound.antt =====
-- Whatever the socket does, what `read_next_request` returns is explained by the client's bytes.
use final_system_progamming.Common.{
  ℕ, ◌≡◌, ◌≤◌, refl, sym, ap, ◌∙◌, List, [], ◌∷◌, ◌++◌, arith, Bytes, some, ◌==◌, length, take,
  drop, length-take, length-drop, length-append, length-nil, drop-append, take-append, Bool-cases,
  Option-cases, inl, inr,
}
use final_system_progamming.Http.Types.{HttpRequest, HttpParseResult, parse_ok, bad_request}
use final_system_progamming.Http.Request.{http_parse_request}
use final_system_progamming.Server.Socket.{Outcome, moves, interrupted, failed}
use final_system_progamming.Server.Read.{
  ReadResult, request, end_of_stream, invalid, ReadState, find_header_end, extract_request_line,
  request_line_size, block_read, unless_stopped, try_buffer, read_next_request, read_buffer_size,
  taken_by, ended,
}
use final_system_progamming.Server.Read.HeaderEnd.{find_header_end-le, find_header_end-append}
use final_system_progamming.Server.Read.Stream.{received}

-- The request is the first header block of the stream, which fits the buffer.
pub record IsFirst (stream : Bytes) (r : HttpRequest) (line rest : Bytes) : Type 0 where
  pub size : ℕ
  pub ends : find_header_end stream ≡ some size
  pub fits : size ≤ read_buffer_size
  pub parses : http_parse_request (take size stream) ≡ parse_ok r
  pub is_line : extract_request_line (take size stream) request_line_size ≡ line
  pub is_rest : drop size stream ≡ rest

-- What each result says of the stream, given what is then left of it.
abbrev pub Explains : Bytes → ReadResult → ReadState → Type 0
Explains stream (request r line) reads = IsFirst stream r line (reads.buffered ++ reads.incoming)
Explains stream end_of_stream reads = (reads.buffered ≡ []) × (reads.incoming ≡ stream)
Explains stream invalid reads = reads.buffered ++ reads.incoming ≡ stream

abbrev Explained : Bytes → ReadResult × ReadState → Type 0
Explained stream (result, reads) =
    Explains stream result reads × (length reads.buffered ≤ read_buffer_size)

block_read-Explained :
    (parsed : HttpParseResult HttpRequest) (n : ℕ) (incoming buffer : Bytes)
    (receives : List Outcome) (goes_on : ReadResult × ReadState)
    → http_parse_request (take n buffer) ≡ parsed
    → find_header_end buffer ≡ some n
    → length buffer ≤ read_buffer_size
    → Explained
        (buffer ++ incoming)
        (unless_stopped (some (block_read parsed n buffer)) incoming receives goes_on)
block_read-Explained (parse_ok r) n incoming buffer receives goes_on p e h =
    let le = (find_header_end-le buffer n e).1 in
    let front = take-append n buffer incoming le in
    (
      record {
        size = n;
        ends = find_header_end-append buffer incoming n e;
        fits = omega (arith, le, h);
        parses = ap http_parse_request front ∙ p;
        is_line = ap (λ block. extract_request_line block request_line_size) front;
        is_rest = drop-append n buffer incoming le;
      },
      omega (arith, h, length-drop n buffer),
    )
block_read-Explained bad_request n incoming buffer receives goes_on p e h = (refl, h)

unless_stopped-Explained :
    (incoming buffer : Bytes) (receives : List Outcome) (goes_on : ReadResult × ReadState)
    → length buffer ≤ read_buffer_size
    → Explained (buffer ++ incoming) goes_on
    → Explained (buffer ++ incoming) (unless_stopped (try_buffer buffer) incoming receives goes_on)
unless_stopped-Explained incoming buffer receives goes_on h later =
    elim (Option-cases (find_header_end buffer)) [
      | inl missing ↦ elim (Bool-cases (length buffer == read_buffer_size)) [
        | inl full ↦ rw (missing, full) (refl, h)
        | inr room ↦ rw (missing, room) later
      ]
      | inr (n, e) ↦ rw e (
          block_read-Explained (http_parse_request (take n buffer)) n incoming buffer receives
            goes_on refl e h)
    ]

ended-Explained :
    (incoming buffer : Bytes) (receives : List Outcome)
    → length buffer ≤ read_buffer_size
    → Explained (buffer ++ incoming) (ended buffer incoming receives)
ended-Explained incoming buffer receives h = elim (Bool-cases (length buffer == 0)) [
  | inl nothing ↦
      let e = length-nil buffer nothing in rw nothing ((e, ap (λ xs. xs ++ incoming) (sym e)), h)
  | inr some_left ↦ rw some_left (refl, h)
]

-- Whatever the calls of `recv` do, `read_next_request` returns a request only if it is the first
-- header block of the client's stream and that block fits the buffer of 8192 bytes: it is the
-- parse of that block, with its line for the log, and the rest of the stream is left. Where it
-- fails, nothing is taken off the stream, and the end of the stream is reported only with nothing
-- in the buffer. What is in the buffer never exceeds it.
pub read_next_request-Explains :
    (receives : List Outcome) (incoming buffer : Bytes)
    → length buffer ≤ read_buffer_size
    → let (result, reads) = read_next_request receives incoming buffer in
      Explains (buffer ++ incoming) result reads × (length reads.buffered ≤ read_buffer_size)
unfolding read_next_request
read_next_request-Explains [] incoming buffer h =
    unless_stopped-Explained incoming buffer [] _ h (ended-Explained incoming buffer [] h)
read_next_request-Explains (interrupted ∷ receives) incoming buffer h =
    unless_stopped-Explained incoming buffer (interrupted ∷ receives) _ h
      (read_next_request-Explains receives incoming buffer h)
read_next_request-Explains (failed ∷ receives) incoming buffer h =
    unless_stopped-Explained incoming buffer (failed ∷ receives) _ h (refl, h)
read_next_request-Explains (moves n ∷ receives) incoming buffer h =
    let k = taken_by n incoming buffer in
    unless_stopped-Explained incoming buffer (moves n ∷ receives) _ h (elim (Bool-cases (k == 0)) [
      | inl nothing ↦ rw nothing (ended-Explained incoming buffer receives h)
      | inr some_come ↦
          let again =
            read_next_request-Explains receives (drop k incoming) (buffer ++ take k incoming)
              (omega (arith, h, length-append buffer (take k incoming), length-take k incoming)) in
          rw some_come (rw (received k incoming buffer) at again)
    ])
