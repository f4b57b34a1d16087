-- ===== src/Server/Read.antt =====
-- `find_header_end`, `extract_request_line` and `read_next_request` (src/server.c).
pub mod HeaderEnd
pub mod Stream
pub mod Sound
use mathlib.Core.Option
use final_system_progamming.Common.{
  ℕ, suc, ◌-◌, min, Bool, true, false, ◌&&◌, List, [], ◌∷◌, ◌++◌, Option, none, some, Bytes, leb,
  ◌==◌, if◌then◌else◌, length, take, drop,
}
use final_system_progamming.Http.Types.{HttpRequest, HttpParseResult, parse_ok, bad_request}
use final_system_progamming.Http.Scan.{find_crlf}
use final_system_progamming.Http.Request.{http_parse_request}
use final_system_progamming.Server.Socket.{Outcome, moves, interrupted, failed}

abbrev pub read_buffer_size : ℕ
read_buffer_size = 8192

-- The array `request_line` of `handle_client`.
abbrev pub request_line_size : ℕ
request_line_size = 256

abbrev pub at_header_end : Bytes → Bool
at_header_end (a ∷ b ∷ c ∷ d ∷ rest) = a == b'\r' && b == b'\n' && c == b'\r' && d == b'\n'
at_header_end _ = false

-- `none` is the result 0.
unfoldable pub find_header_end : Bytes → Option ℕ
find_header_end [] = none
find_header_end (a ∷ rest) =
    let later = find_header_end rest in
    if at_header_end (a ∷ rest) then some 4 else Option.map suc later

-- `line_len` before it is cut; the search for the line's end is the one of `find_crlf`.
abbrev line_length : Bytes → ℕ
line_length buffer = elim (find_crlf buffer) [ none ↦ length buffer | some line_end ↦ line_end ]

-- The text before the terminator that is written behind it.
unfoldable pub extract_request_line : Bytes → ℕ → Bytes
extract_request_line buffer size =
    let line_len = line_length buffer in
    take (if leb size line_len then size - 1 else line_len) buffer

-- The results 1, 0 and -1; with 1 go the request and its line.
pub data ReadResult : Type 0 where
  request : HttpRequest → Bytes → ReadResult
  end_of_stream invalid : ReadResult

-- The bytes in the buffer, those that the client sends and `recv` has not taken, and the outcomes
-- of the calls of `recv` to come.
pub record ReadState : Type 0 where
  pub buffered : Bytes
  pub incoming : Bytes
  pub receives : List Outcome

-- The block is parsed; the rest of the buffer moves to its front.
abbrev pub block_read : HttpParseResult HttpRequest → ℕ → Bytes → ReadResult × Bytes
block_read (parse_ok r) header_length buffer = (
  request r (extract_request_line (take header_length buffer) request_line_size),
  drop header_length buffer,
)
block_read bad_request header_length buffer = (invalid, buffer)

-- A header block of this length stands at the front of the buffer.
abbrev pub take_block : ℕ → Bytes → ReadResult × Bytes
take_block header_length buffer =
    block_read (http_parse_request (take header_length buffer)) header_length buffer

-- One round of the loop up to the call of `recv`; `none` goes on to it.
abbrev pub try_at : Option ℕ → Bytes → Option (ReadResult × Bytes)
try_at (some header_length) buffer = some (take_block header_length buffer)
try_at none buffer = if length buffer == read_buffer_size then some (invalid, buffer) else none

abbrev pub try_buffer : Bytes → Option (ReadResult × Bytes)
try_buffer buffer = try_at (find_header_end buffer) buffer

-- `recv` returned 0.
abbrev at_end : Bytes → ReadResult
at_end buffer = if length buffer == 0 then end_of_stream else invalid

-- The bytes that a call of `recv` takes.
abbrev pub taken_by : ℕ → Bytes → Bytes → ℕ
taken_by n incoming buffer = min n (min (read_buffer_size - length buffer) (length incoming))

abbrev state : Bytes → Bytes → List Outcome → ReadState
state buffer incoming receives = record {
  buffered = buffer;
  incoming = incoming;
  receives = receives;
}

abbrev pub ended : Bytes → Bytes → List Outcome → ReadResult × ReadState
ended buffer incoming receives = (at_end buffer, state buffer incoming receives)

-- The round returns, or goes on.
abbrev pub unless_stopped :
    Option (ReadResult × Bytes)
    → Bytes
    → List Outcome
    → ReadResult × ReadState
    → ReadResult × ReadState
unless_stopped (some (result, buffer)) incoming receives goes_on =
    (result, state buffer incoming receives)
unless_stopped none incoming receives goes_on = goes_on

-- The loop of `read_next_request`; its buffer is the bytes that it holds.
unfoldable pub read_next_request : List Outcome → Bytes → Bytes → ReadResult × ReadState
read_next_request [] incoming buffer =
    unless_stopped (try_buffer buffer) incoming [] (ended buffer incoming [])
read_next_request (interrupted ∷ receives) incoming buffer =
    unless_stopped (try_buffer buffer) incoming (interrupted ∷ receives)
      (read_next_request receives incoming buffer)
read_next_request (failed ∷ receives) incoming buffer =
    unless_stopped (try_buffer buffer) incoming (failed ∷ receives)
      (invalid, state buffer incoming receives)
read_next_request (moves n ∷ receives) incoming buffer =
    let k = taken_by n incoming buffer in
    let again = read_next_request receives (drop k incoming) (buffer ++ take k incoming) in
    unless_stopped (try_buffer buffer) incoming (moves n ∷ receives)
      (if k == 0 then ended buffer incoming receives else again)
