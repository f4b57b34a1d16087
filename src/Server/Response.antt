-- ===== src/Server/Response.antt =====
-- The responses of src/server.c: `send_simple_response`, `send_range_not_satisfiable`,
-- `send_file_response` and `send_directory_response`. A response's head is the list of its lines.
pub mod Framing
pub mod Delivered
pub mod Heads
pub mod Bodies
pub mod Bodiless
use final_system_progamming.Common.{
  ℕ, zero, suc, ◌-◌, min, Bool, true, false, not, List, [], ◌∷◌, ◌++◌, Option, none, some, Bytes,
  codes, leb, ◌==◌, if◌then◌else◌, length, take, drop, decimal,
}
use final_system_progamming.Http.Types.{
  HttpRequest, HttpMethod, head, HttpVersion, http_10, http_11, unknown,
}
use final_system_progamming.Http.Request.{http_status_text}
use final_system_progamming.Files.Types.{FileResult, ok, not_found, forbidden, error, FileInfo}
use final_system_progamming.Server.Socket.{Outcome, Sent, sent_rest, send_all}
use final_system_progamming.Server.Read.{read_buffer_size}
use final_system_progamming.Server.Range.{ByteRange, resolve_range}

abbrev pub response_buffer_size : ℕ
response_buffer_size = 8192

-- `response_result_t`
pub record ResponseResult : Type 0 where
  pub status_code : ℕ
  pub body_bytes : ℕ

-- What went out, the outcomes left, and the result; `none` is -1, which leaves `*result` as it
-- was.
pub record Reply : Type 0 where
  pub bytes : Bytes
  pub sends : List Outcome
  pub result : Option ResponseResult

abbrev pub crlf : Bytes
crlf = codes "\r\n"

-- Each line with its end, and the empty line.
abbrev pub header_block : List Bytes → Bytes
header_block [] = crlf
header_block (line ∷ lines) = line ++ (crlf ++ header_block lines)

abbrev version_text_of : HttpVersion → Bytes
version_text_of http_10 = codes "HTTP/1.0"
version_text_of _ = codes "HTTP/1.1"

-- A request that is `none` is the null pointer.
unfoldable pub response_version : Option HttpRequest → Bytes
response_version none = codes "HTTP/1.1"
response_version (some request) = version_text_of request.version

abbrev is_head : HttpMethod → Bool
is_head head = true
is_head _ = false

-- `send_body`
abbrev pub wants_body : Option HttpRequest → Bool
wants_body none = true
wants_body (some request) = not (is_head request.method)

abbrev pub connection_line : Bool → Bytes
connection_line keep_alive =
    codes "Connection: " ++ (if keep_alive then codes "keep-alive" else codes "close")

abbrev pub status_line : Option HttpRequest → ℕ → Bytes
status_line request status =
    response_version request ++ b' ' ∷ (decimal status ++ b' ' ∷ http_status_text status)

abbrev pub length_line : ℕ → Bytes
length_line n = codes "Content-Length: " ++ decimal n

abbrev pub type_line : Bytes → Bytes
type_line mime_type = codes "Content-Type: " ++ mime_type

-- A second text follows where the first went out as a whole.
abbrev pub send_then : Sent → (List Outcome → Sent) → Sent
send_then first next = if first.done then sent_rest first.bytes (next first.sends) else first

abbrev reply : Sent → ℕ → ℕ → Reply
reply sent status body_bytes = record {
  bytes = sent.bytes;
  sends = sent.sends;
  result =
      if sent.done then some (record { status_code = status; body_bytes = body_bytes }) else none;
}

-- The head is refused where it does not fit its array, else sent, and what follows it.
abbrev pub respond : List Outcome → Bytes → (List Outcome → Sent) → ℕ → ℕ → Reply
respond sends headers body status body_bytes =
    if leb response_buffer_size (length headers)
    then record { bytes = []; sends = sends; result = none }
    else reply (send_then (send_all sends headers) body) status body_bytes

-- The body of a short response, which `HEAD` does without.
abbrev pub body_for : Option HttpRequest → Bytes → Bytes
body_for request body = if wants_body request then body else []

abbrev pub simple_lines : Option HttpRequest → ℕ → ℕ → Bool → List Bytes
simple_lines request status body_len keep_alive =
    status_line request status
    ∷ type_line (codes "text/plain")
    ∷ length_line body_len
    ∷ connection_line keep_alive
    ∷ []

unfoldable pub send_simple_response : List Outcome → Option HttpRequest → ℕ → Bytes → Bool → Reply
send_simple_response sends request status body keep_alive =
    respond sends (header_block (simple_lines request status (length body) keep_alive))
      (λ sends'. send_all sends' (body_for request body)) status (length (body_for request body))

abbrev pub unsatisfiable_body : Bytes
unsatisfiable_body = codes "Range Not Satisfiable\n"

abbrev pub unsatisfiable_lines : Option HttpRequest → ℕ → Bool → List Bytes
unsatisfiable_lines request file_size keep_alive =
    status_line request 416
    ∷ type_line (codes "text/plain")
    ∷ length_line (length unsatisfiable_body)
    ∷ (codes "Content-Range: bytes */" ++ decimal file_size)
    ∷ connection_line keep_alive
    ∷ []

unfoldable pub send_range_not_satisfiable : List Outcome → Option HttpRequest → ℕ → Bool → Reply
send_range_not_satisfiable sends request file_size keep_alive =
    respond sends (header_block (unsatisfiable_lines request file_size keep_alive))
      (λ sends'. send_all sends' (body_for request unsatisfiable_body)) 416
      (length (body_for request unsatisfiable_body))

-- What `fopen` gives: the bytes that `fread` will find, up to the end or a read error, and whether
-- `fseeko` succeeds.
pub record File : Type 0 where
  pub contents : Bytes
  pub seekable : Bool

-- The loop that copies the file; the bytes are those behind the position. Each round takes a byte
-- at least off `remaining`, which is the fuel it starts with.
unfoldable pub copy_file : ℕ → ℕ → Bytes → List Outcome → Sent
copy_file zero remaining contents sends = record {
  done = remaining == 0;
  bytes = [];
  sends = sends;
}
copy_file (suc fuel) remaining contents sends =
    let want = min remaining read_buffer_size in
    let got = take want contents in
    let later = copy_file fuel (remaining - length got) (drop want contents) in
    if remaining == 0
    then record { done = true; bytes = []; sends = sends }
    else if length got == 0
    then record { done = false; bytes = []; sends = sends }
    else send_then (send_all sends got) later

abbrev pub file_lines : HttpRequest → FileInfo → ByteRange → Bool → List Bytes
file_lines request info range keep_alive =
    if range.partial
    then status_line (some request) 206
      ∷ type_line info.mime_type
      ∷ length_line range.length
      ∷ (codes "Content-Range: bytes "
          ++ decimal range.start
          ++ b'-' ∷ (decimal range.end ++ b'/' ∷ decimal info.size))
      ∷ codes "Accept-Ranges: bytes"
      ∷ connection_line keep_alive
      ∷ []
    else status_line (some request) 200
      ∷ type_line info.mime_type
      ∷ length_line info.size
      ∷ codes "Accept-Ranges: bytes"
      ∷ connection_line keep_alive
      ∷ []

abbrev file_error : List Outcome → HttpRequest → Reply
file_error sends request =
    send_simple_response sends (some request) 500 (codes "Internal Server Error\n") false

-- The bytes of a file from a position on, which is not moved for a whole file.
abbrev pub from_range : ByteRange → Bytes → Bytes
from_range range contents = if range.partial then drop range.start contents else contents

-- The file is open and the range resolved.
abbrev pub send_range :
    List Outcome → HttpRequest → FileInfo → File → Bool → Option ByteRange → Reply
send_range sends request info file keep_alive none =
    send_range_not_satisfiable sends (some request) info.size keep_alive
send_range sends request info file keep_alive (some range) =
    let head_only = not (wants_body (some request)) in
    if (if range.partial then not file.seekable else false)
    then file_error sends request
    else respond sends (header_block (file_lines request info range keep_alive))
        (if head_only
          then (λ sends'. send_all sends' [])
          else copy_file range.length range.length (from_range range file.contents))
        (if range.partial then 206 else 200) (if head_only then 0 else range.length)

-- `none` is a failed `fopen`.
unfoldable pub send_file_response :
    List Outcome → HttpRequest → FileInfo → Option File → Bool → Reply
send_file_response sends request info none keep_alive = file_error sends request
send_file_response sends request info (some file) keep_alive =
    send_range sends request info file keep_alive (resolve_range request info.size)

abbrev pub listing_lines : HttpRequest → ℕ → Bool → List Bytes
listing_lines request body_len keep_alive =
    status_line (some request) 200
    ∷ type_line (codes "text/html")
    ∷ length_line body_len
    ∷ connection_line keep_alive
    ∷ []

-- The listing is what `file_build_directory_listing` hands over.
unfoldable pub send_directory_response :
    List Outcome → HttpRequest → FileResult Bytes → Bool → Reply
send_directory_response sends request (ok body) keep_alive =
    respond sends (header_block (listing_lines request (length body) keep_alive))
      (λ sends'. send_all sends' (body_for (some request) body)) 200
      (length (body_for (some request) body))
send_directory_response sends request _ keep_alive = file_error sends request
