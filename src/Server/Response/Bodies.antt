-- ===== src/Server/Response/Bodies.antt =====
-- What a client reads of a response: its head, and behind it the bytes of the file.
use final_system_progamming.Common.{
  ℕ, ◌+◌, ◌≡◌, ◌≤◌, ◌<◌, if◌then◌else◌, refl, ap, ◌∙◌, Bool, true, false, not, List, ◌++◌, arith,
  Bytes, Option, some, length, take, drop, length-drop, length-take, Bool-cases, inl, inr, Avoids,
  size_max,
}
use final_system_progamming.Http.Types.{HttpRequest}
use final_system_progamming.Files.Types.{FileInfo}
use final_system_progamming.Files.Mime.{file_mime_type}
use final_system_progamming.Files.Mime.Plain.{file_mime_type-Avoids}
use final_system_progamming.Server.Socket.{Outcome, send_all}
use final_system_progamming.Server.Socket.Delivery.{willing, send_all-willing}
use final_system_progamming.Server.Read.{find_header_end}
use final_system_progamming.Server.Range.{ByteRange, resolve_range}
use final_system_progamming.Server.Response.{
  header_block, file_lines, simple_lines, wants_body, body_for, copy_file, File, from_range,
  response_buffer_size, send_file_response, send_simple_response,
}
use final_system_progamming.Server.Response.Framing.{header_block-ends}
use final_system_progamming.Server.Response.Delivered.{respond-Puts, copy_file-Puts}
use final_system_progamming.Server.Response.Heads.{
  file_lines-AllHeaderLines, simple_lines-AllHeaderLines,
}

resolve_range-whole :
    (request : HttpRequest) (size : ℕ) {range : ByteRange}
    → resolve_range request size ≡ some range
    → (range.partial ≡ false)
    → (range.start ≡ 0) × (range.length ≡ size)
unfolding resolve_range
resolve_range-whole request size h w = ground (arith, h, w)

-- Whatever the request says, a range that is resolved lies in the file.
resolve_range-within :
    (request : HttpRequest) (size : ℕ) {range : ByteRange}
    → size ≤ size_max
    → resolve_range request size ≡ some range
    → range.start + range.length ≤ size
unfolding resolve_range
resolve_range-within request size fits h = ground arith

body_for-le :
    (request : Option HttpRequest) (body : Bytes) → length (body_for request body) ≤ length body
body_for-le request body = ground arith

-- Where the head of a short response fits its array and the calls of `send` go through, the client
-- gets the head and the body, without the body for `HEAD`. Its first empty line ends the head,
-- which says the body's length, and the result says what was sent.
pub send_simple_response-frames :
    (sends : List Outcome) (request : Option HttpRequest) (status : ℕ) (body : Bytes)
    (keep_alive : Bool)
    → length (header_block (simple_lines request status (length body) keep_alive))
      < response_buffer_size
    → length (header_block (simple_lines request status (length body) keep_alive)) + length body
      ≤ willing sends
    → let p = send_simple_response sends request status body keep_alive in
      let headers = header_block (simple_lines request status (length body) keep_alive) in
      (p.bytes ≡ headers ++ body_for request body)
      × (find_header_end p.bytes ≡ some (length headers))
      × (p.result
          ≡ some (record { status_code = status; body_bytes = length (body_for request body) }))
unfolding send_simple_response
send_simple_response-frames sends request status body keep_alive fits w =
    let lines = simple_lines request status (length body) keep_alive in
    let p =
      respond-Puts sends (header_block lines) (body_for request body)
        (λ s. send_all s (body_for request body)) status (length (body_for request body)) fits
        (λ s. send_all-willing s (body_for request body))
        (omega (arith, w, body_for-le request body)) in
    (
      p.0,
      ap find_header_end p.0
          ∙ header_block-ends lines _ (omega arith)
              (simple_lines-AllHeaderLines request status (length body) keep_alive),
      p.1,
    )

-- A file that has the bytes that `stat` said, and a range of it to send.
module _ (request : HttpRequest) (info : FileInfo) (file : File) (keep_alive : Bool)
    {range : ByteRange} where
  range-bytes :
      resolve_range request info.size ≡ some range
      → length file.contents ≡ info.size
      → range.start + range.length ≤ info.size
      → (range.length ≤ length (from_range range file.contents))
        × (from_range range file.contents ≡ drop range.start file.contents)
  range-bytes h size le = elim (Bool-cases range.partial) [
    | inl partial ↦
        rw partial (omega (arith, size, le, length-drop range.start file.contents), refl)
    | inr whole ↦
        let start = (resolve_range-whole request info.size h whole).0 in
        rw (whole, start) (omega (arith, size, le), refl)
  ]

  -- The answer to a request that is not `HEAD`, for a file that opens, that `fseeko` accepts and
  -- that holds as many bytes as `stat` said, which fit a `size_t`, where the type is the one that
  -- `file_mime_type` gives for the path, the head fits its array and the calls of `send` go
  -- through. The numbers of the range may be anything that `resolve_range` accepts. Then the
  -- client gets the head, which its first empty line ends, and behind it exactly the bytes of the
  -- range that `resolve_range` resolved.
  pub send_file_response-range :
      (sends : List Outcome)
      → wants_body (some request) ≡ true
      → resolve_range request info.size ≡ some range
      → info.size ≤ size_max
      → length file.contents ≡ info.size
      → file.seekable ≡ true
      → info.mime_type ≡ file_mime_type info.resolved_path
      → length (header_block (file_lines request info range keep_alive)) < response_buffer_size
      → length (header_block (file_lines request info range keep_alive)) + range.length
        ≤ willing sends
      → let p = send_file_response sends request info (some file) keep_alive in
        let headers = header_block (file_lines request info range keep_alive) in
        (p.bytes ≡ headers ++ take range.length (drop range.start file.contents))
        × (find_header_end p.bytes ≡ some (length headers))
        × (p.result
            ≡ some (record {
              status_code = if range.partial then 206 else 200;
              body_bytes = range.length;
            }))
  unfolding send_file_response
  send_file_response-range sends body h small size seeks typed fits w =
      let le = resolve_range-within request info.size small h in
      let plain : Avoids b'\r' info.mime_type =
        rw typed (file_mime_type-Avoids info.resolved_path) in
      let headers = header_block (file_lines request info range keep_alive) in
      let b = range-bytes h size le in
      let text = take range.length (from_range range file.contents) in
      let heads = file_lines-AllHeaderLines request info range keep_alive plain in
      let quiet : (if range.partial then not file.seekable else false) ≡ false =
        ground (arith, seeks) in
      let puts =
        copy_file-Puts range.length range.length (from_range range file.contents) (omega arith)
          b.0 in
      let size_text : length text ≡ range.length =
        omega (arith, b.0, length-take range.length (from_range range file.contents)) in
      let p =
        respond-Puts sends headers text
          (copy_file range.length range.length (from_range range file.contents))
          (if range.partial then 206 else 200) range.length fits puts
          (omega (arith, w, size_text)) in
      let out = p.0 ∙ ap (λ xs. headers ++ take range.length xs) b.1 in
      rw (h, quiet, body)
        (
          out,
          ap find_header_end out
              ∙ header_block-ends (file_lines request info range keep_alive) _ heads.0 heads.1,
          p.1,
        )
