-- ===== src/Http/Request.antt =====
-- `http_parse_request`, `http_should_keep_alive` and `http_status_text` (src/http.c).
pub mod Accepts
use final_system_progamming.Common.{
  ℕ, ◌+◌, Bool, true, false, not, Option, none, some, Bytes, codes, ltb, ◌==◌, if◌then◌else◌,
  length, take, drop, memchr,
}
use final_system_progamming.Http.Types.{
  HttpRequest, HttpParseResult, parse_ok, HttpVersion, http_10, http_11, unknown, cleared,
  parse_method, parse_version, ◌>>=◌, ◌>>◌, require, found,
}
use final_system_progamming.Http.Scan.{copy_bounded, ascii_case_equal, find_crlf}
use final_system_progamming.Http.Headers.{parse_headers}

abbrev pub is_known : HttpVersion → Bool
is_known unknown = false
is_known http_10 = true
is_known http_11 = true

-- The last step: the persistence that the version and the `Connection` header ask for.
unfoldable pub requested_keep_alive : HttpVersion → Bytes → Bool
requested_keep_alive http_11 connection = not (ascii_case_equal connection (codes "close"))
requested_keep_alive _ connection = ascii_case_equal connection (codes "keep-alive")

abbrev pub set_keep_alive : HttpRequest → HttpRequest
set_keep_alive request = record request {
  keep_alive_requested = requested_keep_alive request.version request.connection;
}

-- The struct once the three words of the request line are copied into it and read.
unfoldable pub fill_request_line : Bytes → Bytes → Bytes → HttpRequest
fill_request_line method path version =
    let method_text = copy_bounded cleared.method_text method in
    let version_text = copy_bounded cleared.version_text version in
    record cleared {
      method_text = method_text;
      path = copy_bounded cleared.path path;
      version_text = version_text;
      method = parse_method method_text;
      version = parse_version version_text;
    }

-- The length of the target without its query.
abbrev path_length : Bytes → ℕ
path_length target = elim (memchr b'?' target) [ none ↦ length target | some query ↦ query ]

unfoldable pub http_parse_request : Bytes → HttpParseResult HttpRequest
unfolding requested_keep_alive fill_request_line
http_parse_request raw = do
  require (not (length raw == 0))
  line_end ← found (find_crlf raw)
  require (ltb line_end (length raw))
  let line = take line_end raw
  first_space ← found (memchr b' ' line)
  let after_first = drop (first_space + 1) line
  second_space ← found (memchr b' ' after_first)
  require (not (second_space == 0))
  let version = drop (second_space + 1) after_first
  require (not (first_space == 0))
  require (not (length version == 0))
  let target = take second_space after_first
  require (not (path_length target == 0))
  let request = fill_request_line (take first_space line) (take (path_length target) target) version
  require (is_known request.version)
  parse_ok (set_keep_alive (parse_headers (drop (line_end + 2) raw) request))

-- `none` is the null pointer.
unfoldable pub http_should_keep_alive : Option HttpRequest → Bool
http_should_keep_alive none = false
http_should_keep_alive (some request) = request.keep_alive_requested

unfoldable pub http_status_text : ℕ → Bytes
http_status_text status =
    if status == 200
    then codes "OK"
    else if status == 206
    then codes "Partial Content"
    else if status == 400
    then codes "Bad Request"
    else if status == 403
    then codes "Forbidden"
    else if status == 404
    then codes "Not Found"
    else if status == 416
    then codes "Range Not Satisfiable"
    else if status == 500
    then codes "Internal Server Error"
    else if status == 501
    then codes "Not Implemented"
    else if status == 503
    then codes "Service Unavailable"
    else codes "Unknown"
