-- ===== src/Http/Headers.antt =====
-- `parse_headers` (src/http.c).
pub mod Loop
use final_system_progamming.Common.{
  ℕ, zero, suc, ◌+◌, none, some, Bytes, codes, ◌==◌, if◌then◌else◌, length, take, drop, memchr,
}
use final_system_progamming.Http.Types.{HttpRequest}
use final_system_progamming.Http.Scan.{
  copy_bounded, ascii_case_equal_bounded, find_crlf, skip_spaces, trim_trailing_span,
}
use final_system_progamming.Http.RangeHeader.{parse_range_header}

abbrev connection_name : Bytes
connection_name = codes "Connection"

abbrev range_name : Bytes
range_name = codes "Range"

-- A header line with its colon at an offset.
unfoldable pub apply_header : Bytes → Bytes → HttpRequest → HttpRequest
apply_header name after_colon request =
    let value = trim_trailing_span (skip_spaces after_colon) in
    if ascii_case_equal_bounded name connection_name
    then record request { connection = copy_bounded request.connection value }
    else if ascii_case_equal_bounded name range_name
    then parse_range_header value request
    else request

-- The body of the loop, on one line.
unfoldable pub parse_header_line : Bytes → HttpRequest → HttpRequest
unfolding apply_header
parse_header_line line request = elim (memchr b':' line) [
  | none ↦ request
  | some colon ↦ apply_header (take colon line) (drop (colon + 1) line) request
]

-- The loop on the bytes from `offset` on. The fuel is the number of loop tests.
parse_lines : ℕ → Bytes → HttpRequest → HttpRequest
parse_lines zero headers request = request
parse_lines (suc fuel) headers request = elim (find_crlf headers) [
  | none ↦ request
  | some line_len ↦
      let rest =
        parse_lines fuel (drop (line_len + 2) headers)
          (parse_header_line (take line_len headers) request) in
      if line_len == 0 then request else rest
]

-- Each round takes two bytes at least, so there are at most as many rounds as bytes.
unfoldable pub parse_headers : Bytes → HttpRequest → HttpRequest
unfolding parse_lines
parse_headers headers request = parse_lines (suc (length headers)) headers request
