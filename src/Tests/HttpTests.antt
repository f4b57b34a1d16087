-- ===== src/Tests/HttpTests.antt =====
-- Runs of the request parser, those of tests/unit_http.c among them, and its results at an input.
use final_system_progamming.Common.{
  ◌≡◌, refl, inr, Bool, true, false, [], ◌∷◌, ◌++◌, none, some, arith, Bytes, codes, c_string,
}
use final_system_progamming.Http.Types.{
  HttpRequest, HttpParseResult, parse_ok, bad_request, get, head, http_10, cleared, parse_method,
  parse_version,
}
use final_system_progamming.Http.Scan.{
  copy_bounded, ascii_case_equal, ascii_case_equal_bounded, find_crlf, skip_spaces,
  trim_trailing_span, parse_size_token,
}
use final_system_progamming.Http.Scan.Number.{parse_size_token_exact}
use final_system_progamming.Http.RangeHeader.{parse_range_header}
use final_system_progamming.Http.RangeHeader.Forms.{parse_range_header_forms}
use final_system_progamming.Http.Headers.{parse_headers, parse_header_line}
use final_system_progamming.Http.Headers.Loop.{lines, parse_headers-lines}
use final_system_progamming.Http.Request.{
  is_known, http_parse_request, http_should_keep_alive, http_status_text, fill_request_line,
  set_keep_alive,
}
use final_system_progamming.Http.Request.Accepts.{
  IsLine, request_line, IsRead, http_parse_request-line, http_parse_request-IsRead,
}

-- The parsed request, or the one given where the parser refuses.
abbrev request_or : HttpRequest → HttpParseResult HttpRequest → HttpRequest
request_or d (parse_ok r) = r
request_or d bad_request = d

abbrev is_ok : HttpParseResult HttpRequest → Bool
is_ok (parse_ok r) = true
is_ok bad_request = false

abbrev parsed : Bytes → HttpRequest
parsed raw = request_or cleared (http_parse_request raw)

abbrev ranged : HttpRequest
ranged = parsed (codes "GET /about.txt?x HTTP/1.1\r\nHost: localhost\r\nRange: bytes=7-10\r\n\r\n")

get_with_range :
    (c_string ranged.path ≡ codes "/about.txt")
    × (ranged.method ≡ get)
    × (ranged.has_range ≡ true)
    × (ranged.range_is_suffix ≡ false)
    × (ranged.range_start ≡ 7)
    × (ranged.range_end ≡ 10)
    × (ranged.keep_alive_requested ≡ true)
unfolding http_parse_request parse_headers parse_header_line parse_range_header copy_bounded
    ascii_case_equal ascii_case_equal_bounded find_crlf skip_spaces trim_trailing_span
    parse_size_token cleared parse_method parse_version
get_with_range = (refl, refl, refl, refl, refl, refl, refl)

abbrev old_head : HttpRequest
old_head = parsed (codes "HEAD /about.txt HTTP/1.0\r\nConnection: keep-alive\r\n\r\n")

head_keep_alive :
    (old_head.method ≡ head)
    × (old_head.version ≡ http_10)
    × (http_should_keep_alive (some old_head) ≡ true)
unfolding http_parse_request parse_headers parse_header_line parse_range_header copy_bounded
    ascii_case_equal ascii_case_equal_bounded find_crlf skip_spaces trim_trailing_span
    parse_size_token cleared parse_method parse_version http_should_keep_alive
head_keep_alive = (refl, refl, refl)

refused : is_ok (http_parse_request (codes "GET /index.html\r\n")) ≡ false
unfolding http_parse_request find_crlf
refused = refl

status_texts :
    (http_status_text 416 ≡ codes "Range Not Satisfiable")
    × (http_status_text 418 ≡ codes "Unknown")
unfolding http_status_text
status_texts = (refl, refl)

index-IsLine : IsLine (codes "GET") (codes "/i") (codes "?a") (codes "HTTP/1.1")
index-IsLine = record {
  method_ne = λ e. cc;
  path_ne = λ e. cc;
  version_ne = λ e. cc;
  method_word = omega arith;
  path_word = omega arith;
  path_plain = omega arith;
  query_word = omega arith;
  query_is = inr (codes "a", refl);
  no_return = omega arith;
}

index_known :
    is_known (fill_request_line (codes "GET") (codes "/i") (codes "HTTP/1.1")).version ≡ true
unfolding fill_request_line copy_bounded cleared parse_version
index_known = refl

abbrev crlf : Bytes
crlf = codes "\r\n"

http_parse_request-line_example :
    http_parse_request
      (request_line (codes "GET") (codes "/i") (codes "?a") (codes "HTTP/1.1") ++ codes "\r\n\r\n")
    ≡ parse_ok (
        set_keep_alive
          (parse_headers crlf (fill_request_line (codes "GET") (codes "/i") (codes "HTTP/1.1"))))
http_parse_request-line_example = http_parse_request-line crlf index-IsLine index_known

http_parse_request-IsRead_example :
    IsRead
      (request_line (codes "GET") (codes "/i") (codes "?a") (codes "HTTP/1.1") ++ codes "\r\n\r\n")
      (set_keep_alive
        (parse_headers crlf (fill_request_line (codes "GET") (codes "/i") (codes "HTTP/1.1"))))
http_parse_request-IsRead_example =
    http_parse_request-IsRead
      (request_line (codes "GET") (codes "/i") (codes "?a") (codes "HTTP/1.1") ++ codes "\r\n\r\n")
      (http_parse_request-line crlf index-IsLine index_known)

abbrev close_line : Bytes
close_line = codes "Connection: close"

parse_headers-lines_example :
    parse_headers (lines (close_line ∷ []) (codes "\r\nbody")) cleared
    ≡ parse_header_line close_line cleared
parse_headers-lines_example =
    parse_headers-lines (close_line ∷ []) (codes "body") cleared (omega arith, λ e. cc, tt)

parse_size_token_exact_example : parse_size_token (codes "18446744073709551616") ≡ none
parse_size_token_exact_example = parse_size_token_exact (codes "18446744073709551616")

seven : parse_size_token (codes "7") ≡ some 7
unfolding parse_size_token
seven = refl

parse_range_header_forms_example :
    (parse_range_header (codes "bytes=7-7") cleared ≡ record cleared {
      has_range = true;
      range_start = 7;
      range_end_provided = true;
      range_end = 7;
    })
    × (parse_range_header (codes "bytes=7-") cleared
        ≡ record cleared { has_range = true; range_start = 7 })
    × (parse_range_header (codes "bytes=-7") cleared
        ≡ record cleared { has_range = true; range_is_suffix = true; range_start = 7 })
parse_range_header_forms_example =
    parse_range_header_forms (codes "7") (codes "7") 7 7 cleared seven seven (omega arith)
