-- ===== src/Tests/ClientTests.antt =====
-- Runs of a connection, and the results on sockets, responses and connections at an input.
use mathlib.Core.Option
use final_system_progamming.Common.{
  ◌≡◌, refl, true, false, List, [], ◌∷◌, ◌++◌, none, some, Bytes, arith, codes, bytes_eq,
  if◌then◌else◌, length, replicate, decimal,
}
use final_system_progamming.Http.Types.{
  HttpRequest, get, http_11, cleared, parse_method, parse_version,
}
use final_system_progamming.Http.Scan.{find_crlf, copy_bounded, ascii_case_equal}
use final_system_progamming.Http.Request.{
  http_parse_request, http_status_text, http_should_keep_alive, set_keep_alive, fill_request_line,
}
use final_system_progamming.Files.Types.{FileInfo, regular}
use final_system_progamming.Files.Decode.{hex_value, decode_path}
use final_system_progamming.Files.Mime.{file_mime_type}
use final_system_progamming.Files.Path.{contains_dot_dot_segment, path_has_prefix}
use final_system_progamming.Files.Resolve.{
  resolved, missing, is_regular, file_resolve_path, file_stat_path,
}
use final_system_progamming.Http.Headers.{parse_headers}
use final_system_progamming.Server.Range.{ByteRange, resolve_range}
use final_system_progamming.Server.Socket.{Outcome, moves, interrupted, send_all}
use final_system_progamming.Server.Read.{read_next_request, find_header_end, extract_request_line}
use final_system_progamming.Server.Response.{
  File, header_block, file_lines, response_version, send_simple_response, send_file_response,
  copy_file,
}
use final_system_progamming.Files.Mime.{file_mime_type}
use final_system_progamming.Server.Response.Bodies.{send_file_response-range}
use final_system_progamming.Server.Client.{
  World, Connection, LogEntry, answer, handle_client, serve_next, status_from_file_result,
}
use final_system_progamming.Server.Client.Rounds.{handle_client-returns}

-- Two requests in one piece.
abbrev two_requests : Bytes
two_requests = codes "GET /a HTTP/1.1\r\n\r\nHEAD /b HTTP/1.0\r\n\r\n"

abbrev arriving : List Outcome
arriving = moves 5 ∷ interrupted ∷ moves 100 ∷ []

abbrev plenty : List Outcome
plenty = replicate 600 (moves 1000)

-- A request for bytes 1 to 2, and the file.
abbrev middle : HttpRequest
middle = record {
  method_text = codes "GET\0";
  path = codes "/a\0";
  version_text = codes "HTTP/1.1\0";
  connection = codes "\0";
  method = get;
  version = http_11;
  keep_alive_requested = true;
  has_range = true;
  range_is_suffix = false;
  range_end_provided = true;
  range_start = 1;
  range_end = 2;
}

abbrev a_info : FileInfo
a_info = record {
  resolved_path = codes "/w/a.txt";
  kind = regular;
  size = 4;
  mime_type = codes "text/plain";
}

abbrev a_file : File
a_file = record { contents = codes "abcd"; seekable = true }

abbrev middle_range : ByteRange
middle_range = record { start = 1; end = 2; length = 2; partial = true }

middle_resolved : resolve_range middle 4 ≡ some middle_range
unfolding resolve_range
middle_resolved = refl

abbrev middle_head : Bytes
middle_head = header_block (file_lines middle a_info middle_range true)

middle_head_length : length middle_head ≡ 151
unfolding response_version http_status_text decimal
middle_head_length = refl

send_file_response-range_example :
    let p = send_file_response plenty middle a_info (some a_file) true in
    (p.bytes ≡ middle_head ++ codes "bc")
    × (find_header_end p.bytes ≡ some (length middle_head))
    × (p.result ≡ some (record { status_code = 206; body_bytes = 2 }))
unfolding file_mime_type
send_file_response-range_example =
    send_file_response-range middle a_info a_file true plenty refl middle_resolved (omega arith)
      refl refl refl (omega (arith, middle_head_length)) (omega (arith, middle_head_length))

-- A server with one file.
abbrev one_file : World
one_file = record {
  doc_root = codes "w";
  fs = record {
    realpath = λ p.
        if bytes_eq p (codes "w")
        then resolved (codes "/w")
        else if bytes_eq p (codes "w/a")
        then resolved (codes "/w/a")
        else missing;
    stat = λ p. is_regular 4;
  };
  fopen = λ p. some a_file;
  readdir = λ path. none;
  memory = record {
    realloc_entries = λ i size. true;
    malloc = λ i size. true;
    realloc = λ size. true;
  };
  peer = some (codes "::1");
}

abbrev fresh_client : Connection
fresh_client = record {
  reads = record { buffered = []; incoming = two_requests; receives = arriving };
  sends = plenty;
  outgoing = [];
  log = [];
  closed = 0;
}

handle_client-returns_example :
    (client' : Connection) × (handle_client 60 one_file fresh_client ≡ some client')
    × (client'.closed ≡ 1)
handle_client-returns_example = handle_client-returns 60 one_file fresh_client (omega arith)

-- The file for the first request, the head of the refusal for the second, and two lines in the
-- log.
conversation :
    Option.map {B = Bytes × List LogEntry}
      (λ c. (c.outgoing, c.log))
      (handle_client 60 one_file fresh_client)
    ≡ some (
      codes
          "HTTP/1.1 200 OK\r\nContent-Type: application/octet-stream\r\nContent-Length: 4\r\nAccept-Ranges: bytes\r\nConnection: keep-alive\r\n\r\nabcdHTTP/1.0 404 Not Found\r\nContent-Type: text/plain\r\nContent-Length: 14\r\nConnection: close\r\n\r\n",
      record {
        client_ip = codes "::1";
        request_line = codes "GET /a HTTP/1.1";
        status_code = 200;
        body_bytes = 4;
      }
          ∷ record {
            client_ip = codes "::1";
            request_line = codes "HEAD /b HTTP/1.0";
            status_code = 404;
            body_bytes = 0;
          }
          ∷ [],
    )
unfolding handle_client serve_next read_next_request find_header_end extract_request_line find_crlf
    http_parse_request answer status_from_file_result file_stat_path file_resolve_path decode_path
    hex_value contains_dot_dot_segment path_has_prefix file_mime_type send_simple_response
    send_file_response resolve_range copy_file send_all response_version http_status_text decimal
    http_should_keep_alive parse_version copy_bounded cleared parse_headers parse_method
    ascii_case_equal
conversation = refl

abbrev first_request : HttpRequest
first_request =
    set_keep_alive (
      parse_headers (codes "\r\n")
        (fill_request_line (codes "GET") (codes "/a") (codes "HTTP/1.1")))
