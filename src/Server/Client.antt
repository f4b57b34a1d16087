-- ===== src/Server/Client.antt =====
-- `status_from_file_result` and `handle_client` (src/server.c): the requests of one connection.
pub mod Rounds
pub mod Pipeline
pub mod Whole
pub mod Alike
pub mod Confined
pub mod HeadRequest
pub mod Session
pub mod Segments
use final_system_progamming.Common.{
  ℕ, zero, suc, ◌+◌, Bool, true, false, ◌&&◌, List, [], ◌∷◌, ◌++◌, Option, none, some, Bytes, codes,
  ltb, if◌then◌else◌, length, take, c_string, decimal,
}
use final_system_progamming.Http.Types.{HttpRequest, HttpMethod, get, head, unsupported}
use final_system_progamming.Http.Request.{http_should_keep_alive, http_status_text}
use final_system_progamming.Files.Types.{
  FileResult, ok, not_found, forbidden, error, FileInfo, FileKind, regular, directory,
}
use final_system_progamming.Files.Resolve.{FileSystem, file_stat_path}
use final_system_progamming.Files.Builder.{StringBuilder}
use final_system_progamming.Files.Listing.{Memory, file_build_directory_listing}
use final_system_progamming.Server.Socket.{Outcome}
use final_system_progamming.Server.Read.{
  ReadResult, request, end_of_stream, invalid, ReadState, read_next_request, extract_request_line,
  request_line_size,
}
use final_system_progamming.Server.Response.{
  Reply, ResponseResult, File, send_simple_response, send_file_response, send_directory_response,
}

-- What the server serves: its document root, the file system, what `fopen` gives for a path, the
-- names that a directory has (`none` if `opendir` fails), the memory, and the
-- numeric address of the client, if the system gives it.
pub record World : Type 0 where
  pub doc_root : Bytes
  pub fs : FileSystem
  pub fopen : Bytes → Option File
  pub readdir : Bytes → Option (List Bytes)
  pub memory : Memory
  pub peer : Option Bytes

-- The text in `buffer`; `none` is a call of `getpeername` or `getnameinfo` that fails.
abbrev pub get_client_ip : Option Bytes → Bytes
get_client_ip none = codes "-"
get_client_ip (some address) = address

-- The arguments of a call of `access_log_write`.
pub record LogEntry : Type 0 where
  pub client_ip : Bytes
  pub request_line : Bytes
  pub status_code : ℕ
  pub body_bytes : ℕ

-- A connection: what was read of it, what went out, the outcomes of the calls of `send` to come,
-- the log, and how often its socket was closed.
pub record Connection : Type 0 where
  pub reads : ReadState
  pub sends : List Outcome
  pub outgoing : Bytes
  pub log : List LogEntry
  pub closed : ℕ

-- The status of a failure.
unfoldable pub status_from_file_result : {A : Type 0} → FileResult A → ℕ
status_from_file_result not_found = 404
status_from_file_result forbidden = 403
status_from_file_result _ = 500

abbrev send_failure : List Outcome → HttpRequest → ℕ → Bool → Reply
send_failure sends r status keep_going =
    send_simple_response sends (some r) status
      (decimal status ++ b' ' ∷ (http_status_text status ++ codes "\n")) keep_going

-- `*body` with `*body_len`.
abbrev body_of : FileResult StringBuilder → FileResult Bytes
body_of (ok builder) = ok (take builder.length_used builder.data_bytes)
body_of not_found = not_found
body_of forbidden = forbidden
body_of error = error

abbrev send_found : World → List Outcome → HttpRequest → FileKind → FileInfo → Bool → Reply
send_found world sends r directory info keep_going =
    send_directory_response sends r
      (body_of (
        file_build_directory_listing world.fs world.memory (c_string r.path) info.resolved_path
          (world.readdir info.resolved_path)))
      keep_going
send_found world sends r regular info keep_going =
    send_file_response sends r info (world.fopen info.resolved_path) keep_going

abbrev answer_path : World → List Outcome → HttpRequest → FileResult FileInfo → Bool → Reply
answer_path world sends r (ok info) keep_going = send_found world sends r info.kind info keep_going
answer_path world sends r not_found keep_going =
    send_failure sends r (status_from_file_result {A = FileInfo} not_found) keep_going
answer_path world sends r forbidden keep_going =
    send_failure sends r (status_from_file_result {A = FileInfo} forbidden) keep_going
answer_path world sends r error keep_going =
    send_failure sends r (status_from_file_result {A = FileInfo} error) keep_going

abbrev answer_method : World → List Outcome → HttpRequest → HttpMethod → Bool → Reply
answer_method world sends r unsupported keep_going =
    send_simple_response sends (some r) 501 (codes "Not Implemented\n") keep_going
answer_method world sends r _ keep_going =
    answer_path world sends r (file_stat_path world.fs world.doc_root r.path) keep_going

-- The response to a request that was read.
unfoldable pub answer : World → List Outcome → HttpRequest → Bool → Reply
unfolding status_from_file_result
answer world sends r keep_going = answer_method world sends r r.method keep_going

abbrev pub entry : World → Bytes → ResponseResult → LogEntry
entry world request_line result = record {
  client_ip = get_client_ip world.peer;
  request_line = request_line;
  status_code = result.status_code;
  body_bytes = result.body_bytes;
}

abbrev pub sent_to : Connection → ReadState → Reply → Connection
sent_to client reads reply = record client {
  reads = reads;
  sends = reply.sends;
  outgoing = client.outgoing ++ reply.bytes;
}

abbrev pub logged : Connection → LogEntry → Connection
logged client e = record client { log = client.log ++ e ∷ [] }

-- The result that the log is given: the zeros it starts with where the response failed.
abbrev pub result_or_zero : Option ResponseResult → ResponseResult
result_or_zero (some result) = result
result_or_zero none = record { status_code = 0; body_bytes = 0 }

abbrev invalid_line : Bytes → Bytes
invalid_line buffered =
    if ltb 0 (length buffered)
    then extract_request_line buffered request_line_size
    else codes "<invalid request>"

-- The read that failed is answered and logged.
abbrev refuse : World → Connection → ReadState → Connection
refuse world client reads =
    let reply = send_simple_response client.sends none 400 (codes "Bad Request\n") false in
    logged (sent_to client reads reply)
      (entry world (invalid_line reads.buffered) (result_or_zero reply.result))

-- A response that went out is logged; the flag says that the loop goes on.
abbrev pub after_answer :
    World → Connection → Bytes → Bool → Option ResponseResult → Bool × Connection
after_answer world client request_line keep_going none = (false, client)
after_answer world client request_line keep_going (some result) =
    (keep_going, logged client (entry world request_line result))

abbrev pub after_read : World → Connection → ReadResult → ReadState → Bool × Connection
after_read world client end_of_stream reads = (false, record client { reads = reads })
after_read world client invalid reads = (false, refuse world client reads)
after_read world client (request r request_line) reads =
    let keep_going = http_should_keep_alive (some r) in
    let reply = answer world client.sends r keep_going in
    after_answer world (sent_to client reads reply) request_line keep_going reply.result

-- One round of the loop.
unfoldable pub serve_next : World → Connection → Bool × Connection
serve_next world client =
    let (result, reads) =
      read_next_request client.reads.receives client.reads.incoming client.reads.buffered in
    after_read world client result reads

abbrev pub close : Connection → Connection
close client = record client { closed = suc client.closed }

-- The loop, for as many rounds as the fuel allows; `none` is a loop that is not over by then.
unfoldable pub handle_client : ℕ → World → Connection → Option Connection
unfolding serve_next
handle_client zero world client = none
handle_client (suc fuel) world client =
    let (goes_on, client') = serve_next world client in
    let rest = handle_client fuel world client' in if goes_on then rest else some (close client')
