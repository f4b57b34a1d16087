-- ===== src/Server/Client/Session.antt =====
-- A connection as a session: the requests of its stream are answered in their order.
pub mod Served
use mathlib.Core.Option.{some-injective}
use mathlib.Core.Path.{subst}
use final_system_progamming.Common.{
  ℕ, zero, suc, ◌≡◌, ◌<◌, refl, sym, ap, ap₂, ◌∙◌, Bool, true, false, List, [], ◌∷◌, ◌++◌,
  append-nil, append_assoc, arith, Bytes, codes, Option, none, some, length, take, Bool-cases, inl,
  inr,
}
use final_system_progamming.Http.Types.{HttpRequest}
use final_system_progamming.Http.Request.{http_should_keep_alive}
use final_system_progamming.Server.Socket.{Outcome}
use final_system_progamming.Server.Read.{
  ReadResult, request, end_of_stream, invalid, ReadState, read_buffer_size,
}
use final_system_progamming.Server.Response.{Reply, ResponseResult, send_simple_response}
use final_system_progamming.Server.Client.{
  World, Connection, LogEntry, handle_client, serve_next, after_read, after_answer, answer, sent_to,
  close, invalid_line, entry, result_or_zero,
}
use final_system_progamming.Server.Client.Rounds.{handle_client-returns}
use final_system_progamming.Server.Client.Alike.{IsReady, stream_of}
use final_system_progamming.Server.Client.Segments.{serve_next-IsReady}
use final_system_progamming.Server.Client.Whole.{first_read, SameLine}
use final_system_progamming.Server.Client.Whole.Reads.{read_next_request-IsWhole}

abbrev pub reply_to : World → List Outcome → HttpRequest → Reply
reply_to world sends r = answer world sends r (http_should_keep_alive (some r))

abbrev pub refusal : List Outcome → Reply
refusal sends = send_simple_response sends none 400 (codes "Bad Request\n") false

-- What goes out and what is logged for a stream, with these calls of `send` to come: nothing when
-- the stream is at its end; the answer to its first request, and those to the rest if the client
-- keeps the connection and the answer went out; or a refusal.
pub data Session (world : World) : List Outcome → Bytes → Bytes → List LogEntry → Type 0 where
  over :
      {sends : List Outcome} {stream : Bytes}
      → (first_read stream).0 ≡ end_of_stream
      → Session world sends stream [] []
  kept :
      {sends : List Outcome} {stream : Bytes} (r : HttpRequest) (line rest : Bytes)
      (result : ResponseResult) {out : Bytes} {log : List LogEntry}
      → first_read stream ≡ (request r line, rest)
      → http_should_keep_alive (some r) ≡ true
      → (reply_to world sends r).result ≡ some result
      → Session world (reply_to world sends r).sends rest out log
      → Session world sends stream
          ((reply_to world sends r).bytes ++ out)
          (entry world line result ∷ log)
  last :
      {sends : List Outcome} {stream : Bytes} (r : HttpRequest) (line rest : Bytes)
      (result : ResponseResult)
      → first_read stream ≡ (request r line, rest)
      → http_should_keep_alive (some r) ≡ false
      → (reply_to world sends r).result ≡ some result
      → Session world sends stream (reply_to world sends r).bytes (entry world line result ∷ [])
  broken :
      {sends : List Outcome} {stream : Bytes} (r : HttpRequest) (line rest : Bytes)
      → first_read stream ≡ (request r line, rest)
      → (reply_to world sends r).result ≡ none
      → Session world sends stream (reply_to world sends r).bytes []
  refused :
      {sends : List Outcome} {stream : Bytes}
      → (first_read stream).0 ≡ invalid
      → Session world sends stream (refusal sends).bytes (
          entry world
            (invalid_line (take read_buffer_size stream))
            (result_or_zero (refusal sends).result)
          ∷ [])

-- A round that goes on adds to any session of what is left; one that does not is a session.
unfoldable pub Round : World → Connection → Bytes → Bool → Connection → Type 0
Round world client stream true client' =
    (bytes : Bytes) × (e : LogEntry) × (client'.outgoing ≡ client.outgoing ++ bytes)
    × (client'.log ≡ client.log ++ e ∷ [])
    × ((out : Bytes) (log : List LogEntry)
        → Session world client'.sends (stream_of client'.reads) out log
        → Session world client.sends stream (bytes ++ out) (e ∷ log))
Round world client stream false client' =
    (out : Bytes) × (log : List LogEntry) × Session world client.sends stream out log
    × (client'.outgoing ≡ client.outgoing ++ out)
    × (client'.log ≡ client.log ++ log)

after_answer-Round :
    (world : World) (client : Connection) (stream : Bytes) (r : HttpRequest) (line : Bytes)
    (reads : ReadState) (keep : Bool) (result : Option ResponseResult)
    → first_read stream ≡ (request r line, stream_of reads)
    → http_should_keep_alive (some r) ≡ keep
    → (reply_to world client.sends r).result ≡ result
    → let after =
        after_answer world
          (sent_to client reads (reply_to world client.sends r))
          line
          keep
          result in
      Round world client stream after.0 after.1
unfolding Round
after_answer-Round world client stream r line reads keep none first k e = (
  (reply_to world client.sends r).bytes,
  [],
  broken r line (stream_of reads) first e,
  refl,
  sym (append-nil client.log),
)
after_answer-Round world client stream r line reads true (some result) first k e = (
  (reply_to world client.sends r).bytes,
  entry world line result,
  refl,
  refl,
  λ out log s. kept r line (stream_of reads) result first k e s,
)
after_answer-Round world client stream r line reads false (some result) first k e = (
  (reply_to world client.sends r).bytes,
  entry world line result ∷ [],
  last r line (stream_of reads) result first k e,
  refl,
  refl,
)

-- The first read as a pair of its parts.
first_of_parts :
    (stream : Bytes) (result : ReadResult) (rest : Bytes)
    → result ≡ (first_read stream).0
    → rest ≡ (first_read stream).1
    → first_read stream ≡ (result, rest)
first_of_parts stream result rest e f = sym (ap₂ (λ a b. (a, b)) e f)

pub after_read-Round :
    (world : World) (client : Connection) (stream : Bytes) (result : ReadResult) (reads : ReadState)
    → result ≡ (first_read stream).0
    → stream_of reads ≡ (first_read stream).1
    → SameLine stream result reads.buffered
    → let after = after_read world client result reads in Round world client stream after.0 after.1
unfolding Round
after_read-Round world client stream end_of_stream reads e f l =
    ([], [], over (sym e), sym (append-nil client.outgoing), sym (append-nil client.log))
after_read-Round world client stream invalid reads e f l = (
  (refusal client.sends).bytes,
  _,
  refused (sym e),
  refl,
  ap (λ text. client.log ++ entry world text (result_or_zero (refusal client.sends).result) ∷ []) l,
)
after_read-Round world client stream (request r line) reads e f l =
    unfold Round in
    after_answer-Round world client stream r line reads (http_should_keep_alive (some r))
      (reply_to world client.sends r).result
      (first_of_parts stream (request r line) (stream_of reads) e f) refl refl
