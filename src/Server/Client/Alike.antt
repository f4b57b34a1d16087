-- ===== src/Server/Client/Alike.antt =====
-- Connections that differ only in how their bytes arrive, through a round of the loop.

use final_system_progamming.Common.{
  ℕ, ◌≡◌, ◌≤◌, refl, sym, ap, ap₂, ◌∙◌, Bool, false, List, [], ◌∷◌, ◌++◌, Bytes, Option, none, some,
  length, codes,
}
use final_system_progamming.Http.Request.{http_should_keep_alive}
use final_system_progamming.Server.Read.{
  ReadResult, request, end_of_stream, invalid, ReadState, read_buffer_size,
}
use final_system_progamming.Server.Response.{Reply, ResponseResult, send_simple_response}
use final_system_progamming.Server.Client.{
  World, Connection, LogEntry, after_read, after_answer, answer, sent_to, logged, entry,
  result_or_zero,
}
use final_system_progamming.Server.Client.Whole.{Delivers, SameLine}

-- All that the client sends will arrive, in pieces of any size.
pub record IsReady (reads : ReadState) : Type 0 where
  pub holds : length reads.buffered ≤ read_buffer_size
  pub delivers : Delivers reads.receives reads.incoming

abbrev pub stream_of : ReadState → Bytes
stream_of reads = reads.buffered ++ reads.incoming

-- The same but for how much of the stream has been received, and the calls of `recv` to come.
pub record IsAlike (a b : Connection) : Type 0 where
  pub same_stream : stream_of a.reads ≡ stream_of b.reads
  pub same_sends : a.sends ≡ b.sends
  pub same_outgoing : a.outgoing ≡ b.outgoing
  pub same_log : a.log ≡ b.log
  pub same_closed : a.closed ≡ b.closed

-- What became of a connection.
abbrev pub outcome_of : Connection → Bytes × List LogEntry × ℕ
outcome_of client = (client.outgoing, client.log, client.closed)

sent_to-IsAlike :
    {a b : Connection} (reads reads' : ReadState) (reply : Reply)
    → IsAlike a b
    → stream_of reads ≡ stream_of reads'
    → IsAlike (sent_to a reads reply) (sent_to b reads' reply)
sent_to-IsAlike reads reads' reply s e = record {
  same_stream = e;
  same_sends = refl;
  same_outgoing = ap (λ xs. xs ++ reply.bytes) s.same_outgoing;
  same_log = s.same_log;
  same_closed = s.same_closed;
}

logged-IsAlike :
    {a b : Connection} {e e' : LogEntry} → IsAlike a b → e ≡ e' → IsAlike (logged a e) (logged b e')
logged-IsAlike s e = record {
  same_stream = s.same_stream;
  same_sends = s.same_sends;
  same_outgoing = s.same_outgoing;
  same_log = ap₂ (λ xs x. xs ++ x ∷ []) s.same_log e;
  same_closed = s.same_closed;
}

after_answer-IsAlike :
    (world : World) {a b : Connection} (line : Bytes) (keep : Bool) (result : Option ResponseResult)
    → IsAlike a b
    → ((after_answer world a line keep result).0 ≡ (after_answer world b line keep result).0)
      × IsAlike (after_answer world a line keep result).1 (after_answer world b line keep result).1
after_answer-IsAlike world line keep none s = (refl, s)
after_answer-IsAlike world line keep (some result) s = (refl, logged-IsAlike s refl)

-- Two rounds with the same result, to which the log adds the same line.
pub after_read-IsAlike :
    (world : World) {a b : Connection} (result : ReadResult) (reads reads' : ReadState)
    (stream : Bytes)
    → IsAlike a b
    → stream_of reads ≡ stream_of reads'
    → SameLine stream result reads.buffered
    → SameLine stream result reads'.buffered
    → ((after_read world a result reads).0 ≡ (after_read world b result reads').0)
      × IsAlike (after_read world a result reads).1 (after_read world b result reads').1
after_read-IsAlike world end_of_stream reads reads' stream s e l l' = (
  refl,
  record {
    same_stream = e;
    same_sends = s.same_sends;
    same_outgoing = s.same_outgoing;
    same_log = s.same_log;
    same_closed = s.same_closed;
  },
)
after_read-IsAlike world {b = b} invalid reads reads' stream s e l l' =
    let reply = send_simple_response b.sends none 400 (codes "Bad Request\n") false in
    let line = l ∙ sym l' in
    rw s.same_sends (
      refl,
      logged-IsAlike (sent_to-IsAlike reads reads' reply s e)
          (ap (λ text. entry world text (result_or_zero reply.result)) line),
    )
after_read-IsAlike world {b = b} (request r line) reads reads' stream s e l l' =
    let keep = http_should_keep_alive (some r) in
    let reply = answer world b.sends r keep in
    rw s.same_sends
      (after_answer-IsAlike world line keep reply.result (sent_to-IsAlike reads reads' reply s e))
