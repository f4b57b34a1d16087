-- ===== src/Server/Client/Pipeline.antt =====
-- The requests of a kept connection are served one after the other.
use final_system_progamming.Common.{
  ℕ, suc, ◌+◌, ◌≡◌, ◌≤◌, refl, ap, ◌∙◌, Bool, Bytes, true, [], ◌∷◌, ◌++◌, some, length, take, drop,
  if◌then◌else◌,
}
use final_system_progamming.Http.Types.{HttpRequest, parse_ok}
use final_system_progamming.Http.Request.{http_parse_request, http_should_keep_alive}
use final_system_progamming.Server.Socket.Delivery.{allows}
use final_system_progamming.Server.Read.{
  ReadResult, ReadState, request, read_next_request, find_header_end, read_buffer_size,
  extract_request_line, request_line_size,
}
use final_system_progamming.Server.Read.Stream.{read_next_request-request}
use final_system_progamming.Server.Response.{ResponseResult}
use final_system_progamming.Server.Client.{
  World, Connection, handle_client, serve_next, answer, after_read, after_answer, sent_to, logged,
  entry, close,
}

after_read-kept :
    (world : World) (client : Connection) (read : ReadResult × ReadState) {r : HttpRequest}
    {line : Bytes} {result : ResponseResult}
    → read.0 ≡ request r line
    → r.keep_alive_requested ≡ true
    → (answer world client.sends r true).result ≡ some result
    → after_read world client read.0 read.1 ≡ (
      true,
      logged (sent_to client read.1 (answer world client.sends r true)) (entry world line result),
    )
unfolding http_should_keep_alive
after_read-kept world client read {r} {line} is keep result =
    let served = λ (k : Bool).
      after_answer world (sent_to client read.1 (answer world client.sends r k)) line k
        (answer world client.sends r k).result in
    let reply = answer world client.sends r true in
    ap (λ a. after_read world client a read.1) is
    ∙ ap served keep
    ∙ ap (after_answer world (sent_to client read.1 reply) line true) result

-- A client that keeps its connection: the calls of `recv` can bring the next header block, which
-- fits the buffer and parses to a request that asks for keep-alive, and its response goes out as a
-- whole. The loop then goes on as from a connection where the response is appended to what was
-- sent, the log has one entry more, with the request's line and the response's result, and the
-- unread stream is the rest behind the block.
handle_client-request :
    (fuel : ℕ) (world : World) (client : Connection) {n : ℕ} {r : HttpRequest}
    {result : ResponseResult}
    → find_header_end (client.reads.buffered ++ client.reads.incoming) ≡ some n
    → n ≤ read_buffer_size
    → length client.reads.buffered ≤ read_buffer_size
    → n ≤ length client.reads.buffered + allows client.reads.receives
    → http_parse_request (take n (client.reads.buffered ++ client.reads.incoming)) ≡ parse_ok r
    → r.keep_alive_requested ≡ true
    → (answer world client.sends r true).result ≡ some result
    → let stream = client.reads.buffered ++ client.reads.incoming in
      let line = extract_request_line (take n stream) request_line_size in
      (client' : Connection) × (handle_client (suc fuel) world client
        ≡ handle_client fuel world client')
      × (client'.outgoing ≡ client.outgoing ++ (answer world client.sends r true).bytes)
      × (client'.log ≡ client.log ++ entry world line result ∷ [])
      × (client'.reads.buffered ++ client'.reads.incoming ≡ drop n stream)
      × (client'.closed ≡ client.closed)
unfolding handle_client serve_next
handle_client-request fuel world client {n} {r} {result} ends fits holds arrives parse keep goes =
    let stream = client.reads.buffered ++ client.reads.incoming in
    let line = extract_request_line (take n stream) request_line_size in
    let read =
      read_next_request client.reads.receives client.reads.incoming client.reads.buffered in
    let p =
      read_next_request-request client.reads.receives client.reads.incoming client.reads.buffered
        ends fits holds arrives parse in
    let round = after_read-kept world client read p.0 keep goes in
    (
      logged (sent_to client read.1 (answer world client.sends r true)) (entry world line result),
      ap (λ s. if s.0 then handle_client fuel world s.1 else some (close s.1)) round,
      refl,
      refl,
      p.1,
      refl,
    )
