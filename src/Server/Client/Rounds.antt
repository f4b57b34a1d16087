-- ===== src/Server/Client/Rounds.antt =====
-- The loop of a connection ends, and serves the requests of its stream in their order.
use final_system_progamming.Common.{
  ℕ, zero, suc, ◌≡◌, ◌≤◌, ◌<◌, refl, ap, ◌∙◌, Bool, true, List, [], ◌∷◌, ◌++◌, arith, Bytes, Option,
  none, some, length, take, drop, length-drop, length-append, Bool-cases, inl, inr, ◌==◌,
}
use final_system_progamming.Http.Types.{HttpRequest, HttpParseResult, parse_ok, bad_request}
use final_system_progamming.Http.Request.{http_parse_request}
use final_system_progamming.Server.Socket.{Outcome, moves, interrupted, failed}
use final_system_progamming.Server.Read.{
  ReadResult, request, end_of_stream, invalid, ReadState, read_next_request, find_header_end,
  block_read, try_at, try_buffer, unless_stopped, taken_by, read_buffer_size, ended,
}
use final_system_progamming.Server.Read.HeaderEnd.{find_header_end-le}
use final_system_progamming.Server.Read.Stream.{received}
use final_system_progamming.Http.Request.{http_should_keep_alive}
use final_system_progamming.Server.Response.{ResponseResult}
use final_system_progamming.Server.Client.{
  World, Connection, handle_client, serve_next, answer, after_answer, after_read, sent_to, close,
}

-- What is left to read of a connection.
abbrev unread : ReadState → ℕ
unread reads = length (reads.buffered ++ reads.incoming)

-- A request takes at least one byte off the stream.
abbrev Shrinks : ℕ → ReadResult × ReadState → Type 0
Shrinks size (request r line, reads) = unread reads < size
Shrinks size (end_of_stream, reads) = Unit
Shrinks size (invalid, reads) = Unit

block_read-Shrinks :
    (parsed : HttpParseResult HttpRequest) (n : ℕ) (incoming buffer : Bytes)
    (receives : List Outcome)
    → 4 ≤ n
    → n ≤ length buffer
    → (goes_on : ReadResult × ReadState)
    → Shrinks
        (length (buffer ++ incoming))
        (unless_stopped (some (block_read parsed n buffer)) incoming receives goes_on)
block_read-Shrinks (parse_ok r) n incoming buffer receives pos le goes_on = omega (
  arith,
  length-append buffer incoming,
  length-append (drop n buffer) incoming,
  length-drop n buffer,
)
block_read-Shrinks bad_request n incoming buffer receives pos le goes_on = tt

unless_stopped-Shrinks :
    (incoming buffer : Bytes) (receives : List Outcome) (goes_on : ReadResult × ReadState)
    → Shrinks (length (buffer ++ incoming)) goes_on
    → Shrinks
        (length (buffer ++ incoming))
        (unless_stopped (try_buffer buffer) incoming receives goes_on)
unless_stopped-Shrinks incoming buffer receives goes_on later = go (find_header_end buffer) refl
  where
    go :
        (found : Option ℕ)
        → find_header_end buffer ≡ found
        → Shrinks
            (length (buffer ++ incoming))
            (unless_stopped (try_at found buffer) incoming receives goes_on)
    go (some n) e =
        let le = find_header_end-le buffer n e in
        block_read-Shrinks (http_parse_request (take n buffer)) n incoming buffer receives le.0 le.1
          goes_on
    go none e = elim (Bool-cases (length buffer == read_buffer_size)) [
      | inl full ↦ rw full tt
      | inr room ↦ rw room later
    ]

ended-Shrinks :
    (size : ℕ) (incoming buffer : Bytes) (receives : List Outcome)
    → Shrinks size (ended buffer incoming receives)
ended-Shrinks size incoming buffer receives = elim (Bool-cases (length buffer == 0)) [
  | inl nothing ↦ rw nothing tt
  | inr some_left ↦ rw some_left tt
]

read_next_request-Shrinks :
    (receives : List Outcome) (incoming buffer : Bytes)
    → Shrinks (length (buffer ++ incoming)) (read_next_request receives incoming buffer)
unfolding read_next_request
read_next_request-Shrinks [] incoming buffer =
    unless_stopped-Shrinks incoming buffer [] _ (ended-Shrinks _ incoming buffer [])
read_next_request-Shrinks (interrupted ∷ receives) incoming buffer =
    unless_stopped-Shrinks incoming buffer (interrupted ∷ receives) _
      (read_next_request-Shrinks receives incoming buffer)
read_next_request-Shrinks (failed ∷ receives) incoming buffer =
    unless_stopped-Shrinks incoming buffer (failed ∷ receives) _ tt
read_next_request-Shrinks (moves n ∷ receives) incoming buffer =
    let k = taken_by n incoming buffer in
    unless_stopped-Shrinks incoming buffer (moves n ∷ receives) _ (elim (Bool-cases (k == 0)) [
      | inl nothing ↦ rw nothing (ended-Shrinks _ incoming buffer receives)
      | inr some_come ↦
          let again =
            read_next_request-Shrinks receives (drop k incoming) (buffer ++ take k incoming) in
          rw some_come (rw (received k incoming buffer) at again)
    ])

-- A round that goes on leaves less to read, and no round closes the socket.
Goes : ℕ → ℕ → Bool × Connection → Type 0
Goes size closed (goes_on, client) =
    (client.closed ≡ closed) × (goes_on ≡ true → unread client.reads < size)

after_answer-Goes :
    (world : World) (client : Connection) (line : Bytes) (keep : Bool)
    (result : Option ResponseResult) {size : ℕ}
    → unread client.reads < size
    → Goes size client.closed (after_answer world client line keep result)
unfolding Goes
after_answer-Goes world client line keep none h = (refl, λ e. h)
after_answer-Goes world client line keep (some result) h = (refl, λ e. h)

after_read-Goes :
    (world : World) (client : Connection) (result : ReadResult) (reads : ReadState) (size : ℕ)
    → Shrinks size (result, reads)
    → Goes size client.closed (after_read world client result reads)
unfolding Goes
after_read-Goes world client (request r line) reads size h =
    let keep = http_should_keep_alive (some r) in
    let reply = answer world client.sends r keep in
    unfold Goes in after_answer-Goes world (sent_to client reads reply) line keep reply.result h
after_read-Goes world client end_of_stream reads size h = (refl, λ e. cc)
after_read-Goes world client invalid reads size h = (refl, λ e. cc)

serve_next-Goes :
    (world : World) (client : Connection)
    → Goes (unread client.reads) client.closed (serve_next world client)
unfolding serve_next
serve_next-Goes world client =
    after_read-Goes world client _ _ _
      (read_next_request-Shrinks client.reads.receives client.reads.incoming client.reads.buffered)

-- For a socket on which every call of `recv` and `send` returns: with one round more than the
-- bytes that the client sends, the loop of `handle_client` is over, whatever those calls return
-- and whatever the files and the requests are. It has then closed the socket exactly once. The
-- calls have no timeout: a client that keeps the connection and stays silent is not among these
-- sockets.
pub handle_client-returns :
    (fuel : ℕ) (world : World) (client : Connection)
    → length (client.reads.buffered ++ client.reads.incoming) < fuel
    → (client' : Connection) × (handle_client fuel world client ≡ some client')
      × (client'.closed ≡ suc client.closed)
unfolding handle_client Goes
handle_client-returns zero world client h = absurd (omega arith)
handle_client-returns (suc fuel) world client h =
    let client' = (serve_next world client).1 in
    let round = serve_next-Goes world client in
    elim (Bool-cases (serve_next world client).0) [
      | inl goes_on ↦
          let (ended_as, result, closed) =
            handle_client-returns fuel world client' (omega (arith, h, round.1 goes_on)) in
          rw goes_on (ended_as, result, closed ∙ ap suc round.0)
      | inr over ↦ rw over (close client', refl, ap suc round.0)
    ]

-- However long it takes, a loop that is over has closed the socket once.
pub handle_client-closed :
    (fuel : ℕ) (world : World) (client client' : Connection)
    → handle_client fuel world client ≡ some client'
    → client'.closed ≡ suc client.closed
unfolding handle_client Goes
handle_client-closed zero world client client' e = absurd (ground (arith, e))
handle_client-closed (suc fuel) world client client' e =
    let round = serve_next-Goes world client in
    elim (Bool-cases (serve_next world client).0) [
      | inl goes_on ↦
          handle_client-closed fuel world (serve_next world client).1 client' (rw goes_on at e)
          ∙ ap suc round.0
      | inr over ↦ ground (arith, rw over at e, round.0)
    ]
