-- ===== src/Server/Client/Segments.antt =====
-- A connection is served by its bytes, not by how they arrive.
use mathlib.Core.Option
use mathlib.Core.Option.{some-injective}
use mathlib.Core.Path.{subst}
use final_system_progamming.Common.{
  ℕ, zero, suc, ◌≡◌, ◌<◌, refl, sym, ap, ap₂, ◌∙◌, Bool, List, arith, Bytes, Option, none, some,
  length, Bool-cases, inl, inr,
}
use final_system_progamming.Http.Request.{http_should_keep_alive}
use final_system_progamming.Server.Read.{
  ReadResult, request, end_of_stream, invalid, ReadState, read_next_request,
}
use final_system_progamming.Server.Read.Sound.{read_next_request-Explains}
use final_system_progamming.Server.Response.{ResponseResult}
use final_system_progamming.Server.Client.{
  World, Connection, LogEntry, handle_client, serve_next, after_read, after_answer, answer, sent_to,
  close,
}
use final_system_progamming.Server.Client.Rounds.{handle_client-returns}
use final_system_progamming.Server.Client.Alike.{
  IsReady, stream_of, IsAlike, outcome_of, after_read-IsAlike,
}
use final_system_progamming.Server.Client.Whole.{SameLine}
use final_system_progamming.Server.Client.Whole.Reads.{read_next_request-IsWhole}

reads-after_answer :
    (world : World) (client : Connection) (line : Bytes) (keep : Bool)
    (result : Option ResponseResult)
    → (after_answer world client line keep result).1.reads ≡ client.reads
reads-after_answer world client line keep none = refl
reads-after_answer world client line keep (some result) = refl

reads-after_read :
    (world : World) (client : Connection) (result : ReadResult) (reads : ReadState)
    → (after_read world client result reads).1.reads ≡ reads
reads-after_read world client end_of_stream reads = refl
reads-after_read world client invalid reads = refl
reads-after_read world client (request r line) reads =
    let keep = http_should_keep_alive (some r) in
    let reply = answer world client.sends r keep in
    reads-after_answer world (sent_to client reads reply) line keep reply.result

pub serve_next-IsReady :
    (world : World) (client : Connection)
    → IsReady client.reads
    → IsReady (serve_next world client).1.reads
unfolding serve_next
serve_next-IsReady world client ready =
    let reads = client.reads in
    let read = read_next_request reads.receives reads.incoming reads.buffered in
    let whole =
      read_next_request-IsWhole reads.receives reads.incoming reads.buffered ready.holds
        ready.delivers in
    let fits =
      read_next_request-Explains reads.receives reads.incoming reads.buffered ready.holds in
    subst IsReady (sym (reads-after_read world client read.0 read.1))
      (record { holds = fits.1; delivers = whole.3 })

serve_next-IsAlike :
    (world : World) (a b : Connection)
    → IsReady a.reads
    → IsReady b.reads
    → IsAlike a b
    → ((serve_next world a).0 ≡ (serve_next world b).0)
      × IsAlike (serve_next world a).1 (serve_next world b).1
unfolding serve_next
serve_next-IsAlike world a b ra rb s =
    let read_a = read_next_request a.reads.receives a.reads.incoming a.reads.buffered in
    let read_b = read_next_request b.reads.receives b.reads.incoming b.reads.buffered in
    let wa =
      read_next_request-IsWhole a.reads.receives a.reads.incoming a.reads.buffered ra.holds
        ra.delivers in
    let wb = rw (← s.same_stream) at (
      read_next_request-IsWhole b.reads.receives b.reads.incoming b.reads.buffered rb.holds
        rb.delivers) in
    let same = wb.0 ∙ sym wa.0 in
    let line = subst (λ result. SameLine (stream_of a.reads) result read_b.1.buffered) same wb.2 in
    subst
      (λ result.
        ((after_read world a read_a.0 read_a.1).0 ≡ (after_read world b result read_b.1).0)
        × IsAlike (after_read world a read_a.0 read_a.1).1 (after_read world b result read_b.1).1)
      (sym same)
      (after_read-IsAlike world read_a.0 read_a.1 read_b.1 (stream_of a.reads) s (wa.1 ∙ sym wb.1)
        wa.2 line)

close-outcome : {a b : Connection} → IsAlike a b → outcome_of (close a) ≡ outcome_of (close b)
close-outcome s =
    ap₂ (λ out (rest : List LogEntry × ℕ). (out, rest.0, rest.1)) s.same_outgoing
      (ap₂ (λ log closed. (log, suc closed)) s.same_log s.same_closed)

handle_client-IsAlike :
    (fuel : ℕ) (world : World) (a b : Connection)
    → IsReady a.reads
    → IsReady b.reads
    → IsAlike a b
    → Option.map outcome_of (handle_client fuel world a)
      ≡ Option.map outcome_of (handle_client fuel world b)
unfolding handle_client
handle_client-IsAlike zero world a b ra rb s = refl
handle_client-IsAlike (suc fuel) world a b ra rb s =
    let round = serve_next-IsAlike world a b ra rb s in
    let next_a = (serve_next world a).1 in
    let next_b = (serve_next world b).1 in
    let again =
      handle_client-IsAlike fuel world next_a next_b (serve_next-IsReady world a ra)
        (serve_next-IsReady world b rb) round.1 in
    elim (Bool-cases (serve_next world a).0) [
      | inl goes_on ↦ rw (goes_on, sym round.0 ∙ goes_on) again
      | inr over ↦ rw (over, sym round.0 ∙ over) (ap some (close-outcome round.1))
    ]

-- How the client's bytes arrive makes no difference: two connections of which the same bytes have
-- still to be served, with the same answers of `send`, are served alike. With one round more than
-- these bytes the loop of `handle_client` is over for both, the same bytes have gone out, the same
-- lines are logged, and the socket has been closed as often. What the two may differ in is how
-- much of the stream is in the buffer already and in which pieces, and with how many interrupted
-- calls, the rest comes; all of it does come, and no call of `recv` fails.
pub handle_client-stream :
    (fuel : ℕ) (world : World) (a b : Connection)
    → IsReady a.reads
    → IsReady b.reads
    → IsAlike a b
    → length (stream_of a.reads) < fuel
    → (a' : Connection) × (b' : Connection) × (handle_client fuel world a ≡ some a')
      × (handle_client fuel world b ≡ some b')
      × (outcome_of a' ≡ outcome_of b')
handle_client-stream fuel world a b ra rb s h =
    let (a', is_a, _) = handle_client-returns fuel world a h in
    let (b', is_b, _) =
      handle_client-returns fuel world b (omega (arith, h, ap length s.same_stream)) in
    let same = rw (is_a, is_b) at (handle_client-IsAlike fuel world a b ra rb s) in
    (a', b', is_a, is_b, some-injective _ _ same)
