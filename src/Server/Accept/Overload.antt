-- ===== src/Server/Accept/Overload.antt =====
-- What becomes of a socket that the accept loop has accepted.
use final_system_progamming.Common.{
  ℕ, ◌≡◌, ◌≤◌, refl, ◌∙◌, Bool, false, not, ◌&&◌, List, [], ◌∷◌, ◌++◌, Option, none, some, Bytes,
  codes, decimal, arith, length, if◌then◌else◌, ◌==◌,
}
use final_system_progamming.Http.Request.{http_status_text}
use final_system_progamming.Queue.{enqueue_locked}
use final_system_progamming.Queue.Fifo.{Fifo}
use final_system_progamming.Queue.Invariant.{IsValid}
use final_system_progamming.Queue.Refines.{view, length-slots, enqueue-contents}
use final_system_progamming.Server.Socket.{Outcome}
use final_system_progamming.Server.Socket.Delivery.{willing}
use final_system_progamming.Server.Response.{
  header_block, simple_lines, response_version, send_simple_response,
}
use final_system_progamming.Server.Response.Bodies.{send_simple_response-frames}
use final_system_progamming.Server.Client.{LogEntry, get_client_ip}
use final_system_progamming.Server.Accept.{System, hand_over}

abbrev pub unavailable : Bytes
unavailable =
    codes "HTTP/1.1 503 Service Unavailable\r\nContent-Type: text/plain\r\n"
    ++ codes "Content-Length: 20\r\nConnection: close\r\n\r\nService Unavailable\n"

abbrev pub unavailable_entry : Bytes → LogEntry
unavailable_entry client_ip = record {
  client_ip = client_ip;
  request_line = codes "-";
  status_code = 503;
  body_bytes = 20;
}

abbrev pub is_full : Fifo → ℕ → Bool
is_full f capacity = not f.is_closed && length f.waiting == capacity

abbrev pub takes_in : Fifo → ℕ → Bool
takes_in f capacity = not f.is_closed && not (length f.waiting == capacity)

head_text :
    header_block (simple_lines none 503 (length (codes "Service Unavailable\n")) false)
      ++ codes "Service Unavailable\n"
    ≡ unavailable
unfolding response_version decimal http_status_text
head_text = refl

refusal :
    (sends : List Outcome)
    → length unavailable ≤ willing sends
    → let p = send_simple_response sends none 503 (codes "Service Unavailable\n") false in
      (p.bytes ≡ unavailable) × (p.result ≡ some (record { status_code = 503; body_bytes = 20 }))
unfolding response_version decimal http_status_text
refusal sends w =
    let p =
      send_simple_response-frames sends none 503 (codes "Service Unavailable\n") false (omega arith)
        w in
    (p.0 ∙ head_text, p.2)

-- The rest of the loop's body puts a descriptor behind those that wait, or closes it: it closes it
-- if the queue has been shut down or is full, and where it is full, and not shut down, the client
-- gets a response with the status 503 first, which is logged. This is for a valid queue and calls
-- of `send` that go through.
pub hand_over_lem :
    (m : System) (peer : Option Bytes) (sends : List Outcome) (fd : ℕ)
    → IsValid m.queue
    → length unavailable ≤ willing sends
    → let m' = hand_over peer sends fd m in
      let f = view m.queue in
      let capacity = m.queue.capacity in
      (m'.in_hand ≡ none)
      × (view m'.queue
          ≡ (if takes_in f capacity then record f { waiting = f.waiting ++ fd ∷ [] } else f))
      × (m'.closed ≡ (if takes_in f capacity then m.closed else m.closed ++ fd ∷ []))
      × (m'.refused
          ≡ (if is_full f capacity then m.refused ++ (fd, unavailable) ∷ [] else m.refused))
      × (m'.log ≡ (
          if is_full f capacity
          then m.log ++ unavailable_entry (get_client_ip peer) ∷ []
          else m.log))
unfolding hand_over enqueue_locked
hand_over_lem m peer sends fd v w = ground (
  arith,
  refusal sends w,
  length-slots m.queue.items m.queue.capacity m.queue.head m.queue.count,
  enqueue-contents fd v,
)
