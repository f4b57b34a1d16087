-- ===== src/Server/Read/Stream.antt =====
-- What is read depends on the bytes that the client sends only, not on how they arrive.
use final_system_progamming.Common.{
  ℕ, zero, suc, ◌+◌, ◌≡◌, ◌≤◌, ◌<◌, refl, sym, ap, ◌∙◌, false, List, [], ◌∷◌, ◌++◌, append_assoc,
  arith, Bytes, some, ◌==◌, length, take, drop, length-take, take-append, drop-append,
  length-append, take-append-drop, Option-cases, inl, inr,
}
use final_system_progamming.Http.Types.{HttpRequest, HttpParseResult, parse_ok, bad_request}
use final_system_progamming.Http.Request.{http_parse_request}
use final_system_progamming.Server.Socket.{Outcome, moves, interrupted, failed}
use final_system_progamming.Server.Socket.Delivery.{allows}
use final_system_progamming.Server.Read.HeaderEnd.{
  find_header_end-le, find_header_end-append, find_header_end-none,
}
use final_system_progamming.Server.Read.{
  ReadResult, invalid, ReadState, find_header_end, take_block, block_read, request_line_size,
  request, unless_stopped, try_buffer, read_next_request, read_buffer_size, taken_by,
  extract_request_line,
}

block_read-append :
    (parsed : HttpParseResult HttpRequest) (n : ℕ) (buffer incoming : Bytes)
    → n ≤ length buffer
    → ((block_read parsed n (buffer ++ incoming)).0 ≡ (block_read parsed n buffer).0)
      × ((block_read parsed n (buffer ++ incoming)).1 ≡ (block_read parsed n buffer).1 ++ incoming)
block_read-append (parse_ok r) n buffer incoming h = (
  ap (λ block. request r (extract_request_line block request_line_size))
      (take-append n buffer incoming h),
  drop-append n buffer incoming h,
)
block_read-append bad_request n buffer incoming h = (refl, refl)

pub take_block-append :
    (n : ℕ) (buffer incoming : Bytes)
    → n ≤ length buffer
    → ((take_block n (buffer ++ incoming)).0 ≡ (take_block n buffer).0)
      × ((take_block n (buffer ++ incoming)).1 ≡ (take_block n buffer).1 ++ incoming)
take_block-append n buffer incoming h =
    rw (take-append n buffer incoming h)
      (block_read-append (http_parse_request (take n buffer)) n buffer incoming h)

-- The first block of the stream is complete, fits the buffer, and can be received.
record Deliverable (n : ℕ) (receives : List Outcome) (incoming buffer : Bytes) : Type 0 where
  ends : find_header_end (buffer ++ incoming) ≡ some n
  fits : n ≤ read_buffer_size
  holds : length buffer ≤ read_buffer_size
  arrives : n ≤ length buffer + allows receives

-- The stream after a call of `recv` that takes `k` bytes.
pub received :
    (k : ℕ) (incoming buffer : Bytes)
    → (buffer ++ take k incoming) ++ drop k incoming ≡ buffer ++ incoming
received k incoming buffer =
    append_assoc buffer (take k incoming) (drop k incoming)
    ∙ ap (λ xs. buffer ++ xs) (take-append-drop k incoming)

-- The result of a block, and the bytes left of the stream.
abbrev IsRead : ReadResult × Bytes → ReadResult × ReadState → Type 0
IsRead block read = (read.0 ≡ block.0) × (read.1.buffered ++ read.1.incoming ≡ block.1)

module _ (n : ℕ) where
  unless_stopped-IsRead :
      (receives : List Outcome) (incoming buffer : Bytes) (goes_on : ReadResult × ReadState)
      → Deliverable n receives incoming buffer
      → (length buffer < n → IsRead (take_block n (buffer ++ incoming)) goes_on)
      → IsRead
          (take_block n (buffer ++ incoming))
          (unless_stopped (try_buffer buffer) incoming receives goes_on)
  unless_stopped-IsRead receives incoming buffer goes_on d later =
      elim (Option-cases (find_header_end buffer)) [
        | inl missing ↦
            let short = find_header_end-none buffer incoming n missing d.ends in
            let room : (length buffer == read_buffer_size) ≡ false =
              ground (arith, short, d.fits) in
            rw (missing, room) (later short)
        | inr (m, here) ↦
            let same : m ≡ n =
              ground (arith, find_header_end-append buffer incoming m here, d.ends) in
            let le = (find_header_end-le buffer m here).1 in
            let t = take_block-append n buffer incoming (omega (arith, le, same)) in
            rw (here, same) (sym t.0, sym t.1)
      ]

  received-Deliverable :
      (m : ℕ) (receives : List Outcome) (incoming buffer : Bytes)
      → Deliverable n (moves (suc m) ∷ receives) incoming buffer
      → let k = taken_by (suc m) incoming buffer in
        Deliverable n receives (drop k incoming) (buffer ++ take k incoming)
  received-Deliverable m receives incoming buffer d =
      let k = taken_by (suc m) incoming buffer in
      let longer : length (buffer ++ take k incoming) ≡ length buffer + k =
        omega (arith, length-append buffer (take k incoming), length-take k incoming) in
      let all = (find_header_end-le (buffer ++ incoming) n d.ends).1 in
      record {
        ends = rw (received k incoming buffer) d.ends;
        fits = d.fits;
        holds = omega (arith, longer, d.holds);
        arrives =
            omega (arith, longer, all, length-append buffer incoming, d.holds, d.fits, d.arrives);
      }

  read_next_request-IsRead :
      (receives : List Outcome) (incoming buffer : Bytes)
      → Deliverable n receives incoming buffer
      → IsRead (take_block n (buffer ++ incoming)) (read_next_request receives incoming buffer)
  unfolding read_next_request
  read_next_request-IsRead [] incoming buffer d =
      unless_stopped-IsRead [] incoming buffer _ d (λ short. absurd (omega (arith, d.arrives)))
  read_next_request-IsRead (interrupted ∷ receives) incoming buffer d =
      unless_stopped-IsRead (interrupted ∷ receives) incoming buffer _ d (λ short.
        read_next_request-IsRead receives incoming buffer
          (record { ends = d.ends; fits = d.fits; holds = d.holds; arrives = d.arrives }))
  read_next_request-IsRead (failed ∷ receives) incoming buffer d =
      unless_stopped-IsRead (failed ∷ receives) incoming buffer _ d
        (λ short. absurd (omega (arith, d.arrives)))
  read_next_request-IsRead (moves zero ∷ receives) incoming buffer d =
      unless_stopped-IsRead (moves zero ∷ receives) incoming buffer _ d
        (λ short. absurd (omega (arith, d.arrives)))
  read_next_request-IsRead (moves (suc m) ∷ receives) incoming buffer d =
      unless_stopped-IsRead (moves (suc m) ∷ receives) incoming buffer _ d (λ short.
        let k = taken_by (suc m) incoming buffer in
        let all = (find_header_end-le (buffer ++ incoming) n d.ends).1 in
        let some_come : (k == 0) ≡ false =
          ground (arith, all, length-append buffer incoming, short, d.fits) in
        let again =
          read_next_request-IsRead receives (drop k incoming) (buffer ++ take k incoming)
            (received-Deliverable m receives incoming buffer d) in
        rw some_come (rw (received k incoming buffer) at again))

pub read_next_request-take_block :
    (receives : List Outcome) (incoming buffer : Bytes) {n : ℕ}
    → find_header_end (buffer ++ incoming) ≡ some n
    → n ≤ read_buffer_size
    → length buffer ≤ read_buffer_size
    → n ≤ length buffer + allows receives
    → let read = read_next_request receives incoming buffer in
      (read.0 ≡ (take_block n (buffer ++ incoming)).0)
      × (read.1.buffered ++ read.1.incoming ≡ (take_block n (buffer ++ incoming)).1)
read_next_request-take_block receives incoming buffer {n} e fits holds arrives =
    read_next_request-IsRead n receives incoming buffer
      (record { ends = e; fits = fits; holds = holds; arrives = arrives })

pub read_next_request-request :
    (receives : List Outcome) (incoming buffer : Bytes) {n : ℕ} {r : HttpRequest}
    → find_header_end (buffer ++ incoming) ≡ some n
    → n ≤ read_buffer_size
    → length buffer ≤ read_buffer_size
    → n ≤ length buffer + allows receives
    → http_parse_request (take n (buffer ++ incoming)) ≡ parse_ok r
    → let read = read_next_request receives incoming buffer in
      let line = extract_request_line (take n (buffer ++ incoming)) request_line_size in
      (read.0 ≡ request r line) × (read.1.buffered ++ read.1.incoming ≡ drop n (buffer ++ incoming))
read_next_request-request receives incoming buffer {n} e fits holds arrives parse =
    let p = read_next_request-take_block receives incoming buffer e fits holds arrives in
    let block = ap (λ q. block_read q n (buffer ++ incoming)) parse in
    (p.0 ∙ ap (λ q. q.0) block, p.1 ∙ ap (λ q. q.1) block)

-- However the client's bytes arrive: once the calls of `recv` can bring the first header block of
-- the stream, it fits the buffer and does not parse, `read_next_request` fails, and takes nothing
-- off the stream.
read_next_request-invalid :
    (receives : List Outcome) (incoming buffer : Bytes) {n : ℕ}
    → find_header_end (buffer ++ incoming) ≡ some n
    → n ≤ read_buffer_size
    → length buffer ≤ read_buffer_size
    → n ≤ length buffer + allows receives
    → http_parse_request (take n (buffer ++ incoming)) ≡ bad_request
    → let read = read_next_request receives incoming buffer in
      (read.0 ≡ invalid) × (read.1.buffered ++ read.1.incoming ≡ buffer ++ incoming)
read_next_request-invalid receives incoming buffer {n} e fits holds arrives parse =
    let p = read_next_request-take_block receives incoming buffer e fits holds arrives in
    let block = ap (λ q. block_read q n (buffer ++ incoming)) parse in
    (p.0 ∙ ap (λ q. q.0) block, p.1 ∙ ap (λ q. q.1) block)
