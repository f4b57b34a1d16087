-- ===== src/Server/Client/Whole/Reads.antt =====
-- What `read_next_request` returns of a connection that delivers all of its bytes.
use final_system_progamming.Common.{
  ℕ, zero, suc, ◌≡◌, ◌≤◌, ◌<◌, refl, ap, true, false, List, [], ◌∷◌, ◌++◌, arith, Bytes, ◌==◌,
  length, take, drop, length-take, length-drop, length-append, Bool-cases, inl, inr,
}
use final_system_progamming.Server.Socket.{Outcome, moves, interrupted, failed}
use final_system_progamming.Server.Read.{read_next_request, read_buffer_size, taken_by}
use final_system_progamming.Server.Read.Stream.{received}
use final_system_progamming.Server.Client.Whole.{
  Delivers, IsWhole, unless_stopped-IsWhole, ended-IsWhole,
}

nil_of_none : (incoming : Bytes) → length incoming ≤ 0 → incoming ≡ []
nil_of_none [] h = refl
nil_of_none (b ∷ incoming) h = absurd (omega arith)

-- A call that brings nothing, with room in the buffer, finds nothing left.
quiet :
    (n : ℕ) (incoming buffer : Bytes) (receives : List Outcome)
    → length buffer < read_buffer_size
    → (taken_by n incoming buffer == 0) ≡ true
    → Delivers (moves n ∷ receives) incoming
    → incoming ≡ []
quiet zero incoming buffer receives room k d = nil_of_none incoming d.1
quiet (suc n) incoming buffer receives room k d = nil_of_none incoming (ground (arith, room, k))

-- One that brings something uses up one of the calls.
brings :
    (n : ℕ) (incoming buffer : Bytes) (receives : List Outcome)
    → (taken_by n incoming buffer == 0) ≡ false
    → Delivers (moves n ∷ receives) incoming
    → Delivers receives (drop (taken_by n incoming buffer) incoming)
brings zero incoming buffer receives k d = absurd (ground (arith, k))
brings (suc n) incoming buffer receives k d =
    (d.0, ground (arith, k, d.1, length-drop (taken_by (suc n) incoming buffer) incoming))

pub read_next_request-IsWhole :
    (receives : List Outcome) (incoming buffer : Bytes)
    → length buffer ≤ read_buffer_size
    → Delivers receives incoming
    → IsWhole (buffer ++ incoming) (read_next_request receives incoming buffer)
unfolding read_next_request
read_next_request-IsWhole [] incoming buffer h d =
    unless_stopped-IsWhole incoming buffer [] h d _
      (λ missing room. ended-IsWhole incoming buffer [] h d (nil_of_none incoming d.1) missing)
read_next_request-IsWhole (interrupted ∷ receives) incoming buffer h d =
    unless_stopped-IsWhole incoming buffer (interrupted ∷ receives) h d _
      (λ missing room. read_next_request-IsWhole receives incoming buffer h d)
read_next_request-IsWhole (failed ∷ receives) incoming buffer h d = absurd (ground (arith, d.0))
read_next_request-IsWhole (moves n ∷ receives) incoming buffer h d =
    let k = taken_by n incoming buffer in
    unless_stopped-IsWhole incoming buffer (moves n ∷ receives) h d _ (λ missing room.
      elim (Bool-cases (k == 0)) [
        | inl nothing ↦
            let none_left = quiet n incoming buffer receives room nothing d in
            rw nothing (
              ended-IsWhole incoming buffer receives h (d.0, omega (arith, ap length none_left))
                none_left missing)
        | inr some_come ↦
            let again =
              read_next_request-IsWhole receives (drop k incoming) (buffer ++ take k incoming)
                (omega (arith, h, length-append buffer (take k incoming), length-take k incoming))
                (brings n incoming buffer receives some_come d) in
            rw some_come (rw (received k incoming buffer) at again)
      ])
