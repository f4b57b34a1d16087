-- ===== src/Server/Socket.antt =====
-- The socket of a client, and `send_all` (src/server.c). What the calls of `send` and `recv` do is
-- a parameter: the outcomes of the calls to come, in order.
pub mod Delivery
use final_system_progamming.Common.{
  ℕ, Bool, true, false, List, [], ◌∷◌, ◌++◌, Bytes, ◌==◌, if◌then◌else◌, take, drop,
}

-- A call moves as many bytes as it says, or less where less is asked for or there; a failure with
-- `errno` EINTR is `interrupted`. These are the outcomes of calls that return: one that blocks for
-- ever has none. A call behind the last outcome moves none.
pub data Outcome : Type 0 where
  moves : ℕ → Outcome
  interrupted failed : Outcome

-- `done` is the result 0.
pub record Sent : Type 0 where
  pub done : Bool
  pub bytes : Bytes
  pub sends : List Outcome

abbrev pub sent_rest : Bytes → Sent → Sent
sent_rest front rest = record rest { bytes = front ++ rest.bytes }

-- The outcomes come first; the bytes are those from `data + sent` on.
unfoldable pub send_all : List Outcome → Bytes → Sent
send_all sends [] = record { done = true; bytes = []; sends = sends }
send_all [] (b ∷ text) = record { done = false; bytes = []; sends = [] }
send_all (interrupted ∷ sends) (b ∷ text) = send_all sends (b ∷ text)
send_all (failed ∷ sends) (b ∷ text) = record { done = false; bytes = []; sends = sends }
send_all (moves n ∷ sends) (b ∷ text) =
    let rest = send_all sends (drop n (b ∷ text)) in
    if n == 0
    then record { done = false; bytes = []; sends = sends }
    else sent_rest (take n (b ∷ text)) rest
