-- ===== src/Queue/Fifo.antt =====
-- What the queue promises its callers: a bounded first-in first-out list that can be closed.
use final_system_progamming.Common.{
  ℕ, ◌++◌, Bool, true, false, List, [], ◌∷◌, ◌==◌, if◌then◌else◌, length,
}
use final_system_progamming.Queue.{QueueResult, ok, full, closed}

pub record Fifo : Type 0 where
  pub waiting : List ℕ
  pub is_closed : Bool

-- A caller's requests, under the mutex and in the order in which they take it.
pub data Request : Type 0 where
  put : ℕ → Request
  get : Request
  close : Request

-- `blocked` is a `get` that has to wait.
pub data Reply : Type 0 where
  put_result : QueueResult → Reply
  got : ℕ → Reply
  got_closed : Reply
  blocked : Reply
  done : Reply

abbrev take_first : Bool → List ℕ → Reply × Fifo
take_first true [] = (got_closed, record { waiting = []; is_closed = true })
take_first false [] = (blocked, record { waiting = []; is_closed = false })
take_first c (x ∷ xs) = (got x, record { waiting = xs; is_closed = c })

unfoldable pub serve : ℕ → Fifo → Request → Reply × Fifo
serve capacity f (put x) =
    if f.is_closed
    then (put_result closed, f)
    else if length f.waiting == capacity
    then (put_result full, f)
    else (put_result ok, record f { waiting = f.waiting ++ x ∷ [] })
serve capacity f get = take_first f.is_closed f.waiting
serve capacity f close = (done, record f { is_closed = true })

unfoldable pub serve_all : ℕ → Fifo → List Request → List Reply
serve_all capacity f [] = []
serve_all capacity f (r ∷ rs) =
    let (reply, f') = serve capacity f r in reply ∷ serve_all capacity f' rs
