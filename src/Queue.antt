-- ===== src/Queue.antt =====
-- The bounded queue of accepted sockets (src/thread_pool.c, include/thread_pool.h). A file
-- descriptor is a number. What runs under the mutex is one step here; the condition variables are
-- the signals that a call sends (`Queue.Monitor` says whom they wake).
pub mod Resources
pub mod Invariant
pub mod Fifo
pub mod Refines
pub mod Worker
pub mod Pool
pub mod Monitor
use final_system_progamming.Common.{
  ℕ, ◌+◌, ◌-◌, ◌%◌, Bool, true, false, not, ◌&&◌, List, [], ◌∷◌, Option, none, some, ◌==◌,
  if◌then◌else◌, get_elem?, set, replicate, add_size,
}

-- `queue_result_t`
pub data QueueResult : Type 0 where
  ok full closed error : QueueResult

-- `not_empty` and `not_full`
pub data Condition : Type 0 where
  not_empty not_full : Condition

-- `pthread_cond_signal` and `pthread_cond_broadcast`
pub data Signal : Type 0 where
  wake_one : Condition → Signal
  wake_all : Condition → Signal

-- `struct socket_queue`
pub record SocketQueue : Type 0 where
  pub items : List ℕ
  pub capacity : ℕ
  pub head : ℕ
  pub tail : ℕ
  pub count : ℕ
  pub shutdown : Bool

-- What `calloc` leaves in the struct, with its capacity set and its array allocated.
abbrev pub fresh : ℕ → SocketQueue
fresh capacity = record {
  items = replicate capacity 0;
  capacity = capacity;
  head = 0;
  tail = 0;
  count = 0;
  shutdown = false;
}

-- The body of `socket_queue_enqueue` between lock and unlock.
unfoldable pub enqueue_locked : SocketQueue → ℕ → QueueResult × List Signal × SocketQueue
enqueue_locked q client_fd =
    if q.shutdown then (closed, [], q) else if q.count == q.capacity then (full, [], q) else (
      ok,
      wake_one not_empty ∷ [],
      record q {
        items = set q.items q.tail client_fd;
        tail = add_size q.tail 1 % q.capacity;
        count = add_size q.count 1;
      },
    )

-- `none` is the null pointer.
unfoldable pub socket_queue_enqueue :
    Option SocketQueue → ℕ → QueueResult × List Signal × Option SocketQueue
unfolding enqueue_locked
socket_queue_enqueue none client_fd = (error, [], none)
socket_queue_enqueue (some q) client_fd =
    let (result, signals, q') = enqueue_locked q client_fd in (result, signals, some q')

-- What a worker that holds the mutex does at the loop test of `socket_queue_dequeue`: it goes to
-- sleep on `not_empty`, or it leaves with a result, what it wrote to `*client_fd`, and signals.
pub data Attempt : Type 0 where
  wait : Attempt
  leave : QueueResult → Option ℕ → List Signal → SocketQueue → Attempt

-- The option is what is read from `items[head]`: `none` would be a read out of range.
unfoldable pub dequeue_attempt : SocketQueue → Attempt
dequeue_attempt q =
    if q.count == 0 && not q.shutdown
    then wait
    else if q.count == 0 && q.shutdown
    then leave closed none [] q
    else leave ok (get_elem? q.items q.head) (wake_one not_full ∷ [])
        (record q { head = add_size q.head 1 % q.capacity; count = q.count - 1 })

-- `none` is the early return of `QUEUE_ERROR`; the flag says that `client_fd` is not null.
unfoldable pub socket_queue_dequeue : Option SocketQueue → Bool → Option Attempt
unfolding dequeue_attempt
socket_queue_dequeue none out = none
socket_queue_dequeue (some q) out = if out then some (dequeue_attempt q) else none

unfoldable pub shutdown_locked : SocketQueue → List Signal × SocketQueue
shutdown_locked q = (wake_all not_empty ∷ wake_all not_full ∷ [], record q { shutdown = true })

unfoldable pub socket_queue_shutdown : Option SocketQueue → List Signal × Option SocketQueue
unfolding shutdown_locked
socket_queue_shutdown none = ([], none)
socket_queue_shutdown (some q) = let (signals, q') = shutdown_locked q in (signals, some q')
