-- ===== src/Queue/Monitor.antt =====
-- The queue with its threads: the accept loop enqueues, any number of workers dequeue, a signal
-- shuts down. Each step is one stretch of code under the mutex.
pub mod Sound
use final_system_progamming.Common.{
  add_size, Bool-cases, inl, inr, ℕ, ◌+◌, ◌-◌, ◌%◌, ◌≤◌, ◌<◌, ◌≡◌, refl, true, false, List, [], ◌∷◌,
  ◌++◌, Option, none, some, arith, append_assoc, if◌then◌else◌, ◌==◌, get_or, size_mod,
}
use final_system_progamming.Queue.{
  SocketQueue, QueueResult, ok, full, closed, error, not_empty, not_full, Signal, wake_one,
  wake_all, fresh, enqueue_locked, Attempt, wait, leave, dequeue_attempt, shutdown_locked,
}
use final_system_progamming.Queue.Invariant.{
  IsValid, fresh-IsValid, no_wrap, enqueue_locked-IsValid, dequeue_attempt-IsValid,
  shutdown_locked-IsValid,
}
use final_system_progamming.Queue.Refines.{contents, enqueue-contents, dequeue-contents, slots}

-- `sleeping` workers are in `pthread_cond_wait`; `woken` ones have been taken off the condition
-- variable and have still to get the mutex back. `accepted` and `taken` are histories.
pub record Monitor : Type 0 where
  pub queue : SocketQueue
  pub sleeping : ℕ
  pub woken : ℕ
  pub accepted : List ℕ
  pub taken : List ℕ

-- Nobody waits for `not_full`.
unfoldable pub notify : Monitor → Signal → Monitor
notify m (wake_one not_empty) =
    if m.sleeping == 0 then m else record m { sleeping = m.sleeping - 1; woken = m.woken + 1 }
notify m (wake_all not_empty) = record m { sleeping = 0; woken = m.woken + m.sleeping }
notify m (wake_one not_full) = m
notify m (wake_all not_full) = m

unfoldable pub notify_all : Monitor → List Signal → Monitor
unfolding notify
notify_all m [] = m
notify_all m (s ∷ ss) = notify_all (notify m s) ss

abbrev accept : QueueResult → ℕ → List ℕ → List ℕ
accept ok fd fds = fds ++ fd ∷ []
accept full fd fds = fds
accept closed fd fds = fds
accept error fd fds = fds

abbrev take_over : Option ℕ → List ℕ → List ℕ
take_over none fds = fds
take_over (some fd) fds = fds ++ fd ∷ []

-- The accept loop's call of `socket_queue_enqueue`.
unfoldable pub producer_turn : ℕ → Monitor → Monitor
unfolding notify_all
producer_turn fd m =
    let (result, signals, q) = enqueue_locked m.queue fd in
    notify_all (record m { queue = q; accepted = accept result fd m.accepted }) signals

-- `server_stop`'s call of `socket_queue_shutdown`.
unfoldable pub shutdown_turn : Monitor → Monitor
unfolding notify_all
shutdown_turn m =
    let (signals, q) = shutdown_locked m.queue in notify_all (record m { queue = q }) signals

-- A worker that holds the mutex at the loop test of `socket_queue_dequeue`.
abbrev after_attempt : Monitor → Attempt → Monitor
after_attempt m wait = record m { sleeping = m.sleeping + 1 }
after_attempt m (leave result fd signals q) =
    notify_all (record m { queue = q; taken = take_over fd m.taken }) signals

unfoldable pub worker_turn : Monitor → Monitor
unfolding notify_all
worker_turn m = after_attempt m (dequeue_attempt m.queue)

pub data Step : Monitor → Monitor → Type 0 where
  enqueues : (m : Monitor) (fd : ℕ) → Step m (producer_turn fd m)
  stops : (m : Monitor) → Step m (shutdown_turn m)
  arrives : (m : Monitor) → Step m (worker_turn m)
  resumes : (m : Monitor) → 0 < m.woken → Step m (worker_turn (record m { woken = m.woken - 1 }))
  wakes_spuriously :
      (m : Monitor)
      → 0 < m.sleeping
      → Step m (record m { sleeping = m.sleeping - 1; woken = m.woken + 1 })

pub data Reach (s : Monitor) : Monitor → Type 0 where
  here : Reach s s
  next : {m m' : Monitor} → Reach s m → Step m m' → Reach s m'

abbrev pub start : ℕ → Monitor
start capacity = record {
  queue = fresh capacity;
  sleeping = 0;
  woken = 0;
  accepted = [];
  taken = [];
}
