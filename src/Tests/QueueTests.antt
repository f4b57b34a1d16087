-- ===== src/Tests/QueueTests.antt =====
-- Runs of the queue, that of tests/unit_thread_pool.c among them, and its results at an input.
use final_system_progamming.Common.{
  ◌≤◌, ◌≡◌, refl, not, ◌==◌, true, false, List, [], ◌∷◌, ◌++◌, none, arith,
}
use final_system_progamming.Queue.{
  SocketQueue, ok, full, closed, enqueue_locked, dequeue_attempt, shutdown_locked,
  socket_queue_enqueue, socket_queue_dequeue, socket_queue_shutdown, error,
}
use final_system_progamming.Queue.Fifo.{
  Request, put, get, close, put_result, got, got_closed, done, serve_all,
}
use final_system_progamming.Queue.Invariant.{IsValid}
use final_system_progamming.Queue.Monitor.{
  Monitor, start, Reach, here, next, arrives, enqueues, worker_turn, producer_turn,
}
use final_system_progamming.Queue.Monitor.Sound.{no_lost_wakeup, taken-append-contents}
use final_system_progamming.Queue.Refines.{contents, view, perform_all, perform_all_refines}
use final_system_progamming.Queue.Pool.{PoolAnswers, thread_pool_start}
use final_system_progamming.Queue.Worker.{worker_main, ends, worker_main-drains}

-- Two places, 11 in the second and 12 in the first.
abbrev wrapped : SocketQueue
wrapped = record {
  items = 12 ∷ 11 ∷ [];
  capacity = 2;
  head = 1;
  tail = 1;
  count = 2;
  shutdown = false;
}

wrapped-IsValid : IsValid wrapped
wrapped-IsValid = omega arith

abbrev script : List Request
script = put 13 ∷ get ∷ put 13 ∷ close ∷ put 14 ∷ get ∷ get ∷ get ∷ []

fifo_and_full :
    perform_all wrapped script
    ≡ put_result full
      ∷ got 11
      ∷ put_result ok
      ∷ done
      ∷ put_result closed
      ∷ got 12
      ∷ got 13
      ∷ got_closed
      ∷ []
unfolding perform_all enqueue_locked dequeue_attempt shutdown_locked
fifo_and_full = refl

null_queue :
    ((socket_queue_enqueue none 5).0 ≡ error)
    × (socket_queue_dequeue none true ≡ none)
    × ((socket_queue_shutdown none).0 ≡ [])
unfolding socket_queue_enqueue socket_queue_dequeue socket_queue_shutdown
null_queue = (refl, refl, refl)

perform_all_refines_example : perform_all wrapped script ≡ serve_all 2 (view wrapped) script
perform_all_refines_example = perform_all_refines script wrapped-IsValid

worker_main-drains_example :
    let (rest, handled, last) = worker_main 3 (record wrapped { shutdown = true }) in
    (rest ≡ ends) × (handled ≡ 11 ∷ 12 ∷ []) × (last.count ≡ 0)
worker_main-drains_example =
    worker_main-drains 3 {q = record wrapped { shutdown = true }} (omega arith) (omega arith)

abbrev busy : Monitor
busy = producer_turn 7 (worker_turn (worker_turn (start 2)))

busy_reached : Reach (start 2) busy
busy_reached =
    next (next (next here (arrives (start 2))) (arrives (worker_turn (start 2))))
      (enqueues (worker_turn (worker_turn (start 2))) 7)

busy_sleeping : busy.sleeping ≡ 1
unfolding worker_turn producer_turn enqueue_locked dequeue_attempt
busy_sleeping = refl

no_lost_wakeup_example : (busy.queue.count ≤ busy.woken) × (busy.queue.shutdown ≡ false)
no_lost_wakeup_example =
    no_lost_wakeup (omega arith) (omega arith) busy_reached (omega (arith, busy_sleeping))

taken-append-contents_example : busy.taken ++ contents busy.queue ≡ busy.accepted
taken-append-contents_example = taken-append-contents (omega arith) (omega arith) busy_reached

-- Three threads, of which the last cannot be created.
abbrev third_fails : PoolAnswers
third_fails = record { calloc = true; malloc = λ i. true; create = λ i. not (i == 2) }

two_joined :
    ((thread_pool_start third_fails wrapped 3).0 ≡ false)
    × ((thread_pool_start third_fails wrapped 3).1.joined ≡ 0 ∷ 1 ∷ [])
unfolding thread_pool_start
two_joined = (refl, refl)
