-- ===== src/Server/Accept.antt =====
-- The accept loop of `server_run` with its workers and the signal (src/server.c,
-- src/thread_pool.c). A step is a stretch of one thread between two points at which another may
-- come in: a worker that finds the queue empty sleeps until a signal of the condition variable, or
-- a spurious wakeup, brings it back to its loop test.
pub mod Overload
pub mod Conserved
pub mod Drained
use final_system_progamming.Common.{
  ℕ, ◌+◌, ◌-◌, ◌≡◌, ◌<◌, Bool, true, false, List, [], ◌∷◌, ◌++◌, Option, none, some, Bytes, codes,
  replicate, if◌then◌else◌, ◌==◌,
}
use final_system_progamming.Queue.{
  SocketQueue, QueueResult, ok, full, closed, error, not_empty, not_full, Signal, wake_one,
  wake_all, fresh, enqueue_locked, Attempt, wait, leave, dequeue_attempt, shutdown_locked,
}
use final_system_progamming.Server.Socket.{Outcome}
use final_system_progamming.Server.Read.{ReadState}
use final_system_progamming.Server.Response.{Reply, ResponseResult, send_simple_response}
use final_system_progamming.Server.Client.{
  World, LogEntry, Connection, result_or_zero, get_client_ip, handle_client,
}

-- `accepting` says that the loop is in `accept`; `in_hand` is its `client_fd`, between `accept`
-- and the end of the body. Of the workers, `idle_workers` are on their way to the loop test of
-- `socket_queue_dequeue`, those of `asleep` are in its `pthread_cond_wait`, each of `serving` is
-- in `handle_client` with a descriptor, and `ended_workers` have left their loop. `accepted` and
-- `closed` are histories, and `refused` has what the loop itself sent to a client.
pub record System : Type 0 where
  pub should_stop : Bool
  pub queue : SocketQueue
  pub accepting : Bool
  pub in_hand : Option ℕ
  pub idle_workers : ℕ
  pub asleep : ℕ
  pub serving : List ℕ
  pub ended_workers : ℕ
  pub accepted : List ℕ
  pub closed : List ℕ
  pub refused : List (ℕ × Bytes)
  pub log : List LogEntry

-- The loop test is passed, and `accept` called.
abbrev pub enter_turn : System → System
enter_turn m = record m { accepting = true }

-- `accept` returns a descriptor.
abbrev pub accept_turn : ℕ → System → System
accept_turn fd m = record m {
  accepting = false;
  in_hand = some fd;
  accepted = m.accepted ++ fd ∷ [];
}

-- `accept` fails: the loop is left or goes back to its test, which does the same after a stop.
abbrev pub accept_fails_turn : System → System
accept_fails_turn m = record m { accepting = false }

-- What a signal of a condition variable does to the workers; nobody waits for `not_full`.
abbrev pub wake : Signal → System → System
wake (wake_one not_empty) m = record m {
  idle_workers = m.idle_workers + (if m.asleep == 0 then 0 else 1);
  asleep = m.asleep - 1;
}
wake (wake_all not_empty) m = record m { idle_workers = m.idle_workers + m.asleep; asleep = 0 }
wake (wake_one not_full) m = m
wake (wake_all not_full) m = m

abbrev pub wake_each : List Signal → System → System
wake_each [] m = m
wake_each (signal ∷ signals) m = wake_each signals (wake signal m)

abbrev pub close_client : ℕ → System → System
close_client fd m = record m { in_hand = none; closed = m.closed ++ fd ∷ [] }

abbrev pub overload_entry : Bytes → Reply → LogEntry
overload_entry client_ip reply =
    let result = result_or_zero reply.result in
    record {
      client_ip = client_ip;
      request_line = codes "-";
      status_code = result.status_code;
      body_bytes = result.body_bytes;
    }

-- The answer where the queue is full.
abbrev pub overload : Bytes → List Outcome → ℕ → System → System
overload client_ip sends fd m =
    let reply = send_simple_response sends none 503 (codes "Service Unavailable\n") false in
    close_client fd (record m {
      refused = m.refused ++ (fd, reply.bytes) ∷ [];
      log = m.log ++ overload_entry client_ip reply ∷ [];
    })

abbrev pub after_enqueue : Bytes → List Outcome → ℕ → System → QueueResult → System
after_enqueue client_ip sends fd m ok = record m { in_hand = none }
after_enqueue client_ip sends fd m full = overload client_ip sends fd m
after_enqueue client_ip sends fd m closed = close_client fd m
after_enqueue client_ip sends fd m error = close_client fd m

-- The rest of the body for a descriptor: the peer's address and the outcomes of `send` are those
-- of the socket.
unfoldable pub hand_over : Option Bytes → List Outcome → ℕ → System → System
hand_over peer sends fd m =
    let (result, signals, q) = enqueue_locked m.queue fd in
    after_enqueue (get_client_ip peer) sends fd (wake_each signals (record m { queue = q })) result

-- `server_stop`, on whichever thread the signal is handled.
unfoldable pub stop_turn : System → System
stop_turn m =
    let (signals, q) = shutdown_locked m.queue in
    wake_each signals (record m { should_stop = true; queue = q })

-- What a worker does at the loop test: it goes to sleep, serves a descriptor, or ends.
abbrev pub after_dequeue : System → Attempt → System
after_dequeue m wait = record m { idle_workers = m.idle_workers - 1; asleep = m.asleep + 1 }
after_dequeue m (leave ok (some fd) signals q) =
    wake_each signals
      (record m { queue = q; idle_workers = m.idle_workers - 1; serving = m.serving ++ fd ∷ [] })
after_dequeue m (leave _ _ signals q) =
    wake_each signals (record m {
      queue = q;
      idle_workers = m.idle_workers - 1;
      ended_workers = m.ended_workers + 1;
    })

unfoldable pub dequeue_turn : System → System
dequeue_turn m = after_dequeue m (dequeue_attempt m.queue)

-- A socket that a worker has just taken: nothing is sent, logged or closed yet.
abbrev pub new_client : ReadState → List Outcome → Connection
new_client reads sends = record {
  reads = reads;
  sends = sends;
  outgoing = [];
  log = [];
  closed = 0;
}

-- `handle_client` returns for the descriptor between `before` and `behind`, and the worker goes
-- back to `socket_queue_dequeue`.
abbrev pub finish_turn : List ℕ → ℕ → List ℕ → Connection → System → System
finish_turn before fd behind client m = record m {
  idle_workers = m.idle_workers + 1;
  serving = before ++ behind;
  closed = m.closed ++ replicate client.closed fd;
  log = m.log ++ client.log;
}

-- A spurious wakeup.
abbrev pub spurious_turn : System → System
spurious_turn m = record m { idle_workers = m.idle_workers + 1; asleep = m.asleep - 1 }

-- A step that a thread of the server takes by itself: it waits for no wakeup and, once the queue
-- is shut down, for no client.
pub data Own : System → System → Type 0 where
  hands_over :
      (m : System) (peer : Option Bytes) (sends : List Outcome) (fd : ℕ)
      → m.in_hand ≡ some fd
      → Own m (hand_over peer sends fd m)
  dequeues : (m : System) → 0 < m.idle_workers → Own m (dequeue_turn m)

-- A step of a thread.
pub data Work : System → System → Type 0 where
  owns : {m m' : System} → Own m m' → Work m m'
  enters :
      (m : System)
      → m.should_stop ≡ false
      → m.in_hand ≡ none
      → m.accepting ≡ false
      → Work m (enter_turn m)
  accepts :
      (m : System) (fd : ℕ) → m.accepting ≡ true → m.in_hand ≡ none → Work m (accept_turn fd m)
  accept_fails : (m : System) → m.accepting ≡ true → Work m (accept_fails_turn m)
  wakes_spuriously : (m : System) → 0 < m.asleep → Work m (spurious_turn m)
  finishes :
      (m : System) (before : List ℕ) (fd : ℕ) (behind : List ℕ) (fuel : ℕ) (world : World)
      (reads : ReadState) (sends : List Outcome) (client : Connection)
      → m.serving ≡ before ++ fd ∷ behind
      → handle_client fuel world (new_client reads sends) ≡ some client
      → Work m (finish_turn before fd behind client m)

pub data Step : System → System → Type 0 where
  works : {m m' : System} → Work m m' → Step m m'
  stops : (m : System) → Step m (stop_turn m)

pub data Reach (s : System) : System → Type 0 where
  here : Reach s s
  next : {m m' : System} → Reach s m → Step m m' → Reach s m'

-- `thread_pool_start` has returned.
abbrev pub started : ℕ → ℕ → System
started capacity threads = record {
  should_stop = false;
  queue = fresh capacity;
  accepting = false;
  in_hand = none;
  idle_workers = threads;
  asleep = 0;
  serving = [];
  ended_workers = 0;
  accepted = [];
  closed = [];
  refused = [];
  log = [];
}
