-- ===== src/Server/Accept/Conserved.antt =====
-- What holds in every state that the server reaches.
use final_system_progamming.Common.{
  ℕ, ◌+◌, ◌<◌, ◌≡◌, refl, Bool, true, false, List, [], ◌∷◌, ◌++◌, Option, none, some, Bytes, arith,
  get_or, length, length-append, size_mod, count, count-append,
}
use final_system_progamming.Queue.{enqueue_locked, dequeue_attempt, shutdown_locked}
use final_system_progamming.Queue.Invariant.{
  IsValid, fresh-IsValid, no_wrap, enqueue_locked-IsValid, dequeue_attempt-IsValid,
  shutdown_locked-IsValid,
}
use final_system_progamming.Queue.Refines.{contents, enqueue-contents, dequeue-contents}
use final_system_progamming.Server.Socket.{Outcome}
use final_system_progamming.Server.Client.{Connection}
use final_system_progamming.Server.Client.Rounds.{handle_client-closed}
use final_system_progamming.Server.Accept.{
  System, accept_turn, hand_over, stop_turn, dequeue_turn, new_client, finish_turn, Work, owns,
  enters, accepts, accept_fails, wakes_spuriously, spurious_turn, hands_over, dequeues, finishes,
  works, stops, Reach, here, next, started,
}

abbrev pub hand : Option ℕ → List ℕ
hand none = []
hand (some fd) = fd ∷ []

-- How often a descriptor is somewhere between `accept` and `close`.
abbrev pub open_count : ℕ → System → ℕ
open_count x m = count x (hand m.in_hand) + count x (contents m.queue) + count x m.serving

-- `awake`: the broadcast of the shutdown has woken all. `drained`: a worker ends only on a queue
-- that is shut down and empty, as it then stays.
pub record IsSound (threads : ℕ) (m : System) : Type 0 where
  pub valid : IsValid m.queue
  pub conserved : (x : ℕ) → count x m.accepted ≡ count x m.closed + open_count x m
  pub stopped : m.should_stop ≡ m.queue.shutdown
  pub manned : m.idle_workers + m.asleep + length m.serving + m.ended_workers ≡ threads
  pub awake : m.queue.shutdown ≡ true → m.asleep ≡ 0
  pub drained : 0 < m.ended_workers → (m.queue.count ≡ 0) × (m.queue.shutdown ≡ true)

module _ {threads : ℕ} {m : System} (s : IsSound threads m) where
  accept_turn-IsSound : (fd : ℕ) → m.in_hand ≡ none → IsSound threads (accept_turn fd m)
  accept_turn-IsSound fd e = record {
    valid = s.valid;
    conserved = λ x. ground (arith, s.conserved x, e, count-append x m.accepted (fd ∷ []));
    stopped = s.stopped;
    manned = s.manned;
    awake = s.awake;
    drained = s.drained;
  }

  hand_over-IsSound :
      (peer : Option Bytes) (sends : List Outcome) (fd : ℕ)
      → m.in_hand ≡ some fd
      → IsSound threads (hand_over peer sends fd m)
  unfolding hand_over enqueue_locked
  hand_over-IsSound peer sends fd e = record {
    valid = ground (arith, enqueue_locked-IsValid fd s.valid);
    conserved = λ x. ground (
      arith,
      s.conserved x,
      e,
      enqueue-contents fd s.valid,
      count-append x (contents m.queue) (fd ∷ []),
      count-append x m.closed (fd ∷ []),
    );
    stopped = ground (arith, s.stopped);
    manned = ground (arith, s.manned);
    awake = λ h. ground (arith, s.awake, h);
    drained = λ h. ground (arith, s.drained);
  }

  stop_turn-IsSound : IsSound threads (stop_turn m)
  unfolding stop_turn shutdown_locked
  stop_turn-IsSound = record {
    valid = unfold shutdown_locked in shutdown_locked-IsValid s.valid;
    conserved = s.conserved;
    stopped = refl;
    manned = omega (arith, s.manned);
    awake = λ h. refl;
    drained = λ h. ((s.drained h).0, refl);
  }

  dequeue_turn-IsSound : 0 < m.idle_workers → IsSound threads (dequeue_turn m)
  unfolding dequeue_turn dequeue_attempt
  dequeue_turn-IsSound h = record {
    valid = ground (arith, dequeue_attempt-IsValid s.valid);
    conserved = λ x. ground (
      arith,
      s.conserved x,
      no_wrap s.valid,
      dequeue-contents s.valid,
      count-append x m.serving (get_or m.queue.items m.queue.head 0 ∷ []),
    );
    stopped = ground (arith, s.stopped);
    manned = ground (
      arith,
      s.manned,
      no_wrap s.valid,
      length-append m.serving (get_or m.queue.items m.queue.head 0 ∷ []),
    );
    awake = λ k. ground (arith, s.awake, k);
    drained = λ k. ground (arith, s.drained, no_wrap s.valid);
  }

  spurious_turn-IsSound : 0 < m.asleep → IsSound threads (spurious_turn m)
  spurious_turn-IsSound h = record {
    valid = s.valid;
    conserved = s.conserved;
    stopped = s.stopped;
    manned = omega (arith, s.manned, h);
    awake = λ k. absurd (omega (arith, s.awake k, h));
    drained = s.drained;
  }

  loop_turn-IsSound : (inside : Bool) → IsSound threads (record m { accepting = inside })
  loop_turn-IsSound inside = record {
    valid = s.valid;
    conserved = s.conserved;
    stopped = s.stopped;
    manned = s.manned;
    awake = s.awake;
    drained = s.drained;
  }

  finish_turn-IsSound :
      (before : List ℕ) (fd : ℕ) (behind : List ℕ) (client : Connection)
      → m.serving ≡ before ++ fd ∷ behind
      → client.closed ≡ 1
      → IsSound threads (finish_turn before fd behind client m)
  finish_turn-IsSound before fd behind client e c = record {
    valid = s.valid;
    conserved = λ x. ground (
      arith,
      s.conserved x,
      e,
      c,
      count-append x m.closed (fd ∷ []),
      count-append x before (fd ∷ behind),
      count-append x before behind,
    );
    stopped = s.stopped;
    manned =
        ground
          (arith, s.manned, e, length-append before (fd ∷ behind), length-append before behind);
    awake = s.awake;
    drained = s.drained;
  }

pub Work-IsSound :
    {threads : ℕ} {m m' : System} → Work m m' → IsSound threads m → IsSound threads m'
Work-IsSound (owns (hands_over m peer sends fd e)) s = hand_over-IsSound s peer sends fd e
Work-IsSound (owns (dequeues m h)) s = dequeue_turn-IsSound s h
Work-IsSound (enters m up free out) s = loop_turn-IsSound s true
Work-IsSound (accepts m fd inside free) s = accept_turn-IsSound s fd free
Work-IsSound (accept_fails m inside) s = loop_turn-IsSound s false
Work-IsSound (wakes_spuriously m h) s = spurious_turn-IsSound s h
Work-IsSound (finishes m before fd behind fuel world reads sends client e r) s =
    finish_turn-IsSound s before fd behind client e
      (handle_client-closed fuel world (new_client reads sends) client r)

module _ {capacity : ℕ} (threads : ℕ) (pos : 0 < capacity) (fits : capacity < size_mod) where
  pub Reach-IsSound : {m : System} → Reach (started capacity threads) m → IsSound threads m
  Reach-IsSound here = record {
    valid = fresh-IsValid capacity pos fits;
    conserved = λ x. refl;
    stopped = refl;
    manned = omega arith;
    awake = λ h. refl;
    drained = λ h. absurd (omega arith);
  }
  Reach-IsSound (next r (works w)) = Work-IsSound w (Reach-IsSound r)
  Reach-IsSound (next r (stops m)) = stop_turn-IsSound (Reach-IsSound r)

  -- No socket is leaked or closed twice: once the threads of the pool have started on an empty
  -- queue whose capacity is positive and a `size_t`, under every interleaving of the accept loop,
  -- the workers and signals, each descriptor has been accepted as often as it has been closed,
  -- counting it once more while the loop holds it, while it is in the queue, and while a worker
  -- serves it.
  pub closed-accepted :
      {m : System}
      → Reach (started capacity threads) m
      → (x : ℕ)
      → count x m.accepted
        ≡ count x m.closed
          + (count x (hand m.in_hand) + count x (contents m.queue) + count x m.serving)
  closed-accepted r = (Reach-IsSound r).conserved
