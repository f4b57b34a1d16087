-- ===== src/Server/Accept/Drained.antt =====
-- After a signal the server comes to rest, with every connection closed.
use native.Mathlib.Decide.{dec_lt}
use final_system_progamming.Common.{
  ℕ, zero, suc, ◌+◌, ◌*◌, ◌<◌, ◌≡◌, ◌⊎◌, sym, ◌∙◌, ◌==◌, Bool-cases, Option-cases, if◌then◌else◌,
  true, false, List, [], ◌∷◌, ◌++◌, Option, none, some, Bytes, arith, get_or, length, length-append,
  length-nil, size_mod, count, inl, inr,
}
use final_system_progamming.Queue.{enqueue_locked, dequeue_attempt}
use final_system_progamming.Queue.Invariant.{no_wrap}
use final_system_progamming.Queue.Refines.{slots-none}
use final_system_progamming.Server.Socket.{Outcome}
use final_system_progamming.Server.Client.{Connection}
use final_system_progamming.Server.Accept.{
  System, hand_over, dequeue_turn, finish_turn, Own, Work, owns, enters, wakes_spuriously, accepts,
  accept_fails, hands_over, dequeues, finishes, Reach, started,
}
use final_system_progamming.Server.Accept.Conserved.{IsSound, hand, Work-IsSound, Reach-IsSound}

-- No thread of the server can go on by itself: the loop is in `accept`, or each worker that has
-- not ended is in `handle_client`; none sleeps.
pub record IsWaiting (threads : ℕ) (m : System) : Type 0 where
  pub free : m.in_hand ≡ none
  pub none_idle : m.idle_workers ≡ 0
  pub none_asleep : m.asleep ≡ 0
  pub busy : length m.serving + m.ended_workers ≡ threads
  pub outside : (m.accepting ≡ true) ⊎ (0 < length m.serving)

-- Whatever the threads do next, they get to a state where `P` holds: there are only finitely many
-- steps to come until then, and before it a thread can go on by itself or all wait for `accept`
-- or for clients.
pub data Inevitable (threads : ℕ) (P : System → Type 0) : System → Type 0 where
  now : {m : System} → P m → Inevitable threads P m
  later :
      {m : System}
      → ((m' : System) × Own m m') ⊎ IsWaiting threads m
      → ((m' : System) → Work m m' → Inevitable threads P m')
      → Inevitable threads P m

-- The loop is out of `accept` with nothing in hand, no worker is left, and the queue is empty.
pub record IsAtRest (threads : ℕ) (m : System) : Type 0 where
  pub out : m.accepting ≡ false
  pub free : m.in_hand ≡ none
  pub all_ended : m.ended_workers ≡ threads
  pub none_served : m.serving ≡ []
  pub none_queued : m.queue.count ≡ 0
  pub all_closed : (x : ℕ) → count x m.accepted ≡ count x m.closed

-- How many steps are left at most, once the queue is shut down.
abbrev pub steps_left : System → ℕ
steps_left m =
    (if m.accepting then 2 else 0)
    + length (hand m.in_hand)
    + 2 * m.queue.count
    + 2 * length m.serving
    + m.idle_workers

module _ {threads : ℕ} {m : System} (s : IsSound threads m) (down : m.should_stop ≡ true) where
  hand_over-less :
      (peer : Option Bytes) (sends : List Outcome) (fd : ℕ)
      → m.in_hand ≡ some fd
      → (steps_left (hand_over peer sends fd m) < steps_left m)
        × ((hand_over peer sends fd m).should_stop ≡ true)
  unfolding hand_over enqueue_locked
  hand_over-less peer sends fd e = ground (arith, s.stopped, down, e)

  dequeue_turn-less :
      0 < m.idle_workers
      → (steps_left (dequeue_turn m) < steps_left m) × ((dequeue_turn m).should_stop ≡ true)
  unfolding dequeue_turn dequeue_attempt
  dequeue_turn-less h = ground (
    arith,
    s.stopped,
    down,
    no_wrap s.valid,
    length-append m.serving (get_or m.queue.items m.queue.head 0 ∷ []),
  )

  finish_turn-less :
      (before : List ℕ) (fd : ℕ) (behind : List ℕ) (client : Connection)
      → m.serving ≡ before ++ fd ∷ behind
      → steps_left (finish_turn before fd behind client m) < steps_left m
  finish_turn-less before fd behind client e =
      ground (arith, e, length-append before (fd ∷ behind), length-append before behind)

Work-less :
    {threads : ℕ} {m m' : System}
    → IsSound threads m
    → m.should_stop ≡ true
    → Work m m'
    → (steps_left m' < steps_left m) × (m'.should_stop ≡ true)
Work-less s down (owns (hands_over m peer sends fd e)) = hand_over-less s down peer sends fd e
Work-less s down (owns (dequeues m h)) = dequeue_turn-less s down h
Work-less s down (enters m up free out) = absurd (ground (arith, down, up))
Work-less s down (accepts m fd inside free) = (ground (arith, inside, free), down)
Work-less s down (accept_fails m inside) = (ground (arith, inside), down)
Work-less s down (wakes_spuriously m h) = absurd (omega (arith, s.awake (sym s.stopped ∙ down), h))
Work-less s down (finishes m before fd behind fuel world reads sends client e r) =
    (finish_turn-less s down before fd behind client e, down)

module _ {threads : ℕ} (some_thread : 0 < threads) where
  at_rest :
      {m : System}
      → IsSound threads m
      → m.accepting ≡ false
      → m.in_hand ≡ none
      → m.idle_workers ≡ 0
      → m.asleep ≡ 0
      → m.serving ≡ []
      → IsAtRest threads m
  at_rest {m} s out free idle awake none_served =
      let ended : m.ended_workers ≡ threads = ground (arith, s.manned, idle, awake, none_served) in
      let empty = (s.drained (omega (arith, ended, some_thread))).0 in
      record {
        out = out;
        free = free;
        all_ended = ended;
        none_served = none_served;
        none_queued = empty;
        all_closed =
            λ x. ground (arith, s.conserved x, free, none_served, slots-none m.queue empty);
      }

  -- No worker is at its loop test, and the loop has nothing in hand.
  rest_or_IsWaiting :
      {m : System}
      → IsSound threads m
      → m.in_hand ≡ none
      → m.idle_workers ≡ 0
      → m.asleep ≡ 0
      → IsAtRest threads m ⊎ IsWaiting threads m
  rest_or_IsWaiting {m} s free idle awake =
      let busy : length m.serving + m.ended_workers ≡ threads =
        omega (arith, s.manned, idle, awake) in
      elim (Bool-cases m.accepting) [
        | inl inside ↦ inr (record {
          free = free;
          none_idle = idle;
          none_asleep = awake;
          busy = busy;
          outside = inl inside;
        })
        | inr out ↦ elim (Bool-cases (length m.serving == 0)) [
          | inr some_served ↦ inr (record {
            free = free;
            none_idle = idle;
            none_asleep = awake;
            busy = busy;
            outside = inr (ground (arith, some_served));
          })
          | inl none_served ↦ inl (at_rest s out free idle awake (length-nil m.serving none_served))
        ]
      ]

  rest_or_go :
      {m : System}
      → IsSound threads m
      → m.should_stop ≡ true
      → IsAtRest threads m ⊎ (((m' : System) × Own m m') ⊎ IsWaiting threads m)
  rest_or_go {m} s down = elim (Option-cases m.in_hand) [
    | inr (fd, e) ↦ inr (inl (hand_over none [] fd m, hands_over m none [] fd e))
    | inl e ↦ elim (dec_lt 0 m.idle_workers) [
      | yes h ↦ inr (inl (dequeue_turn m, dequeues m h))
      | no h ↦ elim (rest_or_IsWaiting s e (omega (arith, h)) (s.awake (sym s.stopped ∙ down))) [
        | inl rest ↦ inl rest
        | inr waits ↦ inr (inr waits)
      ]
    ]
  ]

  rest_within :
      (bound : ℕ) {m : System}
      → IsSound threads m
      → m.should_stop ≡ true
      → steps_left m < bound
      → Inevitable threads (IsAtRest threads) m
  rest_within zero s down h = absurd (omega arith)
  rest_within (suc bound) {m} s down h = elim (rest_or_go s down) [
    | inl rest ↦ now rest
    | inr goes ↦ later goes (λ m' w.
        let less = Work-less s down w in
        rest_within bound (Work-IsSound w s) less.1 (omega (arith, less.0)))
  ]

  -- After a signal the server drains: in every state that is reached from an empty queue, of a
  -- capacity that is positive and a `size_t`, with at least one worker, once `server_stop` has run
  -- the threads take only finitely many further steps, whatever they do and in whatever order. At
  -- rest the loop is out, the queue is empty, all workers have ended, and every descriptor that
  -- was ever accepted has been closed, as often as it was accepted. Before that no worker sleeps
  -- on: some thread of the server can go on by itself, unless the only threads that have not ended
  -- are the loop inside `accept` and workers inside `handle_client`. So the server comes to rest
  -- if those calls return; `recv` has no timeout, and a client that is silent can hold it up. A
  -- further signal is not counted as a step.
  pub stop-drains :
      {capacity : ℕ}
      → 0 < capacity
      → capacity < size_mod
      → {m : System} → Reach (started capacity threads) m
      → m.should_stop ≡ true
      → Inevitable threads (IsAtRest threads) m
  stop-drains pos fits {m} r down =
      rest_within (suc (steps_left m)) (Reach-IsSound threads pos fits r) down (omega arith)
