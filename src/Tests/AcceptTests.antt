-- ===== src/Tests/AcceptTests.antt =====
-- Runs of the accept loop with its workers, and the results on them at an input.
use final_system_progamming.Common.{
  ◌+◌, ◌≡◌, refl, List, [], ◌∷◌, ◌++◌, arith, codes, true, some, none, if◌then◌else◌, replicate,
  decimal, count,
}
use final_system_progamming.Queue.{fresh, enqueue_locked, dequeue_attempt, shutdown_locked}
use final_system_progamming.Queue.Invariant.{IsValid, fresh-IsValid, enqueue_locked-IsValid}
use final_system_progamming.Queue.Refines.{contents, view}
use final_system_progamming.Server.Response.{send_simple_response, response_version}
use final_system_progamming.Http.Request.{http_status_text}
use final_system_progamming.Server.Socket.{Outcome, moves, send_all}
use final_system_progamming.Server.Accept.{
  System, accept_turn, enter_turn, dequeue_turn, owns, enters, dequeues, hand_over, stop_turn,
  accepts, hands_over, works, stops, Reach, here, next, started,
}
use final_system_progamming.Server.Accept.Overload.{
  unavailable, unavailable_entry, is_full, takes_in, hand_over_lem,
}
use final_system_progamming.Server.Accept.Conserved.{hand, closed-accepted}
use final_system_progamming.Server.Accept.Drained.{Inevitable, IsAtRest, stop-drains}

abbrev plenty : List Outcome
plenty = replicate 200 (moves 1)

-- One place, which 7 takes, and 8 in hand.
abbrev crowded : System
crowded = record (started 1 1) {
  queue = (enqueue_locked (fresh 1) 7).2;
  in_hand = some 8;
  accepted = 7 ∷ 8 ∷ [];
}

crowded-IsValid : IsValid crowded.queue
crowded-IsValid = enqueue_locked-IsValid 7 (fresh-IsValid 1 (omega arith) (omega arith))

refused_and_closed :
    let m = hand_over none plenty 8 crowded in
    (m.closed ≡ 8 ∷ []) × (m.log ≡ unavailable_entry (codes "-") ∷ [])
unfolding hand_over enqueue_locked send_simple_response send_all response_version decimal
    http_status_text
refused_and_closed = (refl, refl)

hand_over_lem_example :
    let m' = hand_over none plenty 8 crowded in
    let f = view crowded.queue in
    (m'.in_hand ≡ none)
    × (view m'.queue ≡ (if takes_in f 1 then record f { waiting = f.waiting ++ 8 ∷ [] } else f))
    × (m'.closed ≡ (if takes_in f 1 then crowded.closed else crowded.closed ++ 8 ∷ []))
    × (m'.refused
        ≡ (if is_full f 1 then crowded.refused ++ (8, unavailable) ∷ [] else crowded.refused))
    × (m'.log
        ≡ (if is_full f 1 then crowded.log ++ unavailable_entry (codes "-") ∷ [] else crowded.log))
unfolding enqueue_locked
hand_over_lem_example = hand_over_lem crowded none plenty 8 crowded-IsValid (omega arith)

-- The worker goes to sleep; the loop accepts 7 and puts it into the queue; then a signal comes.
abbrev one_waits : System
one_waits = hand_over none [] 7 (accept_turn 7 (enter_turn (dequeue_turn (started 2 1))))

one_waits_reached : Reach (started 2 1) one_waits
unfolding dequeue_turn dequeue_attempt
one_waits_reached =
    let asleep = dequeue_turn (started 2 1) in
    let inside = enter_turn asleep in
    next
      (next
        (next (next here (works (owns (dequeues (started 2 1) (omega arith)))))
          (works (enters asleep refl refl refl)))
        (works (accepts inside 7 refl refl)))
      (works (owns (hands_over (accept_turn 7 inside) none [] 7 refl)))

-- The signal of the enqueue has woken the worker.
worker_woken : (one_waits.idle_workers ≡ 1) × (one_waits.asleep ≡ 0)
unfolding dequeue_turn dequeue_attempt hand_over enqueue_locked
worker_woken = (refl, refl)

closed-accepted_example :
    count 7 one_waits.accepted
    ≡ count 7 one_waits.closed
      + (count 7 (hand one_waits.in_hand)
          + count 7 (contents one_waits.queue)
          + count 7 one_waits.serving)
closed-accepted_example = closed-accepted 1 (omega arith) (omega arith) one_waits_reached 7

abbrev stopped : System
stopped = stop_turn one_waits

stopped_reached : Reach (started 2 1) stopped
stopped_reached = next one_waits_reached (stops one_waits)

stopped_stops : stopped.should_stop ≡ true
unfolding stop_turn shutdown_locked
stopped_stops = refl

stop-drains_example : Inevitable 1 (IsAtRest 1) stopped
stop-drains_example =
    stop-drains (omega arith) (omega arith) (omega arith) stopped_reached stopped_stops
