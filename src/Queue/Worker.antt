-- ===== src/Queue/Worker.antt =====
-- `worker_main`: a worker that runs alone takes what the queue holds, then sleeps or ends.
use final_system_progamming.Common.{
  add_size, ℕ, zero, suc, ◌-◌, ◌%◌, ◌<◌, ◌≡◌, ◌≢◌, ◌⊎◌, inl, inr, refl, List, [], ◌∷◌, none, some,
  arith, get_or, if◌then◌else◌,
}
use final_system_progamming.Queue.{
  SocketQueue, ok, closed, wait, leave, dequeue_attempt, wake_one, not_full,
}
use final_system_progamming.Queue.Invariant.{IsValid, no_wrap, dequeue_attempt-IsValid}
use final_system_progamming.Queue.Refines.{contents, dequeue-contents, slots-none}

-- How the loop comes to rest: in `pthread_cond_wait`, or by a result other than `QUEUE_OK`.
pub data Rest : Type 0 where
  sleeps ends out_of_fuel : Rest

-- The descriptors handed to `pool->handler`, in order. The fuel is the number of loop tests.
unfoldable pub worker_main : ℕ → SocketQueue → Rest × List ℕ × SocketQueue
worker_main zero q = (out_of_fuel, [], q)
worker_main (suc fuel) q = elim (dequeue_attempt q) [
  | wait ↦ (sleeps, [], q)
  | leave ok (some fd) signals q' ↦
      let (rest, handled, last) = worker_main fuel q' in (rest, fd ∷ handled, last)
  | leave result fd signals q' ↦ (ends, [], q')
]

-- What one attempt on a valid queue is.
dequeue_attempt-empty :
    (q : SocketQueue)
    → q.count ≡ 0
    → dequeue_attempt q ≡ (if q.shutdown then leave closed none [] q else wait)
unfolding dequeue_attempt
dequeue_attempt-empty q e = ground arith

abbrev taken_from : SocketQueue → SocketQueue
taken_from q = record q { head = add_size q.head 1 % q.capacity; count = q.count - 1 }

dequeue_attempt-ne :
    {q : SocketQueue}
    → IsValid q
    → q.count ≢ 0
    → dequeue_attempt q
      ≡ leave ok (some (get_or q.items q.head 0)) (wake_one not_full ∷ []) (taken_from q)
unfolding dequeue_attempt
dequeue_attempt-ne {q} v ne = ground (arith, no_wrap v)

taken_from-IsValid : {q : SocketQueue} → IsValid q → q.count ≢ 0 → IsValid (taken_from q)
taken_from-IsValid {q} v ne = rw (dequeue_attempt-ne v ne) at (dequeue_attempt-IsValid v)

count_cases : (n : ℕ) → (n ≡ 0) ⊎ (n ≢ 0)
count_cases zero = inl refl
count_cases (suc n) = inr (λ e. absurd (omega arith))

abbrev Drains : SocketQueue → Rest × List ℕ × SocketQueue → Type 0
Drains q r = (r.0 ≡ (if q.shutdown then ends else sleeps)) × (r.1 ≡ contents q) × (r.2.count ≡ 0)

-- With more fuel than descriptors, the loop hands over all of them, the oldest first, leaves the
-- queue empty, and then ends if the queue is shut down and sleeps if it is not.
pub worker_main-drains :
    (fuel : ℕ) {q : SocketQueue}
    → IsValid q
    → q.count < fuel
    → let (rest, handled, last) = worker_main fuel q in
      (rest ≡ (if q.shutdown then ends else sleeps)) × (handled ≡ contents q) × (last.count ≡ 0)
unfolding worker_main
worker_main-drains zero v h = absurd (omega arith)
worker_main-drains (suc fuel) {q} v h = elim (count_cases q.count) [
  | inl e ↦ ground (arith, dequeue_attempt-empty q e, slots-none q e)
  | inr ne ↦ ground (
    arith,
    dequeue_attempt-ne v ne,
    dequeue-contents v ne,
    worker_main-drains fuel (taken_from-IsValid v ne),
  )
]
