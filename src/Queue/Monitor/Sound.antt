-- ===== src/Queue/Monitor/Sound.antt =====
-- The invariant of the queue with its threads, and what follows of every reachable state.
use final_system_progamming.Common.{
  add_size, Bool-cases, inl, inr, ℕ, ◌+◌, ◌-◌, ◌%◌, ◌≤◌, ◌<◌, ◌≡◌, refl, true, false, [], ◌∷◌, ◌++◌,
  arith, append_assoc, get_or, size_mod,
}
use final_system_progamming.Queue.{enqueue_locked, dequeue_attempt, shutdown_locked}
use final_system_progamming.Queue.Invariant.{
  IsValid, fresh-IsValid, no_wrap, enqueue_locked-IsValid, dequeue_attempt-IsValid,
  shutdown_locked-IsValid,
}
use final_system_progamming.Queue.Refines.{contents, enqueue-contents, dequeue-contents, slots}
use final_system_progamming.Queue.Monitor.{
  Monitor, producer_turn, shutdown_turn, worker_turn, Step, enqueues, stops, arrives, resumes,
  wakes_spuriously, Reach, here, next, start,
}

-- `attended` is what rules out a lost wakeup.
record IsSound (m : Monitor) : Type 0 where
  valid : IsValid m.queue
  attended : 0 < m.sleeping → m.queue.count ≤ m.woken
  none_left : m.queue.shutdown ≡ true → m.sleeping ≡ 0
  conserved : m.taken ++ contents m.queue ≡ m.accepted

module _ {m : Monitor} (s : IsSound m) where
  producer_turn-IsValid : (fd : ℕ) → IsValid (producer_turn fd m).queue
  unfolding producer_turn enqueue_locked
  producer_turn-IsValid fd = ground (arith, enqueue_locked-IsValid fd s.valid)

  producer_turn-conserved :
      (fd : ℕ)
      → (producer_turn fd m).taken ++ contents (producer_turn fd m).queue
        ≡ (producer_turn fd m).accepted
  unfolding producer_turn enqueue_locked
  producer_turn-conserved fd = ground (
    arith,
    s.conserved,
    enqueue-contents fd s.valid,
    append_assoc m.taken (contents m.queue) (fd ∷ []),
  )

  producer_turn-IsSound : (fd : ℕ) → IsSound (producer_turn fd m)
  unfolding producer_turn enqueue_locked
  producer_turn-IsSound fd = record {
    valid = producer_turn-IsValid fd;
    attended = λ h. ground (arith, no_wrap s.valid);
    none_left = λ h. ground arith;
    conserved = producer_turn-conserved fd;
  }

  shutdown_turn-IsSound : IsSound (shutdown_turn m)
  unfolding shutdown_turn shutdown_locked
  shutdown_turn-IsSound = record {
    valid = unfold shutdown_locked in shutdown_locked-IsValid s.valid;
    attended = λ h. omega arith;
    none_left = λ h. refl;
    conserved = s.conserved;
  }

  spurious-IsSound :
      0 < m.sleeping → IsSound (record m { sleeping = m.sleeping - 1; woken = m.woken + 1 })
  spurious-IsSound h = record {
    valid = s.valid;
    attended = λ k. omega arith;
    none_left = λ k. ground (arith, s.none_left k);
    conserved = s.conserved;
  }

-- A worker that has the mutex stands for one of the `woken` ones.
record IsHeld (m : Monitor) : Type 0 where
  valid : IsValid m.queue
  attended : 0 < m.sleeping → m.queue.count ≤ m.woken + 1
  none_left : m.queue.shutdown ≡ true → m.sleeping ≡ 0
  conserved : m.taken ++ contents m.queue ≡ m.accepted

module _ {m : Monitor} (s : IsHeld m) where
  worker_turn-IsValid : IsValid (worker_turn m).queue
  unfolding worker_turn dequeue_attempt
  worker_turn-IsValid = ground (arith, dequeue_attempt-IsValid s.valid)

  worker_turn-conserved :
      (worker_turn m).taken ++ contents (worker_turn m).queue ≡ (worker_turn m).accepted
  unfolding worker_turn dequeue_attempt
  worker_turn-conserved = ground (
    arith,
    s.conserved,
    no_wrap s.valid,
    dequeue-contents s.valid,
    append_assoc m.taken (get_or m.queue.items m.queue.head 0 ∷ []) (
        slots m.queue.items m.queue.capacity (add_size m.queue.head 1 % m.queue.capacity)
          (m.queue.count - 1)),
  )

  worker_turn-IsSound : IsSound (worker_turn m)
  unfolding worker_turn dequeue_attempt
  worker_turn-IsSound = record {
    valid = worker_turn-IsValid;
    attended = λ h. ground arith;
    none_left = λ h. ground arith;
    conserved = worker_turn-conserved;
  }

IsSound-IsHeld : {m : Monitor} → IsSound m → IsHeld m
IsSound-IsHeld s = record {
  valid = s.valid;
  attended = λ h. omega arith;
  none_left = s.none_left;
  conserved = s.conserved;
}

Step-IsSound : {m m' : Monitor} → Step m m' → IsSound m → IsSound m'
Step-IsSound (enqueues m fd) s = producer_turn-IsSound s fd
Step-IsSound (stops m) s = shutdown_turn-IsSound s
Step-IsSound (arrives m) s = worker_turn-IsSound (IsSound-IsHeld s)
Step-IsSound (resumes m h) s = worker_turn-IsSound (record {
  valid = s.valid;
  attended = λ k. omega arith;
  none_left = s.none_left;
  conserved = s.conserved;
})
Step-IsSound (wakes_spuriously m h) s = spurious-IsSound s h

module _ {capacity : ℕ} (pos : 0 < capacity) (fits : capacity < size_mod) where
  Reach-IsSound : {m : Monitor} → Reach (start capacity) m → IsSound m
  Reach-IsSound here = record {
    valid = fresh-IsValid capacity pos fits;
    attended = λ h. omega arith;
    none_left = λ h. refl;
    conserved = refl;
  }
  Reach-IsSound (next r st) = Step-IsSound st (Reach-IsSound r)

  -- No wakeup is lost: from an empty queue whose capacity is positive and a `size_t`, whatever the
  -- interleaving of enqueues, shutdowns, dequeues and spurious wakeups, while a worker sleeps
  -- there are at least as many woken workers on their way as descriptors in the queue, and the
  -- queue has not been shut down.
  pub no_lost_wakeup :
      {m : Monitor}
      → Reach (start capacity) m
      → 0 < m.sleeping
      → (m.queue.count ≤ m.woken) × (m.queue.shutdown ≡ false)
  no_lost_wakeup {m} r h =
      let s = Reach-IsSound r in
      (
        s.attended h,
        elim (Bool-cases m.queue.shutdown) [
          | inl down ↦ absurd (omega (arith, s.none_left down))
          | inr up ↦ up
        ],
      )

  -- No connection is lost, doubled or overtaken: from an empty queue whose capacity is positive
  -- and a `size_t`, under every interleaving, the descriptors that workers have taken followed by
  -- those in the queue are the descriptors that were accepted, in the order of acceptance.
  pub taken-append-contents :
      {m : Monitor} → Reach (start capacity) m → m.taken ++ contents m.queue ≡ m.accepted
  taken-append-contents r = (Reach-IsSound r).conserved
