-- ===== src/Queue/Pool.antt =====
-- `thread_pool_start` and `thread_pool_stop` (src/thread_pool.c). A thread is the number of its
-- place in the array. A join returns once its worker has ended, as a worker does on a queue that
-- is shut down (`Queue.Worker`).
use final_system_progamming.Common.{
  ℕ, zero, suc, ◌+◌, ◌≡◌, ◌⊎◌, inl, inr, refl, sym, ap, ap₂, ◌∙◌, Bool, true, false, not, ◌&&◌,
  List, [], ◌∷◌, ◌++◌, arith, ◌==◌, if◌then◌else◌, Bool-cases,
}
use final_system_progamming.Queue.{SocketQueue, shutdown_locked}

-- Which calls succeed: the allocation of the array, that of the arguments for a thread, and its
-- creation.
pub record PoolAnswers : Type 0 where
  pub calloc : Bool
  pub malloc : ℕ → Bool
  pub create : ℕ → Bool

-- `thread_pool_t`, with the threads created and those joined, in order.
pub record ThreadPool : Type 0 where
  pub queue : SocketQueue
  pub has_threads : Bool
  pub thread_count : ℕ
  pub created : List ℕ
  pub joined : List ℕ

-- The places below a number.
abbrev pub places : ℕ → List ℕ
places zero = []
places (suc n) = places n ++ n ∷ []

unfoldable pub thread_pool_stop : ThreadPool → ThreadPool
unfolding shutdown_locked
thread_pool_stop pool = if not pool.has_threads then pool else record pool {
  queue = (shutdown_locked pool.queue).1;
  has_threads = false;
  thread_count = 0;
  joined = pool.joined ++ places pool.thread_count;
}

-- The failure at thread `i`; `false` is the result -1.
abbrev give_up : ℕ → ThreadPool → Bool × ThreadPool
give_up i pool = (false, thread_pool_stop (record pool { thread_count = i }))

-- The loop, for so many threads, from thread `i` on. What is allocated for a thread that is
-- created is freed by the thread; where it is not created, here.
unfoldable pub start_from : PoolAnswers → ℕ → ℕ → ThreadPool → Bool × ThreadPool
unfolding thread_pool_stop
start_from answers zero i pool = (true, pool)
start_from answers (suc n) i pool =
    let later = start_from answers n (suc i) (record pool { created = pool.created ++ i ∷ [] }) in
    if not (answers.malloc i)
    then give_up i pool
    else if not (answers.create i)
    then give_up i pool
    else later

-- A pool that no call has touched.
abbrev pub idle : SocketQueue → ThreadPool
idle queue = record {
  queue = queue;
  has_threads = false;
  thread_count = 0;
  created = [];
  joined = [];
}

unfoldable pub thread_pool_start : PoolAnswers → SocketQueue → ℕ → Bool × ThreadPool
unfolding start_from
thread_pool_start answers queue thread_count =
    if thread_count == 0
    then (false, idle queue)
    else if not answers.calloc
    then (false, idle queue)
    else start_from answers thread_count 0
        (record (idle queue) { has_threads = true; thread_count = thread_count })

-- All threads run, or none does: each that was created has been joined, once, and the queue is
-- shut down if there was one.
abbrev pub AllOrNone : ℕ → Bool × ThreadPool → Type 0
AllOrNone count (true, pool) =
    (pool.created ≡ places count)
    × (pool.joined ≡ [])
    × (pool.has_threads ≡ true)
    × (pool.thread_count ≡ count)
AllOrNone count (false, pool) =
    (pool.joined ≡ pool.created)
    × (pool.has_threads ≡ false)
    × ((pool.created ≡ []) ⊎ (pool.queue.shutdown ≡ true))

start_from-AllOrNone :
    (answers : PoolAnswers) (n i count : ℕ) (pool : ThreadPool)
    → i + n ≡ count
    → pool.created ≡ places i
    → pool.joined ≡ []
    → pool.has_threads ≡ true
    → pool.thread_count ≡ count
    → AllOrNone count (start_from answers n i pool)
unfolding start_from thread_pool_stop shutdown_locked
start_from-AllOrNone answers zero i count pool size c j t k =
    let all : i ≡ count = omega (arith, size) in (c ∙ ap places all, j, t, k)
start_from-AllOrNone answers (suc n) i count pool size c j t k =
    let all_joined : pool.joined ++ places i ≡ pool.created = ap (λ xs. xs ++ places i) j ∙ sym c in
    elim (Bool-cases (answers.malloc i)) [
      | inr refused ↦ rw (refused, t) (all_joined, refl, inr refl)
      | inl given ↦ elim (Bool-cases (answers.create i)) [
        | inr refused ↦ rw (given, refused, t) (all_joined, refl, inr refl)
        | inl starts ↦
            rw (given, starts)
              (start_from-AllOrNone answers n (suc i) count _ (omega (arith, size))
                (ap (λ xs. xs ++ i ∷ []) c) j t k)
      ]
    ]

start-AllOrNone :
    (answers : PoolAnswers) (queue : SocketQueue) (thread_count : ℕ)
    → AllOrNone thread_count (thread_pool_start answers queue thread_count)
unfolding thread_pool_start
start-AllOrNone answers queue thread_count = elim (Bool-cases (thread_count == 0)) [
  | inl nothing ↦ rw nothing (refl, refl, inl refl)
  | inr some_threads ↦ elim (Bool-cases answers.calloc) [
    | inr refused ↦ rw (some_threads, refused) (refl, refl, inl refl)
    | inl given ↦
        rw (some_threads, given)
          (start_from-AllOrNone answers thread_count 0 thread_count _ (omega arith) refl refl refl
            refl)
  ]
]

-- Every thread from `i` on gets its arguments and is created.
abbrev all_created : PoolAnswers → ℕ → ℕ → Bool
all_created answers zero i = true
all_created answers (suc n) i =
    answers.malloc i && answers.create i && all_created answers n (suc i)

start_from-result :
    (answers : PoolAnswers) (n i : ℕ) (pool : ThreadPool)
    → (start_from answers n i pool).0 ≡ all_created answers n i
unfolding start_from
start_from-result answers zero i pool = refl
start_from-result answers (suc n) i pool =
    ground (
      arith,
      start_from-result answers n (suc i) (record pool { created = pool.created ++ i ∷ [] }),
    )

abbrev pub pool_starts : PoolAnswers → ℕ → Bool
pool_starts answers thread_count =
    not (thread_count == 0) && answers.calloc && all_created answers thread_count 0

pub thread_pool_start-result :
    (answers : PoolAnswers) (queue : SocketQueue) (thread_count : ℕ)
    → (thread_pool_start answers queue thread_count).0 ≡ pool_starts answers thread_count
unfolding thread_pool_start
thread_pool_start-result answers queue thread_count = ground (
  arith,
  start_from-result answers thread_count 0
      (record (idle queue) { has_threads = true; thread_count = thread_count }),
)

stop-joins :
    (started : Bool) (pool : ThreadPool) (count : ℕ)
    → AllOrNone count (started, pool)
    → (thread_pool_stop pool).joined ≡ pool.created
unfolding thread_pool_stop
stop-joins true pool count a = rw (a.2) (ap₂ (λ xs n. xs ++ places n) a.1 a.3 ∙ sym a.0)
stop-joins false pool count a = rw (a.1) a.0

-- Whatever calls fail while the pool starts: either all threads are created and none is joined, or
-- the start fails, and then each thread that was created has been joined, once and in order, the
-- array is given back, and the queue is shut down unless no thread was created. A stop after the
-- start leaves each thread that was created joined once.
pub thread_pool_start-AllOrNone :
    (answers : PoolAnswers) (queue : SocketQueue) (thread_count : ℕ)
    → AllOrNone thread_count (thread_pool_start answers queue thread_count)
      × ((thread_pool_stop (thread_pool_start answers queue thread_count).1).joined
          ≡ (thread_pool_start answers queue thread_count).1.created)
thread_pool_start-AllOrNone answers queue thread_count =
    let all = start-AllOrNone answers queue thread_count in (all, stop-joins _ _ thread_count all)
