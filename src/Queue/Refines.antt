-- ===== src/Queue/Refines.antt =====
-- The ring of `struct socket_queue` behaves as the closable FIFO of the descriptors that it holds.
use native.Mathlib.Nat.{add-zero, mod-add-mod, mod-eq_of_lt}
use final_system_progamming.Common.{
  add_size, ℕ, zero, suc, ◌+◌, ◌-◌, ◌%◌, ◌≤◌, ◌<◌, ◌≡◌, ◌≢◌, refl, ap, ap₂, ◌∙◌, List, [], ◌∷◌,
  ◌++◌, some, arith, get_or, set, length, length-append, get_or-set_self, get_or-set_ne,
}
use final_system_progamming.Queue.{
  SocketQueue, ok, Attempt, wait, leave, enqueue_locked, dequeue_attempt, shutdown_locked,
}
use final_system_progamming.Queue.Fifo.{
  Fifo, Request, put, get, close, Reply, put_result, got, got_closed, blocked, done, serve,
  serve_all,
}
use final_system_progamming.Queue.Invariant.{
  IsValid, turn, no_wrap, head_next, enqueue_locked-IsValid, shutdown_locked-IsValid,
}

-- The descriptors in the `n` slots from `start` on, the oldest first.
abbrev pub slots : List ℕ → ℕ → ℕ → ℕ → List ℕ
slots items cap start zero = []
slots items cap start (suc n) = slots items cap start n ++ get_or items ((start + n) % cap) 0 ∷ []

pub length-slots : (items : List ℕ) (cap start n : ℕ) → length (slots items cap start n) ≡ n
length-slots items cap start zero = refl
length-slots items cap start (suc n) =
    length-append (slots items cap start n) _ ∙ omega (arith, length-slots items cap start n)

turn_start : (cap start n : ℕ) → start < cap → (start + suc n) % cap ≡ ((start + 1) % cap + n) % cap
turn_start cap start n h = rw mod-add-mod (ap (λ k. k % cap) (omega arith))

turn_apart :
    (cap start n k : ℕ) → start < cap → suc n ≤ k → k < cap → (start + k) % cap ≢ (start + n) % cap
turn_apart cap start n k h a b = grind (arith, turn cap (start + k), turn cap (start + n))

-- The oldest slot comes off the front.
slots-first :
    (items : List ℕ) (cap start n : ℕ)
    → start < cap
    → suc n ≤ cap
    → slots items cap start (suc n) ≡ get_or items start 0 ∷ slots items cap ((start + 1) % cap) n
slots-first items cap start zero h k = rw (add-zero, mod-eq_of_lt h)
slots-first items cap start (suc n) h k =
    ap₂ (λ front x. front ++ x ∷ []) (slots-first items cap start n h (omega arith))
      (ap (λ i. get_or items i 0) (turn_start cap start n h))

-- A write past the window leaves it alone.
slots-set :
    (items : List ℕ) (cap start n k v : ℕ)
    → start < cap
    → n ≤ k
    → k < cap
    → slots (set items ((start + k) % cap) v) cap start n ≡ slots items cap start n
slots-set items cap start zero k v h a b = refl
slots-set items cap start (suc n) k v h a b =
    ap₂ (λ front x. front ++ x ∷ []) (slots-set items cap start n k v h (omega arith) b)
      (get_or-set_ne items v 0 (turn_apart cap start n k h a b))

abbrev pub contents : SocketQueue → List ℕ
contents q = slots q.items q.capacity q.head q.count

abbrev pub view : SocketQueue → Fifo
view q = record { waiting = contents q; is_closed = q.shutdown }

-- A request carried out by the source's functions.
abbrev reply_of : Attempt → SocketQueue → Reply × SocketQueue
reply_of wait q = (blocked, q)
reply_of (leave ok (some fd) _ q') q = (got fd, q')
reply_of (leave _ _ _ q') q = (got_closed, q')

unfoldable pub perform : SocketQueue → Request → Reply × SocketQueue
perform q (put fd) = let (result, _, q') = enqueue_locked q fd in (put_result result, q')
perform q get = reply_of (dequeue_attempt q) q
perform q close = (done, (shutdown_locked q).1)

unfoldable pub perform_all : SocketQueue → List Request → List Reply
unfolding perform
perform_all q [] = []
perform_all q (r ∷ rs) = let (reply, q') = perform q r in reply ∷ perform_all q' rs

-- What `enqueue` writes stands behind the window.
pub enqueue-contents :
    {q : SocketQueue} (fd : ℕ)
    → IsValid q
    → q.count ≢ q.capacity
    → slots (set q.items q.tail fd) q.capacity q.head (add_size q.count 1) ≡ contents q ++ fd ∷ []
enqueue-contents {q} fd v ne =
    let more : add_size q.count 1 ≡ suc q.count = omega arith in
    ap₂ (λ t n. slots (set q.items t fd) q.capacity q.head n) v.tail_is more
    ∙ ap₂ (λ front x. front ++ x ∷ [])
        (slots-set q.items q.capacity q.head q.count q.count fd v.head_in (omega arith)
          (omega arith))
        (get_or-set_self q.items ((q.head + q.count) % q.capacity) fd 0 (omega arith))

-- What `dequeue` reads stood in front of it.
pub dequeue-contents :
    {q : SocketQueue}
    → IsValid q
    → q.count ≢ 0
    → contents q
      ≡ get_or q.items q.head 0
        ∷ slots q.items q.capacity (add_size q.head 1 % q.capacity) (q.count - 1)
dequeue-contents {q} v ne =
    let some_left : q.count ≡ suc (q.count - 1) = omega arith in
    let next : add_size q.head 1 ≡ q.head + 1 = omega arith in
    rw next (
      ap (λ n. slots q.items q.capacity q.head n) some_left
      ∙ slots-first q.items q.capacity q.head (q.count - 1) v.head_in (omega arith))

enqueue-view :
    {q : SocketQueue} (fd : ℕ)
    → IsValid q
    → let (result, _, q') = enqueue_locked q fd in
      (put_result result, view q') ≡ serve q.capacity (view q) (put fd)
unfolding enqueue_locked serve
enqueue-view {q} fd v =
    ground (arith, length-slots q.items q.capacity q.head q.count, enqueue-contents fd v)

pub slots-none : (q : SocketQueue) → q.count ≡ 0 → contents q ≡ []
slots-none q e = rw e

dequeue-view :
    {q : SocketQueue}
    → IsValid q
    → let (reply, q') = reply_of (dequeue_attempt q) q in
      (reply, view q') ≡ serve q.capacity (view q) get
unfolding dequeue_attempt serve
dequeue-view {q} v = ground (arith, slots-none q, dequeue-contents v, no_wrap v)

pub perform-view :
    {q : SocketQueue} (r : Request)
    → IsValid q
    → let (reply, q') = perform q r in (reply, view q') ≡ serve q.capacity (view q) r
unfolding perform
perform-view (put fd) v = enqueue-view fd v
perform-view get v = dequeue-view v
perform-view {q} close v = unfold shutdown_locked serve in refl

dequeue-IsValid : {q : SocketQueue} → IsValid q → IsValid (reply_of (dequeue_attempt q) q).1
unfolding dequeue_attempt
dequeue-IsValid {q} v = ground (arith, head_next q.capacity q.head (q.count - 1))

pub perform-IsValid : {q : SocketQueue} (r : Request) → IsValid q → IsValid (perform q r).1
unfolding perform
perform-IsValid (put fd) v = enqueue_locked-IsValid fd v
perform-IsValid get v = dequeue-IsValid v
perform-IsValid close v = shutdown_locked-IsValid v

pub capacity-perform : (q : SocketQueue) (r : Request) → (perform q r).1.capacity ≡ q.capacity
unfolding perform enqueue_locked dequeue_attempt shutdown_locked
capacity-perform q (put fd) = ground arith
capacity-perform q get = ground arith
capacity-perform q close = refl

-- No sequence of enqueues, dequeues and shutdowns tells a valid ring from the bounded FIFO of its
-- contents: each request gets the same reply.
pub perform_all_refines :
    (rs : List Request) {q : SocketQueue}
    → IsValid q
    → perform_all q rs ≡ serve_all q.capacity (view q) rs
unfolding perform_all serve_all
perform_all_refines [] v = refl
perform_all_refines (r ∷ rs) {q} v =
    rw (perform_all_refines rs (perform-IsValid r v), ← perform-view r v, capacity-perform)
