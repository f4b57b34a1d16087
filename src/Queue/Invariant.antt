-- ===== src/Queue/Invariant.antt =====
-- The representation invariant of `struct socket_queue`.
use native.Mathlib.Decide.{dec_lt}
use native.Mathlib.Nat.{mod-add-mod, mod-eq_of_lt, mod-eq-sub-mod}
use final_system_progamming.Common.{
  add_size, ℕ, ◌+◌, ◌-◌, ◌⊎◌, inl, inr, ap, ◌∙◌, false, ◌%◌, ◌≤◌, ◌<◌, ◌≡◌, some, arith, get_elem?,
  get_or, length, length-set, length-replicate, get_elem?-eq-get_or, size_mod,
}
use final_system_progamming.Queue.{
  SocketQueue, fresh, enqueue_locked, Attempt, wait, leave, dequeue_attempt, shutdown_locked,
}

pub record IsValid (q : SocketQueue) : Type 0 where
  pub storage : length q.items ≡ q.capacity
  pub addressable : q.capacity < size_mod
  pub head_in : q.head < q.capacity
  pub tail_is : q.tail ≡ (q.head + q.count) % q.capacity
  pub count_in : q.count ≤ q.capacity

pub fresh-IsValid : (capacity : ℕ) → 0 < capacity → capacity < size_mod → IsValid (fresh capacity)
fresh-IsValid capacity h k = record {
  storage = length-replicate capacity 0;
  addressable = k;
  head_in = h;
  tail_is = omega arith;
  count_in = omega arith;
}

pub tail_in : {q : SocketQueue} → IsValid q → q.tail < q.capacity
tail_in v = omega arith

-- One turn round the array.
pub turn :
    (cap x : ℕ) → x < cap + cap → ((x < cap) × (x % cap ≡ x)) ⊎ ((cap ≤ x) × (x % cap ≡ x - cap))
turn cap x h = elim (dec_lt x cap) [
  | yes p ↦ inl (p, mod-eq_of_lt p)
  | no p ↦ inr (
    omega arith,
    mod-eq-sub-mod {n = x} {m = cap} (omega arith)
        ∙ mod-eq_of_lt {n = x - cap} {m = cap} (omega arith),
  )
]

-- The index that `enqueue` computes follows the window.
pub tail_next :
    (cap head count tail : ℕ)
    → cap < size_mod
    → head < cap
    → count < cap
    → tail ≡ (head + count) % cap
    → add_size tail 1 % cap ≡ (head + add_size count 1) % cap
tail_next cap head count tail a b c e =
    grind (arith, turn cap (head + count), turn cap (tail + 1), turn cap (head + (count + 1)))

pub head_next :
    (cap head count : ℕ)
    → cap < size_mod
    → head < cap
    → count < cap
    → (head + (count + 1)) % cap ≡ (add_size head 1 % cap + count) % cap
head_next cap head count a b c =
    let e : add_size head 1 ≡ head + 1 = omega arith in
    rw (e, mod-add-mod) (ap (λ k. k % cap) (omega arith))

pub enqueue_locked-IsValid :
    {q : SocketQueue} (client_fd : ℕ) → IsValid q → IsValid (enqueue_locked q client_fd).2
unfolding enqueue_locked
enqueue_locked-IsValid {q} client_fd v =
    ground (arith, length-set q.items q.tail client_fd, tail_next q.capacity q.head q.count q.tail)

-- What a worker leaves behind in the queue.
abbrev pub Left : SocketQueue → Attempt → Type 0
Left q wait = (q.count ≡ 0) × (q.shutdown ≡ false)
Left q (leave _ _ _ q') = IsValid q'

pub dequeue_attempt-IsValid : {q : SocketQueue} → IsValid q → Left q (dequeue_attempt q)
unfolding dequeue_attempt
dequeue_attempt-IsValid {q} v = ground (arith, head_next q.capacity q.head (q.count - 1))

pub shutdown_locked-IsValid : {q : SocketQueue} → IsValid q → IsValid (shutdown_locked q).1
unfolding shutdown_locked
shutdown_locked-IsValid v = record {
  storage = v.storage;
  addressable = v.addressable;
  head_in = v.head_in;
  tail_is = v.tail_is;
  count_in = v.count_in;
}

-- No `size_t` addition of the two operations wraps, and both indices lie in the array.
pub no_wrap :
    {q : SocketQueue}
    → IsValid q
    → (add_size q.head 1 ≡ q.head + 1)
      × (add_size q.tail 1 ≡ q.tail + 1)
      × (q.tail < length q.items)
      × (get_elem? q.items q.head ≡ some (get_or q.items q.head 0))
no_wrap {q} v = (
  omega arith,
  omega (arith, tail_in v),
  omega (arith, tail_in v),
  get_elem?-eq-get_or q.items q.head 0 (omega arith),
)
