-- ===== src/Queue/Resources.antt =====
-- `socket_queue_init` and `socket_queue_destroy`, with what they acquire and give back.
use final_system_progamming.Common.{
  ℕ, ◌≡◌, Bool, true, false, not, ◌&&◌, List, [], ◌∷◌, Option, none, some, ◌==◌, if◌then◌else◌,
  arith,
}
use final_system_progamming.Queue.{SocketQueue, fresh}

-- The two allocations, and the three objects of <pthread.h>.
pub data Resource : Type 0 where
  struct_block items_block mutex not_empty_cond not_full_cond : Resource

abbrev resource_eq : Resource → Resource → Bool
resource_eq struct_block struct_block = true
resource_eq items_block items_block = true
resource_eq mutex mutex = true
resource_eq not_empty_cond not_empty_cond = true
resource_eq not_full_cond not_full_cond = true
resource_eq _ _ = false

-- `free` and the `_destroy` functions.
abbrev pub release : Resource → List Resource → List Resource
release r [] = []
release r (h ∷ held) = if resource_eq r h then held else h ∷ release r held

-- How the system answers the five requests of `socket_queue_init`.
pub record Answers : Type 0 where
  pub struct_calloc : Bool
  pub items_calloc : Bool
  pub mutex_init : Bool
  pub not_empty_init : Bool
  pub not_full_init : Bool

-- The queue that is stored through `queue`, if it returns 0, and what is held on return.
unfoldable pub socket_queue_init : Answers → ℕ → Option SocketQueue × List Resource
socket_queue_init a capacity =
    let block = struct_block ∷ [] in
    let array = items_block ∷ block in
    let locked = mutex ∷ array in
    let waitable = not_empty_cond ∷ locked in
    if capacity == 0
    then (none, [])
    else if not a.struct_calloc
    then (none, [])
    else if not a.items_calloc
    then (none, release struct_block block)
    else if not a.mutex_init
    then (none, release struct_block (release items_block array))
    else if not a.not_empty_init
    then (none, release struct_block (release items_block (release mutex locked)))
    else if not a.not_full_init
    then (
      none,
      release struct_block (release items_block (release mutex (release not_empty_cond waitable))),
    )
    else (some (fresh capacity), not_full_cond ∷ waitable)

-- What is still held after `socket_queue_destroy`; the flag is `queue != NULL`.
unfoldable pub socket_queue_destroy : Bool → List Resource → List Resource
socket_queue_destroy false held = held
socket_queue_destroy true held =
    release struct_block
      (release items_block (release mutex (release not_full_cond (release not_empty_cond held))))

abbrev pub all_granted : Answers → Bool
all_granted a =
    a.struct_calloc && a.items_calloc && a.mutex_init && a.not_empty_init && a.not_full_init

abbrev pub is_some : Option SocketQueue → Bool
is_some none = false
is_some (some q) = true

-- `socket_queue_init` makes an empty queue of the capacity exactly when the capacity is not 0 and
-- the system grants all five requests. After `socket_queue_destroy` on what it stored, which does
-- nothing if that is null, nothing is held: a failed call leaks nothing, and a queue that was made
-- is given back whole.
pub destroy-init :
    (a : Answers) (capacity : ℕ)
    → let (q, held) = socket_queue_init a capacity in
      (q ≡ (if not (capacity == 0) && all_granted a then some (fresh capacity) else none))
      × (socket_queue_destroy (is_some q) held ≡ [])
unfolding socket_queue_init socket_queue_destroy
destroy-init a capacity = ground arith
