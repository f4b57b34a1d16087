-- ===== src/Server/Lifecycle/Balanced.antt =====
-- What is acquired by `server_init` is given back.
use final_system_progamming.Common.{
  ℕ, ◌≡◌, refl, ap, ◌∙◌, Bool, true, false, not, ◌&&◌, List, [], Option, none, some, decimal,
  if◌then◌else◌, ◌==◌, arith,
}
use final_system_progamming.Queue.{SocketQueue, fresh}
use final_system_progamming.Queue.Resources.{
  Resource, socket_queue_destroy, is_some, all_granted, destroy-init,
}
use final_system_progamming.Log.{LogResource, LogAnswers, access_log_open, access_log_close}
use final_system_progamming.Server.Config.{ServerConfig}
use final_system_progamming.Server.Listen.{Net}
use final_system_progamming.Server.Listen.First.{first_of, Adds, create_listening_socket-first}
use final_system_progamming.Server.Lifecycle.Owned.{
  destroyed, GivenBack, Owns, handle_signals-Owns, destroyed-GivenBack,
}
use final_system_progamming.Server.Lifecycle.{
  ServerState, Held, SystemAnswers, Initialized, blank, with_socket, with_log, with_queue,
  server_init, handle_signals,
}

abbrev pub log_granted : LogAnswers → Bool
log_granted a = a.log_calloc && a.log_fopen && a.log_mutex_init

-- The address that the server will listen on, if there is one.
abbrev pub address_for : SystemAnswers → ServerConfig → Option ℕ
address_for answers config = first_of (answers.getaddrinfo config.host (decimal config.port))

abbrev is_found : Option ℕ → Bool
is_found none = false
is_found (some fd) = true

abbrev pub can_start : SystemAnswers → ServerConfig → Bool
can_start answers config =
    not (config.queue_capacity == 0)
    && all_granted answers.for_queue
    && log_granted (answers.for_log config.access_log)
    && is_found (address_for answers config)

access_log_open-close :
    (a : LogAnswers)
    → let (opened, held) = access_log_open a in
      (opened ≡ log_granted a) × (access_log_close opened held ≡ [])
unfolding access_log_open access_log_close
access_log_open-close a = ground arith

-- How a call of `server_init` ends that is to succeed or not, with the socket it has found.
unfoldable pub Ends : Bool → Option ℕ → Net → Initialized → Type 0
Ends started fd before (success, server, held) =
    (success ≡ started)
    × (server.listen_fd ≡ (if started then fd else none))
    × (is_some server.queue ≡ started)
    × (server.access_log ≡ started)
    × Owns before (server, held)

with_socket-Ends :
    (before : Net) (server : ServerState) (held : Held) (found : Option ℕ × Net) (fd : Option ℕ)
    → found.0 ≡ fd
    → Owns before (server, held)
    → is_some server.queue ≡ true
    → server.access_log ≡ true
    → server.listen_fd ≡ none
    → Adds found.0 before found.1
    → Ends (is_found fd) fd before (with_socket server held found)
unfolding Ends Owns
with_socket-Ends before server held (none, net) fd e o q l n a =
    rw (← e)
      (refl, n, refl, refl, unfold socket_queue_destroy access_log_close in (o.0, o.1, rw n a))
with_socket-Ends before server held (some found, net) fd e o q l n a =
    rw (← e) (refl, refl, q, l, (o.0, o.1, a))

module _ (answers : SystemAnswers) (server : ServerState) (held : Held) where
  with_log-Ends :
      (opened : Bool) (of_log : List LogResource)
      → socket_queue_destroy (is_some server.queue) held.of_queue ≡ []
      → access_log_close opened of_log ≡ []
      → is_some server.queue ≡ true
      → server.access_log ≡ false
      → server.listen_fd ≡ none
      → let fd = address_for answers server.config in
        Ends
          (opened && is_found fd)
          fd
          held.net
          (with_log answers.getaddrinfo server held (opened, of_log))
  unfolding Ends Owns socket_queue_destroy access_log_close
  with_log-Ends false of_log d c q l n =
      (refl, n, refl, l, (unfold socket_queue_destroy in d, rw l c, rw n (λ x. omega arith, refl)))
  with_log-Ends true of_log d c q l n =
      let first = create_listening_socket-first answers.getaddrinfo server.config held.net in
      with_socket-Ends held.net (record server { access_log = true })
        (record held { of_log = of_log }) _ _ first.0 (d, c, rw n (λ x. omega arith, refl)) q refl n
        first.1

is_some-if : (ok : Bool) (q : SocketQueue) → is_some (if ok then some q else none) ≡ ok
is_some-if true q = refl
is_some-if false q = refl

module _ (answers : SystemAnswers) (config : ServerConfig) (net : Net) where
  with_queue-Ends :
      (made : Option SocketQueue × List Resource) (ok : Bool)
      → is_some made.0 ≡ ok
      → socket_queue_destroy (is_some made.0) made.1 ≡ []
      → let fd = address_for answers config in
        Ends (ok && log_granted (answers.for_log config.access_log) && is_found fd) fd net (
          with_queue answers (blank config) (record { of_queue = []; of_log = []; net = net }) made)
  unfolding Ends Owns socket_queue_destroy access_log_close
  with_queue-Ends (none, of_queue) ok e d =
      rw (← e) (refl, refl, refl, refl, (d, refl, (λ x. omega arith, refl)))
  with_queue-Ends (some q, of_queue) ok e d =
      let a = answers.for_log config.access_log in
      let log = access_log_open-close a in
      rw (← e, ← log.0)
        (with_log-Ends answers (record (blank config) { queue = some q })
          (record { of_queue = of_queue; of_log = []; net = net }) (access_log_open a).0
          (access_log_open a).1 d log.1 refl refl refl)

  pub server_init-Ends :
      Ends
        (can_start answers config)
        (address_for answers config)
        net
        (server_init answers config net)
  unfolding server_init
  server_init-Ends =
      let made = destroy-init answers.for_queue config.queue_capacity in
      let ok = not (config.queue_capacity == 0) && all_granted answers.for_queue in
      with_queue-Ends _ ok (ap is_some made.0 ∙ is_some-if ok (fresh config.queue_capacity)) made.1

pub failed-GivenBack :
    (fd : Option ℕ) (before : Net) (made : Initialized)
    → Ends false fd before made
    → GivenBack before made.2
unfolding Ends Owns socket_queue_destroy access_log_close
failed-GivenBack fd before (success, server, held) h =
    (rw h.2 at h.4.0, rw h.3 at h.4.1, rw h.1 at h.4.2)

-- `server_init` returns 0 exactly when the capacity is not 0, the system grants every request of
-- the queue and the log, and an address can be listened on; the server then has a queue, a log and
-- the socket of the first such address, and else none of them. Then, however many signals are
-- handled, `server_destroy` leaves nothing held, and every socket that was opened is closed
-- exactly once: a start that fails leaks nothing, and a stop closes nothing twice.
pub server_init-GivenBack :
    (answers : SystemAnswers) (config : ServerConfig) (net : Net) (signals : ℕ)
    → let (success, server, held) = server_init answers config net in
      let started = can_start answers config in
      (success ≡ started)
      × (server.listen_fd ≡ (if started then address_for answers config else none))
      × (is_some server.queue ≡ started)
      × (server.access_log ≡ started)
      × GivenBack net (destroyed (handle_signals signals (server, held)))
unfolding Ends
server_init-GivenBack answers config net signals =
    let (success, server, held) = server_init answers config net in
    let ends = server_init-Ends answers config net in
    (
      ends.0,
      ends.1,
      ends.2,
      ends.3,
      destroyed-GivenBack net _ (handle_signals-Owns signals net server held ends.4),
    )
