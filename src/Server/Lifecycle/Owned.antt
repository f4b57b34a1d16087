-- ===== src/Server/Lifecycle/Owned.antt =====
-- What a server owns between `server_init` and `server_destroy`, through signals.
use final_system_progamming.Common.{
  ℕ, zero, suc, ◌≡◌, refl, ◌∙◌, [], ◌∷◌, Option, none, some, count-append, arith,
}
use final_system_progamming.Queue.{SocketQueue, socket_queue_shutdown}
use final_system_progamming.Queue.Resources.{socket_queue_destroy, is_some}
use final_system_progamming.Log.{access_log_close}
use final_system_progamming.Server.Listen.{Net}
use final_system_progamming.Server.Listen.First.{Adds}
use final_system_progamming.Server.Lifecycle.{
  ServerState, Held, close_listening, server_stop, server_destroy, handle_signals,
}

abbrev pub destroyed : ServerState × Held → Held
destroyed (server, held) = (server_destroy server held).1

-- Nothing is held, and what was opened since `before` has been closed, each exactly once.
abbrev pub GivenBack : Net → Held → Type 0
GivenBack before held = (held.of_queue ≡ []) × (held.of_log ≡ []) × Adds none before held.net

-- What a server owns, between `server_init` and `server_destroy`.
unfoldable pub Owns : Net → ServerState × Held → Type 0
Owns before (server, held) =
    (socket_queue_destroy (is_some server.queue) held.of_queue ≡ [])
    × (access_log_close server.access_log held.of_log ≡ [])
    × Adds server.listen_fd before held.net

Adds-close :
    (fd : Option ℕ) (before net : Net)
    → Adds fd before net
    → Adds none before (close_listening fd net)
Adds-close none before net h = h
Adds-close (some fd) before net h =
    (λ x. omega (arith, h.0 x, count-append x net.closed (fd ∷ [])), h.1)

is_some-shutdown : (q : Option SocketQueue) → is_some (socket_queue_shutdown q).1 ≡ is_some q
unfolding socket_queue_shutdown
is_some-shutdown none = refl
is_some-shutdown (some q) = refl

server_stop-Owns :
    (before : Net) (server : ServerState) (held : Held)
    → Owns before (server, held)
    → Owns before (server_stop server held)
unfolding Owns server_stop
server_stop-Owns before server held h =
    (rw is_some-shutdown h.0, h.1, Adds-close server.listen_fd before held.net h.2)

pub handle_signals-is_some :
    (n : ℕ) (state : ServerState × Held)
    → is_some (handle_signals n state).0.queue ≡ is_some state.0.queue
unfolding handle_signals server_stop
handle_signals-is_some zero state = refl
handle_signals-is_some (suc n) (server, held) =
    handle_signals-is_some n (server_stop server held) ∙ is_some-shutdown server.queue

pub handle_signals-Owns :
    (n : ℕ) (before : Net) (server : ServerState) (held : Held)
    → Owns before (server, held)
    → Owns before (handle_signals n (server, held))
unfolding handle_signals
handle_signals-Owns zero before server held h = h
handle_signals-Owns (suc n) before server held h =
    handle_signals-Owns n before (server_stop server held).0 (server_stop server held).1
      (server_stop-Owns before server held h)

pub destroyed-GivenBack :
    (before : Net) (state : ServerState × Held)
    → Owns before state
    → GivenBack before (destroyed state)
unfolding Owns server_destroy
destroyed-GivenBack before (server, held) h =
    (h.0, h.1, Adds-close server.listen_fd before held.net h.2)
