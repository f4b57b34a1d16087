-- ===== src/Server/Lifecycle.antt =====
-- `server_init`, `server_stop` and `server_destroy` (src/server.c, include/server.h). The answers
-- of the system are a parameter; the server and the configuration are not null.
pub mod Owned
pub mod Balanced
pub mod Configured
use final_system_progamming.Common.{
  ℕ, zero, suc, Bool, true, false, not, List, [], ◌∷◌, ◌++◌, Option, none, some, Bytes,
  if◌then◌else◌,
}
use final_system_progamming.Queue.{SocketQueue, socket_queue_shutdown}
use final_system_progamming.Queue.Resources.{
  Resource, Answers, socket_queue_init, socket_queue_destroy, is_some,
}
use final_system_progamming.Log.{LogResource, LogAnswers, access_log_open, access_log_close}
use final_system_progamming.Server.Config.{ServerConfig}
use final_system_progamming.Server.Listen.{Net, GetAddrInfo, close_fd, create_listening_socket}

-- `server_t`, but for its pool; the flag of the log is that its pointer is not null, and a
-- `listen_fd` of -1 is `none`.
pub record ServerState : Type 0 where
  pub config : ServerConfig
  pub listen_fd : Option ℕ
  pub should_stop : Bool
  pub queue : Option SocketQueue
  pub access_log : Bool

-- What the process holds for the server, and what it opened and closed.
pub record Held : Type 0 where
  pub of_queue : List Resource
  pub of_log : List LogResource
  pub net : Net

pub record SystemAnswers : Type 0 where
  pub for_queue : Answers
  pub for_log : Bytes → LogAnswers
  pub getaddrinfo : GetAddrInfo

-- After `memset`, with the configuration and no socket.
abbrev pub blank : ServerConfig → ServerState
blank config = record {
  config = config;
  listen_fd = none;
  should_stop = false;
  queue = none;
  access_log = false;
}

-- Whether `server_init` returns 0, with the server and what is held.
abbrev pub Initialized : Type 0
Initialized = Bool × ServerState × Held

-- Behind the call of `create_listening_socket`.
abbrev pub with_socket : ServerState → Held → Option ℕ × Net → Initialized
with_socket server held (none, net) = (
  false,
  record server { access_log = false; queue = none },
  record {
    of_queue = socket_queue_destroy (is_some server.queue) held.of_queue;
    of_log = access_log_close server.access_log held.of_log;
    net = net;
  },
)
with_socket server held (some fd, net) =
    (true, record server { listen_fd = some fd }, record held { net = net })

-- Behind the call of `access_log_open`.
abbrev pub with_log : GetAddrInfo → ServerState → Held → Bool × List LogResource → Initialized
with_log getaddrinfo server held (false, of_log) = (
  false,
  record server { queue = none },
  record held {
    of_queue = socket_queue_destroy (is_some server.queue) held.of_queue;
    of_log = of_log;
  },
)
with_log getaddrinfo server held (true, of_log) =
    with_socket (record server { access_log = true }) (record held { of_log = of_log })
      (create_listening_socket getaddrinfo server.config held.net)

-- Behind the call of `socket_queue_init`.
abbrev pub with_queue :
    SystemAnswers → ServerState → Held → Option SocketQueue × List Resource → Initialized
with_queue answers server held (none, of_queue) =
    (false, server, record held { of_queue = of_queue })
with_queue answers server held (some q, of_queue) =
    with_log answers.getaddrinfo (record server { queue = some q })
      (record held { of_queue = of_queue })
      (access_log_open (answers.for_log server.config.access_log))

unfoldable pub server_init : SystemAnswers → ServerConfig → Net → Initialized
server_init answers config net =
    with_queue answers (blank config) (record { of_queue = []; of_log = []; net = net })
      (socket_queue_init answers.for_queue config.queue_capacity)

abbrev pub close_listening : Option ℕ → Net → Net
close_listening none net = net
close_listening (some fd) net = close_fd fd net

-- The call from the signal handler.
unfoldable pub server_stop : ServerState → Held → ServerState × Held
server_stop server held = (
  record server {
    should_stop = true;
    listen_fd = none;
    queue = (socket_queue_shutdown server.queue).1;
  },
  record held { net = close_listening server.listen_fd held.net },
)

-- `handle_signal` (src/main.c), for so many signals.
unfoldable pub handle_signals : ℕ → ServerState × Held → ServerState × Held
handle_signals zero state = state
handle_signals (suc n) (server, held) = handle_signals n (server_stop server held)

unfoldable pub server_destroy : ServerState → Held → ServerState × Held
server_destroy server held = (
  record server { listen_fd = none; access_log = false; queue = none },
  record {
    of_queue = socket_queue_destroy (is_some server.queue) held.of_queue;
    of_log = access_log_close server.access_log held.of_log;
    net = close_listening server.listen_fd held.net;
  },
)
