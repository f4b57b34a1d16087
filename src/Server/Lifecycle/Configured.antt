-- ===== src/Server/Lifecycle/Configured.antt =====
-- The server keeps the configuration that it was given.
use final_system_progamming.Common.{◌≡◌, refl, Bool, true, false, List, [], Option, none, some, ℕ}
use final_system_progamming.Queue.{SocketQueue}
use final_system_progamming.Queue.Resources.{Resource, socket_queue_init}
use final_system_progamming.Log.{LogResource, access_log_open}
use final_system_progamming.Server.Config.{ServerConfig}
use final_system_progamming.Server.Listen.{Net, GetAddrInfo, create_listening_socket}
use final_system_progamming.Server.Lifecycle.{
  ServerState, Held, SystemAnswers, blank, with_socket, with_log, with_queue, server_init,
}

config-with_socket :
    (server : ServerState) (held : Held) (found : Option ℕ × Net)
    → (with_socket server held found).1.config ≡ server.config
config-with_socket server held (none, net) = refl
config-with_socket server held (some fd, net) = refl

config-with_log :
    (getaddrinfo : GetAddrInfo) (server : ServerState) (held : Held)
    (opened : Bool × List LogResource)
    → (with_log getaddrinfo server held opened).1.config ≡ server.config
config-with_log getaddrinfo server held (false, of_log) = refl
config-with_log getaddrinfo server held (true, of_log) =
    config-with_socket (record server { access_log = true }) (record held { of_log = of_log })
      (create_listening_socket getaddrinfo server.config held.net)

config-with_queue :
    (answers : SystemAnswers) (server : ServerState) (held : Held)
    (made : Option SocketQueue × List Resource)
    → (with_queue answers server held made).1.config ≡ server.config
config-with_queue answers server held (none, of_queue) = refl
config-with_queue answers server held (some q, of_queue) =
    config-with_log answers.getaddrinfo (record server { queue = some q })
      (record held { of_queue = of_queue })
      (access_log_open (answers.for_log server.config.access_log))

pub config-server_init :
    (answers : SystemAnswers) (config : ServerConfig) (net : Net)
    → (server_init answers config net).1.config ≡ config
unfolding server_init
config-server_init answers config net =
    config-with_queue answers (blank config) (record { of_queue = []; of_log = []; net = net })
      (socket_queue_init answers.for_queue config.queue_capacity)
