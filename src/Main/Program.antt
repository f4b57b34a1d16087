-- ===== src/Main/Program.antt =====
-- `main` (src/main.c), over the calls of the server's parts, and what `server_run` (src/server.c)
-- starts and stops; the loop between is `Server.Accept`.
pub mod Released
use final_system_progamming.Common.{ℕ, suc, Bool, true, false, List, [], Option, none, some, Bytes}
use final_system_progamming.Queue.{SocketQueue}
use final_system_progamming.Queue.Pool.{
  PoolAnswers, ThreadPool, thread_pool_start, thread_pool_stop,
}
use final_system_progamming.Server.Config.{ServerConfig, default_config}
use final_system_progamming.Server.Listen.{Net}
use final_system_progamming.Server.Lifecycle.{
  ServerState, Held, SystemAnswers, Initialized, server_init, server_destroy, handle_signals,
}
use final_system_progamming.Main.Options.{Given, read_options}

-- How a run ends: the exit code, what is then held, and the pool, if there was one.
pub record Exit : Type 0 where
  pub exit_code : ℕ
  pub held : Held
  pub pool : Option ThreadPool

abbrev queue_or : Option SocketQueue → SocketQueue → SocketQueue
queue_or none other = other
queue_or (some q) other = q

-- What `server_run` leaves behind.
pub record Ran : Type 0 where
  pub code : ℕ
  pub server : ServerState
  pub held : Held
  pub pool : Option ThreadPool

-- The loop is over, which takes a signal, and the pool is stopped.
abbrev pub stopped_after : ThreadPool → ServerState × Held → Ran
stopped_after pool (server, held) =
    let pool' = thread_pool_stop (record pool { queue = queue_or server.queue pool.queue }) in
    record {
      code = 0;
      server = record server { queue = some pool'.queue };
      held = held;
      pool = some pool';
    }

-- Behind the call of `thread_pool_start`, which shares the server's queue; so many signals and one
-- more are handled.
abbrev pub with_pool : ℕ → ServerState → Held → Bool × ThreadPool → Ran
with_pool signals server held (false, pool) = record {
  code = 1;
  server = record server { queue = some pool.queue };
  held = held;
  pool = some pool;
}
with_pool signals server held (true, pool) =
    stopped_after pool
      (handle_signals (suc signals) (record server { queue = some pool.queue }, held))

abbrev pub run_with : PoolAnswers → ℕ → ServerState → Held → Option SocketQueue → Ran
run_with answers signals server held none = record {
  code = 1;
  server = server;
  held = held;
  pool = none;
}
run_with answers signals server held (some q) =
    with_pool signals server held (thread_pool_start answers q server.config.thread_count)

unfoldable pub server_run : PoolAnswers → ℕ → ServerState → Held → Ran
server_run answers signals server held = run_with answers signals server held server.queue

-- The server runs, and is destroyed.
abbrev pub run_and_destroy : Ran → Exit
run_and_destroy ran = record {
  exit_code = ran.code;
  held = (server_destroy ran.server ran.held).1;
  pool = ran.pool;
}

abbrev pub with_server : PoolAnswers → ℕ → Initialized → Exit
with_server answers signals (false, server, held) = record {
  exit_code = 1;
  held = held;
  pool = none;
}
with_server answers signals (true, server, held) =
    run_and_destroy (server_run answers signals server held)

abbrev pub with_config : SystemAnswers → PoolAnswers → ℕ → Net → Option ServerConfig → Exit
with_config system answers signals net none = record {
  exit_code = 1;
  held = record { of_queue = []; of_log = []; net = net };
  pool = none;
}
with_config system answers signals net (some config) =
    with_server answers signals (server_init system config net)

-- The options come as `getopt` gives them.
unfoldable pub run_main : Given → SystemAnswers → PoolAnswers → ℕ → Net → Exit
run_main given system answers signals net =
    with_config system answers signals net (read_options given (some default_config))
