-- ===== src/Main/Program/Released.antt =====
-- How the program ends, and that it gives back what it acquired.
use final_system_progamming.Common.{
  ℕ, suc, ◌≡◌, refl, ap, ◌∙◌, Bool, true, false, ◌&&◌, Option, none, some, arith, if◌then◌else◌,
}
use final_system_progamming.Queue.{SocketQueue}
use final_system_progamming.Queue.Pool.{
  PoolAnswers, ThreadPool, thread_pool_start, thread_pool_stop, pool_starts,
  thread_pool_start-result, AllOrNone, thread_pool_start-AllOrNone,
}
use final_system_progamming.Queue.Resources.{is_some}
use final_system_progamming.Server.Config.{ServerConfig, default_config}
use final_system_progamming.Server.Listen.{Net}
use final_system_progamming.Server.Lifecycle.{
  ServerState, Held, SystemAnswers, Initialized, server_init, handle_signals,
}
use final_system_progamming.Server.Lifecycle.Owned.{
  GivenBack, Owns, handle_signals-Owns, handle_signals-is_some, destroyed-GivenBack,
}
use final_system_progamming.Server.Lifecycle.Balanced.{
  can_start, address_for, Ends, server_init-Ends, failed-GivenBack,
}
use final_system_progamming.Server.Lifecycle.Configured.{config-server_init}
use final_system_progamming.Main.Options.{Given}
use final_system_progamming.Main.Options.LastWins.{all_good, chosen, read_options-chosen}
use final_system_progamming.Main.Program.{
  Exit, Ran, queue_or, stopped_after, with_pool, run_with, server_run, with_server, with_config,
  run_main,
}

-- Each thread of the pool that was created has been joined, once.
abbrev pub AllJoined : Option ThreadPool → Type 0
AllJoined none = Unit
AllJoined (some pool) = pool.joined ≡ pool.created

with_queue-Owns :
    (net : Net) (server : ServerState) (held : Held) (q : SocketQueue)
    → is_some server.queue ≡ true
    → Owns net (server, held)
    → Owns net (record server { queue = some q }, held)
unfolding Owns
with_queue-Owns net server held q s o = (rw s at o.0, o.1, o.2)

-- What a run of the server leaves, which is to succeed or not.
AfterRun : Net → Bool → Ran → Type 0
AfterRun net ok ran =
    (ran.code ≡ (if ok then 0 else 1)) × Owns net (ran.server, ran.held) × AllJoined ran.pool

-- A stop joins the same threads whatever the queue is.
stop-joined :
    (pool : ThreadPool) (q : SocketQueue)
    → (thread_pool_stop pool).joined ≡ pool.created
    → let stopped = thread_pool_stop (record pool { queue = q }) in stopped.joined ≡ stopped.created
unfolding thread_pool_stop
stop-joined pool q h = ground (arith, h)

stopped_after-AfterRun :
    (net : Net) (pool : ThreadPool) (state : ServerState × Held)
    → Owns net state
    → is_some state.0.queue ≡ true
    → (thread_pool_stop pool).joined ≡ pool.created
    → AfterRun net true (stopped_after pool state)
unfolding AfterRun
stopped_after-AfterRun net pool (server, held) o s j = (
  refl,
  with_queue-Owns net server held _ s o,
  stop-joined pool (queue_or server.queue pool.queue) j,
)

with_pool-AfterRun :
    (net : Net) (signals : ℕ) (server : ServerState) (held : Held) (count : ℕ)
    (started : Bool × ThreadPool)
    → Owns net (server, held)
    → is_some server.queue ≡ true
    → AllOrNone count started
    → (thread_pool_stop started.1).joined ≡ started.1.created
    → AfterRun net started.0 (with_pool signals server held started)
unfolding AfterRun
with_pool-AfterRun net signals server held count (false, pool) o s all j =
    (refl, with_queue-Owns net server held pool.queue s o, all.0)
with_pool-AfterRun net signals server held count (true, pool) o s all j =
    let start = record server { queue = some pool.queue } in
    stopped_after-AfterRun net pool (handle_signals (suc signals) (start, held))
      (handle_signals-Owns (suc signals) net start held (with_queue-Owns net server held _ s o))
      (handle_signals-is_some (suc signals) (start, held)) j

run_with-AfterRun :
    (net : Net) (answers : PoolAnswers) (signals : ℕ) (server : ServerState) (held : Held)
    (queue : Option SocketQueue) (ok : Bool)
    → pool_starts answers server.config.thread_count ≡ ok
    → Owns net (server, held)
    → is_some server.queue ≡ true
    → server.queue ≡ queue
    → AfterRun net ok (run_with answers signals server held queue)
run_with-AfterRun net answers signals server held none ok p o s e = absurd (ground (arith, s, e))
run_with-AfterRun net answers signals server held (some q) ok p o s e =
    let count = server.config.thread_count in
    let all = thread_pool_start-AllOrNone answers q count in
    rw (← (thread_pool_start-result answers q count ∙ p)) (
      with_pool-AfterRun net signals server held count (thread_pool_start answers q count) o s all.0
        all.1)

-- How `main` ends that is to succeed or not.
abbrev Ended : Net → Bool → Exit → Type 0
Ended net ok e = (e.exit_code ≡ (if ok then 0 else 1)) × GivenBack net e.held × AllJoined e.pool

with_server-Ended :
    (net : Net) (answers : PoolAnswers) (signals : ℕ) (started ok : Bool) (fd : Option ℕ)
    (made : Initialized)
    → pool_starts answers made.1.config.thread_count ≡ ok
    → Ends started fd net made
    → Ended net (started && ok) (with_server answers signals made)
unfolding Ends server_run AfterRun
with_server-Ended net answers signals true ok fd (false, server, held) p h =
    absurd (ground (arith, h.0))
with_server-Ended net answers signals false ok fd (true, server, held) p h =
    absurd (ground (arith, h.0))
with_server-Ended net answers signals false ok fd (false, server, held) p h =
    (refl, failed-GivenBack fd net (false, server, held) h, tt)
with_server-Ended net answers signals true ok fd (true, server, held) p h =
    let ran = run_with-AfterRun net answers signals server held server.queue ok p h.4 h.2 refl in
    (ran.0, destroyed-GivenBack net _ ran.1, ran.2)

with_config-Ended :
    (system : SystemAnswers) (answers : PoolAnswers) (signals : ℕ) (net : Net)
    (config : ServerConfig) (ok : Bool)
    → Ended net
        (ok && (can_start system config && pool_starts answers config.thread_count))
        (with_config system answers signals net (if ok then some config else none))
with_config-Ended system answers signals net config false =
    (refl, (refl, refl, (λ x. omega arith, refl)), tt)
with_config-Ended system answers signals net config true =
    with_server-Ended net answers signals (can_start system config)
      (pool_starts answers config.thread_count) (address_for system config)
      (server_init system config net)
      (ap (λ c. pool_starts answers c.thread_count) (config-server_init system config net))
      (server_init-Ends system config net)

-- `main` exits with 0 exactly when the loop over the options accepts the command line, the server
-- can start with the configuration chosen, and the pool starts with its number of threads; else it
-- exits with 1. Either way, and however many signals, one at least, are handled while it runs,
-- nothing is held at the end, each socket that was opened for listening has been closed once, and
-- each thread that was created has been joined once.
pub run_main-exit :
    (given : Given) (system : SystemAnswers) (answers : PoolAnswers) (signals : ℕ) (net : Net)
    → let config = chosen given default_config in
      let ok =
        all_good given && (can_start system config && pool_starts answers config.thread_count) in
      let ended = run_main given system answers signals net in
      (ended.exit_code ≡ (if ok then 0 else 1)) × GivenBack net ended.held × AllJoined ended.pool
unfolding run_main
run_main-exit given system answers signals net =
    let config = chosen given default_config in
    rw (read_options-chosen given default_config)
      (with_config-Ended system answers signals net config (all_good given))
