-- ===== src/Tests/MainTests.antt =====
-- Runs of the command line and of `main`, and the results on them at an input.
use final_system_progamming.Common.{
  ◌≡◌, ◌↔◌, refl, [], ◌∷◌, codes, true, false, ◌==◌, some, none, if◌then◌else◌, ◌&&◌,
}
use final_system_progamming.Queue.Resources.{is_some}
use final_system_progamming.Queue.Pool.{PoolAnswers, pool_starts}
use final_system_progamming.Server.Config.{ServerConfig, default_config, IsConfig}
use final_system_progamming.Server.Listen.{Net, create_listening_socket, with_list, try_addresses}
use final_system_progamming.Server.Lifecycle.{SystemAnswers, server_init, handle_signals}
use final_system_progamming.Server.Lifecycle.Owned.{destroyed, GivenBack}
use final_system_progamming.Server.Lifecycle.Balanced.{
  can_start, address_for, server_init-GivenBack,
}
use final_system_progamming.Main.{parse_positive_int}
use final_system_progamming.Main.Numbers.{IsPositiveInt, parse_positive_int_exact}
use final_system_progamming.Main.Options.{Given, read_options}
use final_system_progamming.Main.Options.LastWins.{all_good, chosen, read_options-chosen}
use final_system_progamming.Main.Options.InRange.{read_options-IsConfig}
use final_system_progamming.Main.Program.{run_main}
use final_system_progamming.Main.Program.Released.{AllJoined, run_main-exit}

numbers :
    (parse_positive_int (codes " +80") ≡ some 80)
    × (parse_positive_int (codes "80x") ≡ none)
    × (parse_positive_int (codes "-80") ≡ none)
    × (parse_positive_int (codes "65536") ≡ none)
    × (parse_positive_int [] ≡ none)
unfolding parse_positive_int
numbers = (refl, refl, refl, refl, refl)

parse_positive_int_exact_example :
    (parse_positive_int (codes " +80") ≡ some 80) ↔ IsPositiveInt (codes " +80") 80
parse_positive_int_exact_example = parse_positive_int_exact (codes " +80") 80

-- `-t 2 -q 16 -t 3`
abbrev given : Given
given = (b't', codes "2") ∷ (b'q', codes "16") ∷ (b't', codes "3") ∷ []

abbrev config : ServerConfig
config = chosen given default_config

read_options-chosen_example :
    read_options given (some default_config) ≡ (if all_good given then some config else none)
read_options-chosen_example = read_options-chosen given default_config

given_read : read_options given (some default_config) ≡ some config
unfolding read_options parse_positive_int
given_read = refl

read_options-IsConfig_example : IsConfig config
read_options-IsConfig_example = read_options-IsConfig given config given_read

-- All is granted; the first address cannot be bound.
abbrev system : SystemAnswers
system = record {
  for_queue = record {
    struct_calloc = true;
    items_calloc = true;
    mutex_init = true;
    not_empty_init = true;
    not_full_init = true;
  };
  for_log = λ path. record { log_calloc = true; log_fopen = true; log_mutex_init = true };
  getaddrinfo = λ host port. some (
      record { socket = some 4; bind = false; listen = true }
      ∷ record { socket = some 5; bind = true; listen = true }
      ∷ []);
}

abbrev net : Net
net = record { opened = []; closed = []; lists = 0 }

listening :
    create_listening_socket system.getaddrinfo default_config net
    ≡ (some 5, record { opened = 4 ∷ 5 ∷ []; closed = 4 ∷ []; lists = 0 })
unfolding create_listening_socket with_list try_addresses
listening = refl

server_init-GivenBack_example :
    let (success, server, held) = server_init system config net in
    let started = can_start system config in
    (success ≡ started)
    × (server.listen_fd ≡ (if started then address_for system config else none))
    × (is_some server.queue ≡ started)
    × (server.access_log ≡ started)
    × GivenBack net (destroyed (handle_signals 2 (server, held)))
server_init-GivenBack_example = server_init-GivenBack system config net 2

-- The third thread cannot be created.
abbrev two_threads : PoolAnswers
two_threads = record {
  calloc = true;
  malloc = λ i. true;
  create = λ i. if i == 2 then false else true;
}

run_main-exit_example :
    let ok = all_good given && (can_start system config && pool_starts two_threads 3) in
    let ended = run_main given system two_threads 1 net in
    (ended.exit_code ≡ (if ok then 0 else 1)) × GivenBack net ended.held × AllJoined ended.pool
unfolding parse_positive_int
run_main-exit_example = run_main-exit given system two_threads 1 net
