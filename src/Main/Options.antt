-- ===== src/Main/Options.antt =====
-- The loop over the options in `main` (src/main.c). What `getopt` returns is a parameter: the
-- characters up to the -1, each with what `optarg` then is.
pub mod LastWins
pub mod InRange
use final_system_progamming.Common.{
  ℕ, List, [], ◌∷◌, Option, none, some, Bytes, ◌==◌, if◌then◌else◌,
}
use final_system_progamming.Main.{parse_positive_int}
use final_system_progamming.Server.Config.{ServerConfig}

abbrev pub Given : Type 0
Given = List (ℕ × Bytes)

abbrev pub set_number : Option ℕ → (ℕ → ServerConfig) → Option ServerConfig
set_number none set = none
set_number (some value) set = some (set value)

-- The `switch`; `none` is the return of 1 with the usage.
abbrev pub set_option : ℕ → Bytes → ServerConfig → Option ServerConfig
set_option option optarg config =
    if option == b'h'
    then some (record config { host = optarg })
    else if option == b'p'
    then set_number (parse_positive_int optarg) (λ n. record config { port = n })
    else if option == b'r'
    then some (record config { doc_root = optarg })
    else if option == b't'
    then set_number (parse_positive_int optarg) (λ n. record config { thread_count = n })
    else if option == b'q'
    then set_number (parse_positive_int optarg) (λ n. record config { queue_capacity = n })
    else if option == b'l'
    then some (record config { access_log = optarg })
    else none

-- The loop, where an option before has not ended it.
unfoldable pub read_options : Given → Option ServerConfig → Option ServerConfig
read_options given none = none
read_options [] (some config) = some config
read_options ((option, optarg) ∷ given) (some config) =
    read_options given (set_option option optarg config)
