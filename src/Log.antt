-- ===== src/Log.antt =====
-- The access log (src/log.c, include/log.h). The clock, and what `fopen` and the other calls of
-- the system answer, are parameters.
pub mod Lines
use final_system_progamming.Common.{
  ℕ, ◌≡◌, Bool, true, false, not, ◌&&◌, List, [], ◌∷◌, ◌++◌, Option, none, some, Bytes, codes,
  decimal, c_string, if◌then◌else◌, arith,
}

-- The block of the struct, the open file and the mutex.
pub data LogResource : Type 0 where
  log_block log_file log_mutex : LogResource

-- How the system answers the requests of `access_log_open`.
pub record LogAnswers : Type 0 where
  pub log_calloc : Bool
  pub log_fopen : Bool
  pub log_mutex_init : Bool

abbrev log_resource_eq : LogResource → LogResource → Bool
log_resource_eq log_block log_block = true
log_resource_eq log_file log_file = true
log_resource_eq log_mutex log_mutex = true
log_resource_eq _ _ = false

-- `free`, `fclose` and `pthread_mutex_destroy`.
abbrev pub give_back : LogResource → List LogResource → List LogResource
give_back r [] = []
give_back r (h ∷ held) = if log_resource_eq r h then held else h ∷ give_back r held

-- Whether it returns 0, and what is held on return.
unfoldable pub access_log_open : LogAnswers → Bool × List LogResource
access_log_open a =
    let block = log_block ∷ [] in
    let file = log_file ∷ block in
    if not a.log_calloc
    then (false, [])
    else if not a.log_fopen
    then (false, give_back log_block block)
    else if not a.log_mutex_init
    then (false, give_back log_block (give_back log_file file))
    else (true, log_mutex ∷ file)

-- What is held after `access_log_close`; the flag is `log != NULL`.
unfoldable pub access_log_close : Bool → List LogResource → List LogResource
access_log_close false held = held
access_log_close true held = give_back log_block (give_back log_file (give_back log_mutex held))

-- The line that `fprintf` writes; the texts are those of C strings.
unfoldable pub log_line : Bytes → Bytes → Bytes → ℕ → ℕ → Bytes
log_line client_ip timestamp request_line status_code bytes_sent =
    client_ip
    ++ (codes " - - ["
        ++ (timestamp
            ++ (codes "] \""
                ++ (request_line
                    ++ (codes "\" "
                        ++ (decimal status_code
                            ++ (codes " " ++ (decimal bytes_sent ++ codes "\n"))))))))

-- The file once a call is over, whose line is written and flushed under the mutex. The timestamp
-- is what `strftime` makes of the time of the call; the pointers are not null.
unfoldable pub access_log_write : Bytes → Bytes → Bytes → Bytes → ℕ → ℕ → Bytes
unfolding log_line
access_log_write file timestamp client_ip request_line status_code bytes_sent =
    file ++ log_line (c_string client_ip) timestamp (c_string request_line) status_code bytes_sent
