-- ===== src/Main/Options/LastWins.antt =====
-- The last of each option counts, and every option is checked.
use final_system_progamming.Common.{
  ℕ, ◌≡◌, refl, ap, ◌∙◌, Bool, true, false, ◌&&◌, ◌||◌, [], ◌∷◌, Option, none, some, arith, Bytes,
  ◌==◌, if◌then◌else◌, Option-cases, Bool-cases, inl, inr,
}
use final_system_progamming.Main.{parse_positive_int}
use final_system_progamming.Main.Options.{Given, set_option, read_options}
use final_system_progamming.Server.Config.{ServerConfig}

abbrev is_number : Option ℕ → Bool
is_number none = false
is_number (some n) = true

-- A known option, and a number where it takes one.
abbrev pub is_good : ℕ → Bytes → Bool
is_good option optarg =
    option == b'h'
    || option == b'r'
    || option == b'l'
    || (option == b'p' || option == b't' || option == b'q') && is_number (parse_positive_int optarg)

abbrev pub all_good : Given → Bool
all_good [] = true
all_good ((option, optarg) ∷ given) = is_good option optarg && all_good given

-- The argument of the last option of this name, or the default.
abbrev pub last_text : ℕ → Given → Bytes → Bytes
last_text name [] default = default
last_text name ((option, optarg) ∷ given) default =
    last_text name given (if option == name then optarg else default)

abbrev number_or : Option ℕ → ℕ → ℕ
number_or none default = default
number_or (some n) default = n

abbrev pub last_number : ℕ → Given → ℕ → ℕ
last_number name [] default = default
last_number name ((option, optarg) ∷ given) default =
    last_number name given
      (if option == name then number_or (parse_positive_int optarg) default else default)

abbrev pub chosen : Given → ServerConfig → ServerConfig
chosen given config = record {
  host = last_text b'h' given config.host;
  port = last_number b'p' given config.port;
  thread_count = last_number b't' given config.thread_count;
  queue_capacity = last_number b'q' given config.queue_capacity;
  doc_root = last_text b'r' given config.doc_root;
  access_log = last_text b'l' given config.access_log;
}

-- One option.
after : ℕ → Bytes → ServerConfig → ServerConfig
after option optarg config = chosen ((option, optarg) ∷ []) config

set_option-good :
    (option : ℕ) (optarg : Bytes) (config : ServerConfig)
    → set_option option optarg config
      ≡ (if is_good option optarg then some (after option optarg config) else none)
unfolding after
set_option-good option optarg config = elim (Option-cases (parse_positive_int optarg)) [
  | inl bad ↦ ground (arith, bad)
  | inr (n, number) ↦ ground (arith, number)
]

read_options-none : (given : Given) → read_options given none ≡ none
unfolding read_options
read_options-none given = refl

-- The loop over the options accepts exactly when each is one of the six and each number is one
-- that `parse_positive_int` takes. It then leaves, for each field, the argument of the last option
-- that sets it, or what the field was before where none does; no option touches another's field.
pub read_options-chosen :
    (given : Given) (config : ServerConfig)
    → read_options given (some config)
      ≡ (if all_good given then some (chosen given config) else none)
unfolding read_options after
read_options-chosen [] config = refl
read_options-chosen ((option, optarg) ∷ given) config =
    let step = ap (read_options given) (set_option-good option optarg config) in
    elim (Bool-cases (is_good option optarg)) [
      | inl good ↦
          rw good (rw good at step ∙ read_options-chosen given (after option optarg config))
      | inr bad ↦ rw bad (rw bad at step)
    ]
