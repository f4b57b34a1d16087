-- ===== src/Main/Options/InRange.antt =====
-- The numbers of a configuration stay in range through the loop over the options.
use final_system_progamming.Common.{
  ℕ, ◌≡◌, ◌≤◌, ◌<◌, Bool, true, false, [], ◌∷◌, Option, none, some, arith, Bytes, ◌==◌,
  if◌then◌else◌, Option-cases, inl, inr,
}
use final_system_progamming.Main.{parse_positive_int}
use final_system_progamming.Main.Numbers.{parse_positive_int_exact}
use final_system_progamming.Main.Options.{Given, set_option, set_number, read_options}
use final_system_progamming.Server.Config.{ServerConfig, default_config, IsConfig}

-- A configuration, if there is one, has its numbers in range.
abbrev pub AllInRange : Option ServerConfig → Type 0
AllInRange none = Unit
AllInRange (some config) = IsConfig config

number_in : (optarg : Bytes) (n : ℕ) → parse_positive_int optarg ≡ some n → (0 < n) × (n ≤ 65535)
number_in optarg n e = let t = (parse_positive_int_exact optarg n).0 e in (t.positive, t.small)

set_number-AllInRange :
    (optarg : Bytes) (set : ℕ → ServerConfig)
    → ((n : ℕ) → (0 < n) × (n ≤ 65535) → IsConfig (set n))
    → AllInRange (set_number (parse_positive_int optarg) set)
set_number-AllInRange optarg set h = elim (Option-cases (parse_positive_int optarg)) [
  | inl bad ↦ rw bad tt
  | inr (n, number) ↦ rw number (h n (number_in optarg n number))
]

if-AllInRange :
    (test : Bool) (a b : Option ServerConfig)
    → AllInRange a
    → AllInRange b
    → AllInRange (if test then a else b)
if-AllInRange true a b ha hb = ha
if-AllInRange false a b ha hb = hb

module _ {config : ServerConfig} (c : IsConfig config) where
  set_option-AllInRange :
      (option : ℕ) (optarg : Bytes) → AllInRange (set_option option optarg config)
  set_option-AllInRange option optarg =
      if-AllInRange (option == b'h') _ _
        (record { port_in = c.port_in; threads_in = c.threads_in; capacity_in = c.capacity_in })
        (if-AllInRange (option == b'p') _ _
          (set_number-AllInRange optarg (λ n. record config { port = n })
            (λ n h. record { port_in = h; threads_in = c.threads_in; capacity_in = c.capacity_in }))
          (if-AllInRange (option == b'r') _ _
            (record { port_in = c.port_in; threads_in = c.threads_in; capacity_in = c.capacity_in })
            (if-AllInRange (option == b't') _ _
              (set_number-AllInRange optarg (λ n. record config { thread_count = n })
                (λ n h. record {
                  port_in = c.port_in;
                  threads_in = h;
                  capacity_in = c.capacity_in;
                }))
              (if-AllInRange (option == b'q') _ _
                (set_number-AllInRange optarg (λ n. record config { queue_capacity = n })
                  (λ n h. record {
                    port_in = c.port_in;
                    threads_in = c.threads_in;
                    capacity_in = h;
                  }))
                (if-AllInRange (option == b'l') _ _
                  (record {
                    port_in = c.port_in;
                    threads_in = c.threads_in;
                    capacity_in = c.capacity_in;
                  })
                  tt)))))

read_options-AllInRange :
    (given : Given) (config : Option ServerConfig)
    → AllInRange config
    → AllInRange (read_options given config)
unfolding read_options
read_options-AllInRange given none h = tt
read_options-AllInRange [] (some config) h = h
read_options-AllInRange ((option, optarg) ∷ given) (some config) h =
    read_options-AllInRange given (set_option option optarg config)
      (set_option-AllInRange h option optarg)

default_config-IsConfig : IsConfig default_config
unfolding default_config
default_config-IsConfig = record {
  port_in = omega arith;
  threads_in = omega arith;
  capacity_in = omega arith;
}

-- Whatever the command line, if the loop over the options accepts it, starting from the defaults,
-- then the port, the number of threads and the capacity of the queue lie between 1 and 65535.
pub read_options-IsConfig :
    (given : Given) (config : ServerConfig)
    → read_options given (some default_config) ≡ some config
    → IsConfig config
read_options-IsConfig given config e =
    rw e at (read_options-AllInRange given (some default_config) default_config-IsConfig)
