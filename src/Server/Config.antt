-- ===== src/Server/Config.antt =====
-- `server_config_t` and its defaults (include/config.h, src/main.c). A text is that of a C string.
use final_system_progamming.Common.{ℕ, ◌≤◌, ◌<◌, Bytes, codes}

pub record ServerConfig : Type 0 where
  pub host : Bytes
  pub port : ℕ
  pub thread_count : ℕ
  pub queue_capacity : ℕ
  pub doc_root : Bytes
  pub access_log : Bytes

unfoldable pub default_config : ServerConfig
default_config = record {
  host = codes "0.0.0.0";
  port = 8080;
  thread_count = 4;
  queue_capacity = 64;
  doc_root = codes "www";
  access_log = codes "access.log";
}

-- What the numbers of a command line that was accepted are.
pub record IsConfig (config : ServerConfig) : Type 0 where
  pub port_in : (0 < config.port) × (config.port ≤ 65535)
  pub threads_in : (0 < config.thread_count) × (config.thread_count ≤ 65535)
  pub capacity_in : (0 < config.queue_capacity) × (config.queue_capacity ≤ 65535)
