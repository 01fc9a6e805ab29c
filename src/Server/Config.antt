-- ===== src/Server/Config.antt =====
-- `ServerConfig` of include/swiftlink/server/epoll_server.hpp. Durations are milliseconds.
use swiftlink.Common.{ℕ, Bool, true, List, [], ◌∷◌}

pub record Config : Type 0 where
  pub port : ℕ
  pub output_directory : List ℕ
  pub session_idle_timeout : ℕ
  pub sweep_interval : ℕ
  pub session_linger : ℕ
  pub max_sessions : ℕ
  pub window_size : ℕ
  pub verbose : Bool

-- the member initialisers
abbrev pub default_config : Config
default_config = record {
  port = 9000;
  output_directory = b'.' ∷ [];
  session_idle_timeout = 30000;
  sweep_interval = 1000;
  session_linger = 20000;
  max_sessions = 256;
  window_size = 1024;
  verbose = true;
}
