-- ===== src/Config.antt =====
-- config/config.hpp: the constants of the build.
use co_rtos.Base.{ℕ}

abbrev pub cores : ℕ
cores = 4

abbrev pub max_wait_nodes : ℕ
max_wait_nodes = 8

abbrev pub time_core_id : ℕ
time_core_id = 0

abbrev pub max_priorities : ℕ
max_priorities = 31
