-- ===== src/Kernel/Calls.antt =====
-- What src/kernel/kernel.cpp does on the core that runs: the entry of a core, the handler of a pended
-- reschedule, and the queries of namespaces kernel and this_thread. `this_core` is what the port
-- gives.
use co_rtos.Base.{ℕ, Option, some, ◌>>=◌}
use co_rtos.Config.{cores}
use co_rtos.Kernel.{Kernel, scheduler_for_core, put}
use co_rtos.Scheduler
use co_rtos.Threads.{Threads}

unfoldable pub reschedule_this_core :
    ℕ → ℕ → Threads → Kernel → Option (Threads × Kernel × Scheduler.Switch)
reschedule_this_core fuel this_core th k = do
  s ← scheduler_for_core k this_core
  r ← Scheduler.reschedule fuel th s
  some (r.0, put k this_core r.1, r.2)

-- The last component is the thread that the core starts.
unfoldable pub core_entry : ℕ → Threads → Kernel → Option (Threads × Kernel × ℕ)
core_entry this_core th k = do
  s ← scheduler_for_core k this_core
  r ← Scheduler.start th s
  some (r.0, put k this_core r.1, r.2)

abbrev pub core_count : ℕ
core_count = cores

unfoldable pub id : ℕ → Threads → Kernel → Option ℕ
id this_core th k = do s ← scheduler_for_core k this_core; some (Scheduler.current_thread_id th s)

unfoldable pub priority : ℕ → Threads → Kernel → Option ℕ
priority this_core th k = do
  s ← scheduler_for_core k this_core
  some (Scheduler.current_thread_priority th s)
