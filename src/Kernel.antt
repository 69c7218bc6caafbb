-- ===== src/Kernel.antt =====
-- `Kernel` of src/kernel/kernel.cpp: the schedulers of all cores, and the counters. The thread store
-- is passed along; `none` is a failed assertion. The port's start of the
-- cores is in Linux; a pended reschedule is the returned action.
pub mod Choosing
pub mod Pinning
pub mod Wakeups
pub mod Handles
pub mod Affinity
pub mod Calls
use co_rtos.Base.{
  ℕ, zero, suc, ◌+◌, ◌-◌, ◌%◌, ◌^◌, Ptr, Option, none, some, Bool, true, false, not, List, [], ◌∷◌,
  ltb, ◌==◌, ◌&&◌, if◌then◌else◌, get_elem?, set, assert, ◌>>=◌, ◌>>◌,
}
use co_rtos.Base.Bits.{test_bit}
use co_rtos.Config.{cores, time_core_id}
use co_rtos.Scheduler
use co_rtos.Scheduler.{
  Scheduler, set_ready, u32, pin_thread, current_thread_priority, new_scheduler, init_idle_thread,
}
use co_rtos.Threads.{Threads, is_terminated, is_higher_priority_than}

pub record Kernel : Type 0 where
  pub schedulers : List Scheduler
  pub initialised : Bool
  pub running : Bool
  pub active_threads : ℕ
  pub thread_id_generator : ℕ

-- `ReadyAction`
pub data ReadyAction : Type 0 where
  no_action reschedule : ReadyAction

abbrev pub new_schedulers : ℕ → ℕ → List Scheduler
new_schedulers zero core = []
new_schedulers (suc n) core = new_scheduler core ∷ new_schedulers n (core + 1)

abbrev pub new_kernel : Kernel
new_kernel = record {
  schedulers = new_schedulers cores 0;
  initialised = false;
  running = false;
  active_threads = 0;
  thread_id_generator = 1;
}

abbrev pub is_running : Kernel → Bool
is_running k = k.running

abbrev pub get_active_threads : Kernel → ℕ
get_active_threads k = k.active_threads

abbrev pub scheduler_for_core : Kernel → ℕ → Option Scheduler
scheduler_for_core k core = get_elem? k.schedulers core

abbrev pub scheduler_for_time_core : Kernel → Option Scheduler
scheduler_for_time_core k = scheduler_for_core k time_core_id

unfoldable pub generate_thread_id : Kernel → Kernel × ℕ
generate_thread_id k =
    (record k { thread_id_generator = u32 (k.thread_id_generator + 1) }, k.thread_id_generator)

-- The idle threads are built at the addresses from `at` on.
unfoldable pub init_idle_threads : Threads → List Scheduler → ℕ → Threads × List Scheduler
init_idle_threads th [] at = (th, [])
init_idle_threads th (s ∷ ss) at =
    let (th', s') = init_idle_thread th s at in
    let (th'', rest) = init_idle_threads th' ss (at + 1) in (th'', s' ∷ rest)

unfoldable pub initialise : Threads → Kernel → ℕ → Option (Threads × Kernel)
initialise th k at = do
  assert (not k.initialised)
  let r = init_idle_threads th k.schedulers at
  some (r.0, record k { schedulers = r.1; initialised = true })

unfoldable pub start : Kernel → Option Kernel
start k = do
  assert k.initialised
  assert (ltb 0 k.active_threads)
  some (record k { running = true })

abbrev pub reset_all : List Scheduler → Option (List Scheduler)
reset_all [] = some []
reset_all (s ∷ ss) = do s' ← Scheduler.reset s; rest ← reset_all ss; some (s' ∷ rest)

unfoldable pub finalise : Kernel → Option Kernel
finalise k = do
  assert k.initialised
  ss ← reset_all k.schedulers
  some (record {
    schedulers = ss;
    initialised = false;
    running = false;
    active_threads = 0;
    thread_id_generator = 1;
  })

-- `CoreAffinity::allows`
abbrev pub allows : ℕ → ℕ → Bool
allows mask core = test_bit mask core

-- The locals of `pin_thread_to_core`.
pub record Choice : Type 0 where
  pub best_core : ℕ
  pub best_load : ℕ
  pub found : Bool

abbrev pub no_choice : Choice
no_choice = record { best_core = 2 ^ 32 - 1; best_load = 2 ^ 32 - 1; found = false }

-- The loop of `pin_thread_to_core`, from `core` on.
unfoldable pub choose_from : ℕ → ℕ → List Scheduler → Choice → Choice
choose_from mask core [] c = c
choose_from mask core (s ∷ ss) c = choose_from mask (core + 1) ss (
    if allows mask core && ltb s.pinned_thread_counter c.best_load
    then record { best_core = core; best_load = s.pinned_thread_counter; found = true }
    else c)

unfoldable pub pin_thread_to_core : Threads → Kernel → ℕ → Option (Threads × Kernel)
pin_thread_to_core th k t = do
  let c = choose_from (th.affinity t) 0 k.schedulers no_choice
  assert c.found
  s ← get_elem? k.schedulers c.best_core
  let r = pin_thread th s t
  some (r.0, record k { schedulers = set k.schedulers c.best_core r.1 })

abbrev pub put : Kernel → ℕ → Scheduler → Kernel
put k core s = record k { schedulers = set k.schedulers core s }

-- The three ways of `set_thread_ready`: the cores do not run yet, the thread is this core's own, and
-- another core's. The last component is whether the reschedule interrupt goes to the thread's core.
abbrev pub ready_before_start :
    Threads → Kernel → Scheduler → ℕ → Option (Threads × Kernel × ReadyAction × Bool)
ready_before_start th k s t = do
  r ← Scheduler.set_thread_ready th s t
  some (r.0, put k (th.pinned_core t) r.1, no_action, false)

abbrev pub ready_here :
    Threads → Kernel → Scheduler → ℕ → Option (Threads × Kernel × ReadyAction × Bool)
ready_here th k s t = do
  r ← Scheduler.set_thread_ready th s t
  some (
    r.0,
    put k (th.pinned_core t) r.1,
    (if is_higher_priority_than r.0 t (current_thread_priority r.0 r.1)
        then reschedule
        else no_action),
    false,
  )

abbrev pub ready_elsewhere :
    List Bool → Threads → Kernel → Scheduler → ℕ → Option (Threads × Kernel × ReadyAction × Bool)
ready_elsewhere rounds th k s t = do
  r ← Scheduler.post_to_inbox rounds s (record { type = set_ready; tcb = some t })
  assert r.1
  some (th, put k (th.pinned_core t) r.0, no_action, r.2)

-- `rounds` are those of the push into another core's inbox.
unfoldable pub set_thread_ready :
    List Bool → ℕ → Threads → Kernel → ℕ → Option (Threads × Kernel × ReadyAction × Bool)
set_thread_ready rounds this_core th k t = do
  assert (not (is_terminated (th.state t)))
  s ← get_elem? k.schedulers (th.pinned_core t)
  if not k.running
      then ready_before_start th k s t
      else (if this_core == th.pinned_core t
          then ready_here th k s t
          else ready_elsewhere rounds th k s t)

unfoldable pub register_thread :
    List Bool → ℕ → Threads → Kernel → ℕ → Option (Threads × Kernel × ReadyAction × Bool)
register_thread rounds this_core th k t = do
  r ← pin_thread_to_core th (record k { active_threads = u32 (k.active_threads + 1) }) t
  set_thread_ready rounds this_core r.0 r.1 t

unfoldable pub unregister_thread : Kernel → Option Kernel
unregister_thread k = do
  assert (not (k.active_threads == 0))
  some (record k { active_threads = k.active_threads - 1 })
