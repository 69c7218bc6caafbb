-- ===== src/Kernel/Handles.antt =====
-- The handle class Thread of src/kernel/kernel.cpp, the address of a control block or null, and the
-- constructor of ThreadControlBlock of src/kernel/threading_subsystem.cpp.
use co_rtos.Base.{ℕ, Ptr, Option, none, some, Bool, List, update, assert, ◌>>=◌}
use co_rtos.Kernel.{Kernel, ReadyAction, generate_thread_id, register_thread}
use co_rtos.Layout.{Target, carve}
use co_rtos.Threads.{Threads, State, is_terminated}

-- A control block built at the address `at`; its entry, stack and context are not modelled.
unfoldable pub new_thread : Threads → ℕ → ℕ → ℕ → ℕ → Threads
new_thread th at id priority affinity = record th {
  state = update th.state at State.ready;
  links = record { next = update th.links.next at none; prev = update th.links.prev at none };
  id = update th.id at id;
  base_priority = update th.base_priority at priority;
  effective_priority = update th.effective_priority at priority;
  pinned_core = update th.pinned_core at 0;
  affinity = update th.affinity at affinity;
}

-- What a new thread leaves: its handle, the state, whether this core is to reschedule, and whether
-- another core gets the interrupt.
pub record Created : Type 0 where
  pub handle : Ptr
  pub threads : Threads
  pub kernel : Kernel
  pub action : ReadyAction
  pub poked : Bool

unfoldable pub create_thread :
    Target → List Bool → ℕ → Threads → Kernel → ℕ → ℕ → ℕ → ℕ → Option Created
create_thread g rounds this_core th k base size priority affinity = do
  layout ← carve g base size 0
  let (k', id) = generate_thread_id k
  r ← register_thread rounds this_core (new_thread th layout.tcb id priority affinity) k' layout.tcb
  some (record { handle = some layout.tcb; threads = r.0; kernel = r.1; action = r.2; poked = r.3 })

-- The destructor; a handle to a thread that has not terminated is a fault.
unfoldable pub destroy : Threads → Ptr → Option (Unit {0})
destroy th none = some tt
destroy th (some t) = assert (is_terminated (th.state t))

-- A move of `other` into another handle, by construction or assignment: that handle and `other`
-- after it.
unfoldable pub move : Ptr → Ptr × Ptr
move other = (other, none)
