-- ===== src/Threads.antt =====
-- The thread control blocks of src/kernel/threading_subsystem.hpp, as a store: each member of
-- `ThreadControlBlock` is a function of the block's address. The two list members are the links of
-- an intrusive list.
use co_rtos.Base.{ℕ, Bool, true, false, ltb, update}
use co_rtos.Intrusive.{Links}

-- `ThreadControlBlock::State`
pub data State : Type 0 where
  ready running blocked terminated : State

abbrev pub is_ready : State → Bool
is_ready State.ready = true
is_ready _ = false

abbrev pub is_running : State → Bool
is_running State.running = true
is_running _ = false

abbrev pub is_blocked : State → Bool
is_blocked State.blocked = true
is_blocked _ = false

abbrev pub is_terminated : State → Bool
is_terminated State.terminated = true
is_terminated _ = false

pub record Threads : Type 0 where
  pub state : ℕ → State
  pub links : Links
  pub id : ℕ → ℕ
  pub base_priority : ℕ → ℕ
  pub effective_priority : ℕ → ℕ
  pub pinned_core : ℕ → ℕ
  pub affinity : ℕ → ℕ

abbrev pub set_state : Threads → ℕ → State → Threads
set_state th t s = record th { state = update th.state t s }

-- A smaller number is a higher priority.
abbrev pub is_higher_priority_than : Threads → ℕ → ℕ → Bool
is_higher_priority_than th t level = ltb (th.effective_priority t) level

-- `Waitable::Waiter`, a snapshot of a thread.
pub record Waiter : Type 0 where
  pub id : ℕ
  pub base_priority : ℕ
  pub effective_priority : ℕ
  pub pinned_core : ℕ
  pub affinity : ℕ

abbrev pub higher_priority_than : Waiter → Waiter → Bool
higher_priority_than a b = ltb a.effective_priority b.effective_priority

unfoldable pub create_waiter : Threads → ℕ → Waiter
create_waiter th t = record {
  id = th.id t;
  base_priority = th.base_priority t;
  effective_priority = th.effective_priority t;
  pinned_core = th.pinned_core t;
  affinity = th.affinity t;
}
