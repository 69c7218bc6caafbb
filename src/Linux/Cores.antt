-- ===== src/Linux/Cores.antt =====
-- The cores of src/port/linux_boost/port_linux_boost.cpp: what they share, and what each keeps for
-- itself. Fibers are Boost's; of a core's fibers the model keeps whether it is in a thread's.
pub mod Laws
use co_rtos.Base.{
  ℕ, zero, suc, ◌+◌, ◌-◌, ◌%◌, ◌^◌, Ptr, Option, none, some, Bool, true, false, not, ◌&&◌, ltb, leb,
  ◌==◌, if◌then◌else◌, List, [], ◌∷◌, length, is_some, get_elem?, assert, ◌>>=◌, ◌>>◌,
}

-- `CpuCore`, less its pthread and its fiber: `pending` is that of its poke.
pub record CpuCore : Type 0 where
  pub core_id : ℕ
  pub entry : ℕ
  pub pending : Bool

-- `CpuCoreArray`, from the index `i` on.
unfoldable pub new_cores : ℕ → ℕ → ℕ → List CpuCore
new_cores zero i entry = []
new_cores (suc n) i entry =
    record { core_id = i; entry = entry; pending = false } ∷ new_cores n (i + 1) entry

pub record GlobalState : Type 0 where
  pub shutdown_requested : Bool
  pub active_contexts : ℕ
  pub pend_reschedule_handler : Ptr
  pub cores : List CpuCore

-- `global` as it is initialised, and what `GlobalState::reset` leaves.
abbrev pub reset : GlobalState
reset = record {
  shutdown_requested = false;
  active_contexts = 0;
  pend_reschedule_handler = none;
  cores = [];
}

abbrev pub cores_launched : GlobalState → Bool
cores_launched g = ltb 0 (length g.cores)

unfoldable pub init : Ptr → GlobalState → GlobalState
init handler g = record g { pend_reschedule_handler = handler }

-- `CurrentCoreState`: `core` is an index of the array.
pub record CurrentCore : Type 0 where
  pub core : Ptr
  pub current_context : Ptr
  pub tls_pointer : Ptr

abbrev pub no_core : CurrentCore
no_core = record { core = none; current_context = none; tls_pointer = none }

-- What `cortos_port_context_init` does to the state that the cores share.
unfoldable pub count_context : GlobalState → GlobalState
count_context g = record g { active_contexts = (g.active_contexts + 1) % 2 ^ 32 }

unfoldable pub thread_exit : GlobalState → Option GlobalState
thread_exit g = do
  assert (not (g.active_contexts == 0))
  some (record g { active_contexts = g.active_contexts - 1 })

-- The array that `cortos_port_start_cores` makes of at most `most` cores.
unfoldable pub start_cores : ℕ → ℕ → ℕ → GlobalState → Option GlobalState
start_cores most cores_to_use entry g = do
  assert (ltb 0 cores_to_use)
  assert (leb cores_to_use most)
  some (record g { cores = new_cores cores_to_use 0 entry })

unfoldable pub get_core_id : GlobalState → CurrentCore → Option ℕ
get_core_id g this =
    if not (cores_launched g)
    then some 0
    else do i ← this.core; c ← get_elem? g.cores i; some c.core_id

abbrev pub set_pending : ℕ → List CpuCore → List CpuCore
set_pending i [] = []
set_pending zero (c ∷ cs) = record c { pending = true } ∷ cs
set_pending (suc i) (c ∷ cs) = c ∷ set_pending i cs

-- The state, and whether the core yields to its own scheduler. `pend_reschedule` is a yield if the
-- core is in a thread, and nothing otherwise.
unfoldable pub send_reschedule_ipi : ℕ → CurrentCore → GlobalState → Option (GlobalState × Bool)
send_reschedule_ipi core_id this g = do
  assert (ltb core_id (length g.cores))
  i ← this.core
  c ← get_elem? g.cores i
  some (
    record g { cores = set_pending core_id g.cores },
    core_id == c.core_id && is_some this.current_context,
  )

unfoldable pub set_tls_pointer : Ptr → CurrentCore → CurrentCore
set_tls_pointer base this = record this { tls_pointer = base }

unfoldable pub get_tls_pointer : CurrentCore → Ptr
get_tls_pointer this = this.tls_pointer
