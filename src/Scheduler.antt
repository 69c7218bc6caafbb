-- ===== src/Scheduler.antt =====
-- `Scheduler` of src/kernel/scheduler.hpp and scheduler.cpp: one core's current thread, ready matrix
-- and inbox. Each operation takes the thread store and the scheduler, and gives them back; `none`
-- is a failed assertion, a null dereference or `__builtin_unreachable`.
pub mod Invariant
pub mod Drain
pub mod Switching
pub mod Reschedule
pub mod Race
pub mod Post
use co_rtos.Base.{
  ℕ, zero, suc, ◌+◌, ◌-◌, ◌%◌, ◌^◌, Ptr, Option, none, some, Bool, true, false, not, List, [], ◌∷◌,
  ltb, ◌==◌, if◌then◌else◌, is_some, ptr_eq, update, assert, ◌>>=◌, ◌>>◌,
}
use co_rtos.Config.{max_priorities}
use co_rtos.Intrusive.{Links, is_enqueued}
use co_rtos.Mpsc
use co_rtos.Mpsc.{Ring}
use co_rtos.Ready.Matrix
use co_rtos.Ready.Matrix.{ReadyMatrix, empty_matrix}
use co_rtos.Threads.{Threads, State, is_ready, is_running, set_state}

-- `CrossCoreRequest::type`
pub data RequestType : Type 0 where
  set_ready : RequestType

pub record CrossCoreRequest : Type 0 where
  pub type : RequestType
  pub tcb : Ptr

-- `INBOX_CAP` is `2 ^ 6`.
abbrev pub inbox_bits : ℕ
inbox_bits = 6

pub record Scheduler : Type 0 where
  pub core_id : ℕ
  pub pinned_thread_counter : ℕ
  pub current_thread : Ptr
  pub idle_thread : Ptr
  pub ready_matrix : ReadyMatrix
  pub preempt_disable_depth : ℕ
  pub inbox_poke_pending : Bool
  pub inbox : Ring CrossCoreRequest

abbrev pub idle_thread_id : ℕ
idle_thread_id = 0

-- A `uint32_t` counter.
abbrev pub u32 : ℕ → ℕ
u32 n = n % 2 ^ 32

-- The constructor.
abbrev pub new_scheduler : ℕ → Scheduler
new_scheduler core = record {
  core_id = core;
  pinned_thread_counter = 0;
  current_thread = none;
  idle_thread = none;
  ready_matrix = empty_matrix;
  preempt_disable_depth = 0;
  inbox_poke_pending = false;
  inbox = Mpsc.fresh inbox_bits;
}

abbrev pub field_or_zero : (ℕ → ℕ) → Ptr → ℕ
field_or_zero f none = 0
field_or_zero f (some t) = f t

unfoldable pub current_thread_id : Threads → Scheduler → ℕ
current_thread_id th s = field_or_zero th.id s.current_thread

unfoldable pub current_thread_priority : Threads → Scheduler → ℕ
current_thread_priority th s = field_or_zero th.effective_priority s.current_thread

abbrev pub pinned_thread_count : Scheduler → ℕ
pinned_thread_count s = s.pinned_thread_counter

unfoldable pub pin_thread : Threads → Scheduler → ℕ → Threads × Scheduler
pin_thread th s t = (
  record th { pinned_core = update th.pinned_core t s.core_id },
  record s { pinned_thread_counter = u32 (s.pinned_thread_counter + 1) },
)

-- The idle thread is built at the address `at`, at the lowest priority of its own core.
unfoldable pub init_idle_thread : Threads → Scheduler → ℕ → Threads × Scheduler
init_idle_thread th s at = (
  record th {
    state = update th.state at State.ready;
    links = record { next = update th.links.next at none; prev = update th.links.prev at none };
    id = update th.id at idle_thread_id;
    base_priority = update th.base_priority at (max_priorities - 1);
    effective_priority = update th.effective_priority at (max_priorities - 1);
    pinned_core = update th.pinned_core at s.core_id;
    affinity = update th.affinity at (2 ^ s.core_id);
  },
  record s { idle_thread = some at },
)

unfoldable pub set_thread_ready : Threads → Scheduler → ℕ → Option (Threads × Scheduler)
set_thread_ready th s t = do
  assert (th.pinned_core t == s.core_id)
  let th' = set_state th t State.ready
  if ptr_eq (some t) s.idle_thread then some (th', s) else do
    (th'', m) ← Matrix.enqueue_thread th' s.ready_matrix t
    some (th'', record s { ready_matrix = m })

abbrev pub handle_request : Threads → Scheduler → RequestType → Ptr → Option (Threads × Scheduler)
handle_request th s set_ready none = none
handle_request th s set_ready (some t) = set_thread_ready th s t

-- The loop of `drain_inbox`, with fuel for its rounds.
unfoldable pub drain_loop : ℕ → Threads → Scheduler → Option (Threads × Scheduler)
drain_loop zero th s = none
drain_loop (suc fuel) th s =
    let (ring, out) = Mpsc.pop inbox_bits s.inbox in
    elim out [
      | none ↦ some (th, s)
      | some request ↦ do
        (th', s') ← handle_request th (record s { inbox = ring }) request.type request.tcb
        drain_loop fuel th' s'
    ]

unfoldable pub drain_inbox : ℕ → Threads → Scheduler → Option (Threads × Scheduler)
drain_inbox fuel th s = drain_loop fuel th (record s { inbox_poke_pending = false })

-- The reply of `post_to_inbox`, and whether it sent the reschedule interrupt to this core. The
-- list of rounds is that of the push.
unfoldable pub post_to_inbox :
    List Bool → Scheduler → CrossCoreRequest → Option (Scheduler × Bool × Bool)
post_to_inbox rounds s request = do
  (ring, pushed) ← Mpsc.push inbox_bits rounds s.inbox request
  let s' = record s { inbox = ring }
  some (
      if pushed
      then (record s' { inbox_poke_pending = true }, true, not s.inbox_poke_pending)
      else (s', false, false))

-- `if (!next_thread) next_thread = idle_thread;`
abbrev pub or_idle : Ptr → Ptr → Ptr
or_idle none idle = idle
or_idle (some t) idle = some t

-- The thread that the core switches to first.
unfoldable pub start : Threads → Scheduler → Option (Threads × Scheduler × ℕ)
start th s = do
  assert (is_some s.idle_thread)
  let (th', m, best) = Matrix.pop_best_thread th s.ready_matrix
  first ← or_idle best s.idle_thread
  assert (is_ready (th'.state first))
  some (
    set_state th' first State.running,
    record s { ready_matrix = m; current_thread = some first },
    first,
  )

-- The switch on the state of the previous thread.
abbrev pub requeue : State → Threads → Scheduler → ℕ → Option (Threads × Scheduler)
requeue State.running th s previous = set_thread_ready th s previous
requeue State.blocked th s previous = some (th, s)
requeue State.terminated th s previous = some (th, s)
requeue State.ready th s previous = none

-- The arguments of `cortos_port_switch`.
pub record Switch : Type 0 where
  pub from : ℕ
  pub to : ℕ

-- The choice of the next thread, and the switch to it.
unfoldable pub switch_to_best : Threads → Scheduler → ℕ → Option (Threads × Scheduler × Switch)
switch_to_best th s previous = do
  let (th', m, best) = Matrix.pop_best_thread th s.ready_matrix
  next ← or_idle best s.idle_thread
  some (
    set_state th' next State.running,
    record s { ready_matrix = m; current_thread = some next },
    record { from = previous; to = next },
  )

-- The assertions of `reschedule` and its drain of the inbox.
unfoldable pub drain_first : ℕ → Threads → Scheduler → ℕ → Option (Threads × Scheduler)
drain_first fuel th s previous = do
  assert (not (is_enqueued th.links previous))
  assert (not (is_ready (th.state previous)))
  drain_inbox fuel th s

-- `reschedule` once the current thread is known.
unfoldable pub reschedule_from : ℕ → Threads → Scheduler → ℕ → Option (Threads × Scheduler × Switch)
reschedule_from fuel th s previous = do
  (th₁, s₁) ← drain_first fuel th s previous
  (th₂, s₂) ← requeue (th₁.state previous) th₁ s₁ previous
  switch_to_best th₂ s₂ previous

unfoldable pub reschedule : ℕ → Threads → Scheduler → Option (Threads × Scheduler × Switch)
unfolding reschedule_from
reschedule fuel th s = s.current_thread >>= reschedule_from fuel th s

unfoldable pub disable_preemption : Scheduler → Scheduler
disable_preemption s = record s { preempt_disable_depth = u32 (s.preempt_disable_depth + 1) }

unfoldable pub enable_preemption : Scheduler → Option Scheduler
enable_preemption s = do
  assert (ltb 0 s.preempt_disable_depth)
  some (record s { preempt_disable_depth = s.preempt_disable_depth - 1 })

unfoldable pub reset : Scheduler → Option Scheduler
reset s = do
  assert (Mpsc.approx_size inbox_bits s.inbox == 0)
  assert (Matrix.empty s.ready_matrix)
  some (record s {
    pinned_thread_counter = 0;
    inbox_poke_pending = false;
    preempt_disable_depth = 0;
    current_thread = none;
  })
