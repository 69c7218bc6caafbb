-- ===== src/Wait/Block.antt =====
-- Blocking on waitables and waking: the member functions of ThreadControlBlock in
-- src/kernel/threading_subsystem.cpp, `wake_thread` of src/kernel/kernel.cpp, the signals of
-- src/kernel/waitable.cpp, and the end of a thread. A thread, its pool and its group share one
-- address. The locks have no counterpart: each operation is one step. The hook on_thread_removed is
-- that of the base class, which does nothing.
pub mod Laws
pub mod Invariant
pub mod Enqueue
pub mod Prepare
pub mod Release
pub mod Torn
pub mod Teardown
pub mod RoundTrip
pub mod Wake
use co_rtos.Base.{
  ℕ, zero, suc, ◌+◌, ◌%◌, ◌^◌, Ptr, Option, none, some, Bool, true, false, not, ◌&&◌, ◌||◌, List,
  [], ◌∷◌, ◌++◌, ltb, leb, ◌==◌, if◌then◌else◌, length, is_some, ptr_eq, update, assert, ◌>>=◌,
  ◌>>◌,
}
use co_rtos.Config.{max_wait_nodes}
use co_rtos.Kernel
use co_rtos.Kernel.{Kernel, ReadyAction, no_action, reschedule}
use co_rtos.Scheduler.{idle_thread_id}
use co_rtos.Threads.{Threads, State, is_running, is_blocked, set_state}
use co_rtos.Wait.Group.{WaitGroup, begin, try_win}
use co_rtos.Wait.Nodes.{WaitNodes, invalid_index}
use co_rtos.Wait.Pool.{Pool, alloc, free}
use co_rtos.Wait.Refs
use co_rtos.Wait.Waitable.{Waitable, add, remove, pick_best}

-- `termination` is the address of a thread's termination waitable, and `terminated` its flag.
pub record World : Type 0 where
  pub threads : Threads
  pub kernel : Kernel
  pub nodes : WaitNodes
  pub pools : ℕ → Pool
  pub groups : ℕ → WaitGroup
  pub waitables : ℕ → Waitable
  pub termination : ℕ → ℕ
  pub terminated : ℕ → Bool

-- The loop of `prepare_block`, from index `i` on.
unfoldable pub enqueue_nodes : ℕ → ℕ → List ℕ → World → Option World
enqueue_nodes t i [] w = some w
enqueue_nodes t i (a ∷ vs) w = do
  (p, ns, node) ← alloc (w.pools t) w.nodes t a (i % 2 ^ 8)
  n ← node
  (q, ns') ← add (w.waitables a) ns n
  enqueue_nodes t (i + 1) vs
      (record w { pools = update w.pools t p; nodes = ns'; waitables = update w.waitables a q })

unfoldable pub prepare_block : ℕ → List ℕ → World → Option World
prepare_block t vs w = do
  assert (is_running (w.threads.state t))
  assert (ltb 0 (length vs))
  assert (leb (length vs) max_wait_nodes)
  w' ←
      enqueue_nodes t 0 vs
        (record w { groups = update w.groups t (begin (length vs % 2 ^ 8) (w.groups t)) })
  some (record w' { threads = set_state w'.threads t State.blocked })

-- The result that `commence_block` gives when the thread runs again; `none` stands for -1.
unfoldable pub wait_result : ℕ → World → Ptr × Bool
wait_result t w = ((w.groups t).winner_index, (w.groups t).acquired)

-- Whether `for_each_active` visits the node, for a group.
unfoldable pub visited : World → ℕ → ℕ → Bool
visited w g a = w.nodes.active a && ptr_eq (w.nodes.group a) (some g)

-- The first pass of `teardown_wait_group` over `n` nodes from `a` on: the waitables involved.
unfoldable pub involved : World → ℕ → ℕ → ℕ → List ℕ
involved w g zero a = []
involved w g (suc n) a =
    let rest = involved w g n (a + 1) in
    if visited w g a then elim (w.nodes.waitable a) [ none ↦ rest | some v ↦ v ∷ rest ] else rest

-- `if (node.waitable) node.waitable->remove(node);`
unfoldable pub leave : ℕ → Ptr → World → World
leave a none w = w
leave a (some v) w =
    let r = remove (w.waitables v) w.nodes a in
    record w { waitables = update w.waitables v r.0; nodes = r.1 }

-- The second pass, of the thread `t`.
unfoldable pub release_nodes : ℕ → ℕ → ℕ → ℕ → World → Option World
release_nodes t g zero a w = some w
release_nodes t g (suc n) a w = do
  let left = leave a (w.nodes.waitable a) w
  let freed = free (left.pools t) left.nodes a
  w' ←
      if visited w g a
      then (freed >>= λ r. some (record left { pools = update left.pools t r.0; nodes = r.1 }))
      else some w
  release_nodes t g n (a + 1) w'

unfoldable pub teardown_wait_group : ℕ → ℕ → World → Option World
teardown_wait_group t g w = do
  locked ← Refs.lock_order (involved w g max_wait_nodes (w.pools t).nodes)
  release_nodes t g max_wait_nodes (w.pools t).nodes w

-- Once the node has won: the thread leaves every queue and becomes ready.
unfoldable pub make_ready : List Bool → ℕ → ℕ → ℕ → World → Option (World × ReadyAction × Bool)
make_ready rounds this_core t g w = do
  w' ← teardown_wait_group t g w
  r ← Kernel.set_thread_ready rounds this_core w'.threads w'.kernel t
  some (record w' { threads = r.0; kernel = r.1 }, r.2, r.3)

-- The last component is whether an interrupt goes to another core.
unfoldable pub wake_thread : List Bool → ℕ → ℕ → Bool → World → Option (World × ReadyAction × Bool)
wake_thread rounds this_core a acquired w = do
  let t = w.nodes.tcb a
  g ← w.nodes.group a
  assert (is_some (w.nodes.waitable a))
  assert (not (w.nodes.index a == invalid_index))
  assert (is_blocked (w.threads.state t))
  let r = try_win (w.groups g) (w.nodes.index a) acquired
  let won = record w { groups = update w.groups g r.0 }
  if r.1 then make_ready rounds this_core t g won else some (w, no_action, false)

-- The signals give back whether a reschedule is pended on this core.
abbrev pub wants_reschedule : ReadyAction → Bool
wants_reschedule no_action = false
wants_reschedule reschedule = true

abbrev pub is_done_group : World → ℕ → Bool
is_done_group w g = (w.groups g).done

unfoldable pub signal_one : ℕ → List Bool → ℕ → ℕ → Bool → World → Option (World × Bool)
signal_one fuel rounds this_core v acquired w = do
  best ← pick_best (w.waitables v) w.nodes w.threads (is_done_group w) fuel
  elim best [
    | none ↦ some (w, false)
    | some a ↦ wake_thread rounds this_core a acquired w >>= λ r. some (r.0, wants_reschedule r.1)
  ]

-- The loop of `signal_all`, with fuel for its rounds.
unfoldable pub signal_loop : ℕ → ℕ → List Bool → ℕ → ℕ → Bool → World → Bool → Option (World × Bool)
signal_loop zero fuel rounds this_core v acquired w pending = none
signal_loop (suc n) fuel rounds this_core v acquired w pending = do
  best ← pick_best (w.waitables v) w.nodes w.threads (is_done_group w) fuel
  elim best [
    | none ↦ some (w, pending)
    | some a ↦ wake_thread rounds this_core a acquired w >>= λ r.
        signal_loop n fuel rounds this_core v acquired r.0 (pending || wants_reschedule r.1)
  ]

unfoldable pub signal_all : ℕ → ℕ → List Bool → ℕ → ℕ → Bool → World → Option (World × Bool)
signal_all n fuel rounds this_core v acquired w =
    signal_loop n fuel rounds this_core v acquired w false

-- `ThreadTermination::terminate`, of the thread `t`.
unfoldable pub terminate : ℕ → ℕ → List Bool → ℕ → ℕ → World → Option (World × Bool)
terminate n fuel rounds this_core t w = do
  assert (not (w.terminated t))
  signal_all n fuel rounds this_core (w.termination t) false
      (record w { terminated = update w.terminated t true })

-- `thread_launcher` once the thread's entry has returned.
unfoldable pub finish_thread : ℕ → ℕ → List Bool → ℕ → ℕ → World → Option (World × Bool)
finish_thread n fuel rounds this_core t w = do
  r ←
      terminate n fuel rounds this_core t
        (record w { threads = set_state w.threads t State.terminated })
  k ←
      (if w.threads.id t == idle_thread_id
        then some r.0.kernel
        else Kernel.unregister_thread r.0.kernel)
  some (record r.0 { kernel = k }, r.1)
