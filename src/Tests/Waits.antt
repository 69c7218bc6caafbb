-- ===== src/Tests/Waits.antt =====
-- Wait groups, pools and queues.
use co_rtos.Wait.Block
use co_rtos.Wait.Pool
use co_rtos.Wait.Group
use co_rtos.Wait.Waitable
use co_rtos.Intrusive
use co_rtos.Base.Bits
use co_rtos.Wait.Refs
use co_rtos.Kernel
use co_rtos.Scheduler
use co_rtos.Ready.Matrix
use co_rtos.Ready.Queue
use co_rtos.Base.{
  List, Option, Bool, ◌>>=◌, ℕ, ◌+◌, Ptr, none, some, true, false, ◌==◌, if◌then◌else◌, ◌≡◌, refl,
  [], ◌∷◌, update, arith,
}
use co_rtos.Intrusive.{no_ends, is_enqueued, no_links}
use co_rtos.Threads.{State}
use co_rtos.Wait.Group.{WaitGroup, begin, attempts, attempts-first}
use co_rtos.Wait.Nodes.{WaitNodes, reset}
use co_rtos.Wait.Pool.{Pool, alloc, free}
use co_rtos.Wait.Waitable.{Waitable, add, remove, pick_best}
use co_rtos.Wait.Waitable.Laws.{Queues}
use co_rtos.Wait.Waitable.Pick.{Picked, pick_best-Picked}
use co_rtos.Kernel.{new_kernel}
use co_rtos.Wait.Block.{prepare_block, World, signal_one}
use co_rtos.Wait.Refs.{lock_order}
use co_rtos.Wait.Refs.Laws.{Ascending, SameMembers, lock_order-Ascending}
use co_rtos.Wait.Waitable.{is_done}
use co_rtos.Tests.World.{threads}

abbrev fresh_group : WaitGroup
fresh_group = record { done = true; winner_index = some 4; acquired = true; expected_count = 2 }

attempts-first_example :
    attempts (begin 3 fresh_group) ((1, true) ∷ (0, false) ∷ (2, true) ∷ []) ≡ (
      record { done = true; winner_index = some 1; acquired = true; expected_count = 3 },
      true ∷ false ∷ false ∷ [],
    )
attempts-first_example = attempts-first 3 fresh_group (1, true) ((0, false) ∷ (2, true) ∷ [])

-- The nodes of a thread's pool from address 16 on; the node at 17 is in use at first.
abbrev nodes : WaitNodes
nodes = record {
  slot = λ a.
      if a == 16
      then 0
      else if a == 17
      then 1
      else if a == 18
      then 2
      else if a == 19
      then 3
      else if a == 20
      then 4
      else if a == 21
      then 5
      else if a == 22
      then 6
      else 7;
  active = λ a. a == 17;
  links = no_links;
  tcb = λ a. 5;
  waitable = λ a. none;
  group = λ a. none;
  index = λ a. 255;
}

-- A queue with the nodes 16 and 17, of threads 9 and 7; the group of the first is done.
abbrev waiting : WaitNodes
waiting = record {
  slot = λ a. 0;
  active = λ a. true;
  links = record { next = update (λ _. none) 16 (some 17); prev = update (λ _. none) 17 (some 16) };
  tcb = λ a. if a == 17 then 7 else 9;
  waitable = λ a. if a == 18 then none else some 40;
  group = λ a. some a;
  index = λ a. 0;
}

abbrev queue : Waitable
queue = record { self = 40; ends = record { head = some 16; tail = some 17 } }

waiting-Queues : Queues queue waiting (16 ∷ 17 ∷ [])
waiting-Queues = record {
  holds = record {
    starts = refl;
    ends = refl;
    chain = (refl, refl, (refl, refl, tt));
    distinct = (((λ e. omega arith), tt), (tt, tt));
  };
  named = (refl, (refl, tt));
}

pick_best-Picked_example :
    (r : Ptr) × (pick_best queue waiting threads (λ g. g == 16) 3 ≡ some r)
    × Picked waiting threads (λ g. g == 16) (16 ∷ 17 ∷ []) r
pick_best-Picked_example =
    pick_best-Picked queue waiting threads (λ g. g == 16) (16 ∷ 17 ∷ []) 3 waiting-Queues
      (refl, (refl, tt)) (omega arith)

lock_order-Ascending_example :
    (xs : List ℕ) × (lock_order (30 ∷ 10 ∷ 20 ∷ []) ≡ some xs)
    × Ascending xs
    × SameMembers xs (30 ∷ 10 ∷ 20 ∷ [])
lock_order-Ascending_example = lock_order-Ascending (30 ∷ 10 ∷ 20 ∷ []) (omega arith) (
  ((λ e. omega (arith, e)), ((λ e. omega (arith, e)), tt)),
  (((λ e. omega (arith, e)), tt), (tt, tt)),
)

-- Thread 5 runs on core 1, blocks on the waitable 40 and is woken from its own core.
abbrev start : World
start = record {
  threads = threads;
  kernel = record new_kernel { running = true };
  nodes = record nodes { active = λ a. false };
  pools = λ t. record { nodes = 16; free_mask = 255 };
  groups = λ g. fresh_group;
  waitables = λ v. record { self = v; ends = no_ends };
  termination = λ t. t + 100;
  terminated = λ t. false;
}

abbrev outcome : Option (World × Bool) → Option (State × Bool × ℕ × Ptr × Bool)
outcome none = none
outcome (some (w, pended)) = some (
  w.threads.state 5,
  (w.groups 5).done,
  (w.pools 5).free_mask,
  (w.waitables 40).ends.head,
  pended,
)

abbrev run : Option (State × Bool × ℕ × Ptr × Bool)
run = outcome (prepare_block 5 (40 ∷ []) start >>= signal_one 3 [] 1 40 true)

run_wakes : run ≡ some (State.ready, true, 255, none, false)
unfolding prepare_block Block.enqueue_nodes signal_one Block.wake_thread Block.make_ready
    Block.teardown_wait_group Block.involved Block.visited Block.leave Block.release_nodes alloc
    free Pool.taken reset begin Group.try_win add remove pick_best Waitable.pick_from is_done
    Waitable.beats Intrusive.link_back Intrusive.unlink Bits.countr_zero lock_order Refs.push_range
    Refs.sort_by_address Refs.sort Refs.insert Refs.unique Kernel.set_thread_ready
    Scheduler.set_thread_ready Matrix.enqueue_thread Queue.push_back
    Scheduler.current_thread_priority
run_wakes = refl
