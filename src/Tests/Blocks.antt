-- ===== src/Tests/Blocks.antt =====
-- Threads that block, leave their groups, and wait for a condition.
use co_rtos.Base.Bits.{test_bit}
use co_rtos.Kernel
use co_rtos.Scheduler
use co_rtos.Ready.Matrix
use co_rtos.Ready.Queue
use co_rtos.Intrusive
use co_rtos.Wait.Block.Wake.{Sleeps, Signalled, signal_one-Signalled}
use co_rtos.Base.{
  ◌⊎◌, List, ℕ, zero, suc, ◌+◌, ◌%◌, ◌<◌, Ptr, Option, none, some, Bool, true, false, not, ◌≡◌, ◌↔◌,
  refl, [], ◌∷◌, length, ◌>>=◌, arith, ◌==◌, ==_iff, if◌then◌else◌, Has, Distinct, subst, sym, ◌∙◌,
  ap, ◌&&◌, inl, inr, update, ◌≤◌, ◌^◌, ◌*◌,
}
use co_rtos.Config.{max_wait_nodes}
use co_rtos.Intrusive.{Ends, no_ends, no_links}
use co_rtos.Intrusive.Chain.{Holds}
use co_rtos.Kernel.{new_kernel}
use co_rtos.Tests.World.{threads}
use co_rtos.Threads.{State, Waiter}
use co_rtos.Wait.Block.Invariant.{Waits, Waits-regrouped}
use co_rtos.Wait.Block.Prepare.{Prepared, prepare_block-Prepared}
use co_rtos.Wait.Block.RoundTrip.{teardown-prepare}
use co_rtos.Wait.Block.Teardown.{Left, teardown_wait_group-Left}
use co_rtos.Wait.Block.{World, prepare_block, teardown_wait_group, signal_one, involved, visited}
use co_rtos.Wait.Group.{WaitGroup}
use co_rtos.Wait.Nodes.{WaitNodes}
use co_rtos.Wait.Pool.{Pool}
use co_rtos.Wait.Pool.Laws as PoolLaws
use co_rtos.Wait.Until.Laws.{FirstTrue, wait_until-iff-FirstTrue}
use co_rtos.Wait.Until.{wait_until}

-- The nodes of thread `t` start at 16 + 8 * t, and none is in use.
abbrev nodes : WaitNodes
nodes = record {
  slot = λ a. a % 8;
  active = λ a. false;
  links = no_links;
  tcb = λ a. 5;
  waitable = λ a. none;
  group = λ a. none;
  index = λ a. 255;
}

abbrev pool : ℕ → Pool
pool t = record { nodes = 16 + 8 * t; free_mask = 255 }

abbrev fresh_group : WaitGroup
fresh_group = record { done = true; winner_index = some 4; acquired = true; expected_count = 2 }

abbrev start : World
start = record {
  threads = threads;
  kernel = record new_kernel { running = true };
  nodes = nodes;
  pools = pool;
  groups = λ g. fresh_group;
  waitables = λ v. record { self = v; ends = no_ends };
  termination = λ t. t + 100;
  terminated = λ t. false;
}

abbrev no_queues : ℕ → List ℕ
no_queues v = []

pool-IsValid : (t : ℕ) → PoolLaws.IsValid (pool t) nodes
pool-IsValid t = record { bound = omega arith; bits = bits; slots = λ i lt. omega arith }
  where
    bits : (i : ℕ) → i < 8 → test_bit 255 i ≡ not false
    bits zero lt = refl
    bits (suc zero) lt = refl
    bits (suc (suc zero)) lt = refl
    bits (suc (suc (suc zero))) lt = refl
    bits (suc (suc (suc (suc zero)))) lt = refl
    bits (suc (suc (suc (suc (suc zero))))) lt = refl
    bits (suc (suc (suc (suc (suc (suc zero)))))) lt = refl
    bits (suc (suc (suc (suc (suc (suc (suc zero))))))) lt = refl
    bits (suc (suc (suc (suc (suc (suc (suc (suc i)))))))) lt = absurd (omega arith)

start-Waits : Waits start no_queues
start-Waits = record {
  selves = λ v. refl;
  holds = λ v. record { starts = refl; ends = refl; chain = tt; distinct = tt };
  queued = λ v a m. elim m [ ];
  listed = λ v a e. cc;
  pools = pool-IsValid;
  apart = λ t u i j li lj e. omega arith;
  grouped = λ t i lt e. cc;
  named = λ t i lt e. cc;
}

prepare_block-Prepared_example :
    (w : World) × (prepare_block 5 (40 ∷ 30 ∷ []) start ≡ some w)
    × Prepared start w no_queues 5 (40 ∷ 30 ∷ [])
prepare_block-Prepared_example =
    prepare_block-Prepared start no_queues 5 (40 ∷ 30 ∷ []) start-Waits refl (omega arith)
      (omega arith) (λ j lt. refl)

teardown-prepare_example :
    (w u : World) × (prepare_block 5 (40 ∷ 30 ∷ []) start ≡ some w)
    × (teardown_wait_group 5 5 w ≡ some u)
    × Waits u no_queues
teardown-prepare_example =
    teardown-prepare start no_queues 5 (40 ∷ 30 ∷ []) start-Waits refl (omega arith) (omega arith)
      (((λ e. omega (arith, e)), tt), (tt, tt)) (λ j lt. refl)

-- Thread 5 waits on 40 with its node 56.
abbrev node_56 : WaitNodes
node_56 = record {
  slot = λ a. a % 8;
  active = λ a. a == 56;
  links = no_links;
  tcb = λ a. 5;
  waitable = λ a. if a == 56 then some 40 else none;
  group = λ a. some 5;
  index = λ a. if a == 56 then 0 else 255;
}

abbrev ends_56 : Ends
ends_56 = record { head = some 56; tail = some 56 }

abbrev waits : World
waits = record start {
  nodes = node_56;
  pools = λ t. record { nodes = 16 + 8 * t; free_mask = if t == 5 then 254 else 255 };
  waitables = λ v. record { self = v; ends = if v == 40 then ends_56 else no_ends };
}

abbrev one_queue : ℕ → List ℕ
one_queue v = if v == 40 then 56 ∷ [] else []

waits-pool :
    (b : Bool) (t : ℕ)
    → (t == 5) ≡ b
    → PoolLaws.IsValid (record { nodes = 16 + 8 * t; free_mask = if b then 254 else 255 }) node_56
waits-pool b t e = record {
  bound = bound b;
  bits = λ i lt. bits b i lt ∙ ap not (sym (only b e i lt));
  slots = λ i lt. omega arith;
}
  where
    bound : (b : Bool) → (if b then 254 else 255) < 2 ^ 8
    bound true = omega arith
    bound false = omega arith

    bits : (b : Bool) (i : ℕ) → i < 8 → test_bit (if b then 254 else 255) i ≡ not (b && (i == 0))
    bits true zero lt = refl
    bits true (suc zero) lt = refl
    bits true (suc (suc zero)) lt = refl
    bits true (suc (suc (suc zero))) lt = refl
    bits true (suc (suc (suc (suc zero)))) lt = refl
    bits true (suc (suc (suc (suc (suc zero))))) lt = refl
    bits true (suc (suc (suc (suc (suc (suc zero)))))) lt = refl
    bits true (suc (suc (suc (suc (suc (suc (suc zero))))))) lt = refl
    bits false zero lt = refl
    bits false (suc zero) lt = refl
    bits false (suc (suc zero)) lt = refl
    bits false (suc (suc (suc zero))) lt = refl
    bits false (suc (suc (suc (suc zero)))) lt = refl
    bits false (suc (suc (suc (suc (suc zero))))) lt = refl
    bits false (suc (suc (suc (suc (suc (suc zero)))))) lt = refl
    bits false (suc (suc (suc (suc (suc (suc (suc zero))))))) lt = refl
    bits b (suc (suc (suc (suc (suc (suc (suc (suc i)))))))) lt = absurd (omega arith)

    only : (b : Bool) → (t == 5) ≡ b → (i : ℕ) → i < 8 → ((16 + 8 * t + i) == 56) ≡ (b && (i == 0))
    only true e i lt = ground (arith, e)
    only false e i lt = ground (arith, e)

waits-Waits : Waits waits one_queue
waits-Waits = record {
  selves = λ v. refl;
  holds = λ v. holds (v == 40);
  queued = λ v a m. queued (v == 40) v a ((==_iff v 40).0) m;
  listed = λ v a act e.
      subst (λ u. Has a (one_queue u)) (forty (a == 56) act e) (inl (ground (arith, act)));
  pools = λ t. waits-pool (t == 5) t refl;
  apart = λ t u i j li lj e. omega arith;
  grouped = λ t i lt e. ground arith;
  named = λ t i lt e. (40, ground (arith, e));
}
  where
    holds : (b : Bool) → Holds no_links (if b then ends_56 else no_ends) (if b then 56 ∷ [] else [])
    holds true = record {
      starts = refl;
      ends = refl;
      chain = (refl, refl, tt);
      distinct = (tt, tt);
    }
    holds false = record { starts = refl; ends = refl; chain = tt; distinct = tt }

    forty : {v : ℕ} (b : Bool) → b ≡ true → (if b then some 40 else none) ≡ some v → 40 ≡ v
    forty true h e = cc
    forty false h e = cc

    queued :
        (b : Bool) (v a : ℕ)
        → (b ≡ true → v ≡ 40)
        → Has a (if b then 56 ∷ [] else [])
        → ((a == 56) ≡ true) × ((if a == 56 then some 40 else none) ≡ some v)
    queued true v a at m = elim m [ inl e ↦ ground (arith, at refl, e) | inr n ↦ elim n [ ] ]
    queued false v a at m = elim m [ ]

involved-one : involved waits 5 max_wait_nodes 56 ≡ 40 ∷ []
unfolding involved visited
involved-one = refl

teardown_wait_group-Left_example :
    (w : World) × (teardown_wait_group 5 5 waits ≡ some w) × Left waits w one_queue 5
teardown_wait_group-Left_example =
    teardown_wait_group-Left waits one_queue 5 waits-Waits
      (subst (λ xs. Distinct xs) (sym involved-one) (tt, tt))
      (subst (λ xs. length xs ≤ 8) (sym involved-one) (omega arith))

-- The others signal 40 and change the flag that thread 5 looks at.
abbrev others : World → Option World
others w = signal_one 3 [] 1 40 true w >>= λ r.
    some (record r.0 { terminated = update r.0.terminated 9 true })

abbrev woken_or : Option (World × Ptr × Bool) → World
woken_or none = start
woken_or (some r) = r.0

abbrev hook : ℕ → Waiter → World → World
hook v waiter w = w

abbrev sees : World → Bool
sees w = w.terminated 9

-- Between the two looks of thread 5, thread 3 ends.
abbrev meanwhile : World → World
meanwhile w = record w { terminated = update w.terminated 3 true }

abbrev end : World
end = woken_or (wait_until hook sees 5 (40 ∷ []) meanwhile (others ∷ []) start)

wait_until-iff-FirstTrue_example :
    (wait_until hook sees 5 (40 ∷ []) meanwhile (others ∷ []) start ≡ some (end, some 0, true)) ↔ (
      ((sees start ≡ true) × (end ≡ start) × (◌≡◌ {A = Ptr} (some 0) none) × (true ≡ false))
      ⊎ ((sees start ≡ false)
          × FirstTrue hook sees 5
              (40 ∷ [])
              (others ∷ [])
              (none, false)
              (meanwhile start)
              end
              (some 0)
              true))
wait_until-iff-FirstTrue_example =
    wait_until-iff-FirstTrue hook sees 5 (40 ∷ []) meanwhile (others ∷ []) start end (some 0) true
      (omega arith) (omega arith) (tt, tt)

-- Thread 5 is blocked, and core 1 signals what it waits on.
abbrev asleep : World
asleep = record waits { threads = record threads { state = update threads.state 5 State.blocked } }

asleep-Waits : Waits asleep one_queue
asleep-Waits = Waits-regrouped asleep.threads asleep.groups waits-Waits

asleep-Sleeps : Sleeps [] 1 asleep 56
unfolding involved visited Kernel.set_thread_ready Scheduler.set_thread_ready Matrix.enqueue_thread
    Queue.push_back Scheduler.current_thread_priority Intrusive.link_back
asleep-Sleeps = record {
  grouped = refl;
  numbered = refl;
  blocked = refl;
  distinct = (tt, tt);
  readied = (_, _, _, _, refl);
}

only_56 : (a : ℕ) → Has a (one_queue 40) → a ≡ 56
only_56 a m = elim m [ inl e ↦ e | inr n ↦ elim n [ ] ]

signal_one-Signalled_example :
    (w : World) × (pended : Bool) × (signal_one 3 [] 1 40 true asleep ≡ some (w, pended))
    × Signalled [] 1 true asleep one_queue 40 w pended
signal_one-Signalled_example =
    signal_one-Signalled 3 [] 1 40 true asleep one_queue asleep-Waits
      (λ a m alive. subst (λ x. Sleeps [] 1 asleep x) (sym (only_56 a m)) asleep-Sleeps)
      (omega arith)
