-- ===== src/Wait/Block/Wake.antt =====
-- A signal: the pick, the win, the end of the wait, and the wake-up.
use co_rtos.Base.Members.{Has-append_right}
use co_rtos.Base.{
  ℕ, zero, suc, ◌+◌, ◌≤◌, ◌<◌, ◌==◌, Ptr, none, some, Bool, true, false, List, ◌∷◌, length, All,
  Has, Distinct, update, ◌≡◌, refl, sym, ◌∙◌, ap, subst, inl, if◌then◌else◌, arith,
}
use co_rtos.Config.{max_wait_nodes}
use co_rtos.Kernel.{Kernel, ReadyAction, set_thread_ready}
use co_rtos.Threads.{Threads, is_blocked}
use co_rtos.Wait.Block.Invariant.{node, Waits, Waits-regrouped, All-of_Has}
use co_rtos.Wait.Block.Teardown.{teardown_wait_group-Left}
use co_rtos.Wait.Block.Torn.{purge}
use co_rtos.Wait.Block.{
  World, visited, involved, teardown_wait_group, make_ready, wake_thread, wants_reschedule,
  is_done_group, signal_one,
}
use co_rtos.Wait.Group.{WaitGroup, try_win}
use co_rtos.Wait.Nodes.{invalid_index}
use co_rtos.Wait.Waitable.Pick.{Picked, nobody, somebody, pick_best-Picked}
use co_rtos.Wait.Waitable.{is_done, pick_best}

-- The node `a` is of a thread that is blocked and waits on distinct waitables, and which the kernel
-- can make ready.
pub record Sleeps (rounds : List Bool) (this_core : ℕ) (w : World) (a : ℕ) : Type 0 where
  pub grouped : w.nodes.group a ≡ some (w.nodes.tcb a)
  pub numbered : (w.nodes.index a == invalid_index) ≡ false
  pub blocked : is_blocked (w.threads.state (w.nodes.tcb a)) ≡ true
  pub distinct :
      Distinct (involved w (w.nodes.tcb a) max_wait_nodes (w.pools (w.nodes.tcb a)).nodes)
  pub readied :
      (th : Threads) × (k : Kernel) × (action : ReadyAction) × (poked : Bool) × (set_thread_ready
          rounds this_core w.threads w.kernel
          (w.nodes.tcb a)
        ≡ some (th, k, action, poked))

-- The thread of the node `a` has left its group, with `a` as the winner, and is made ready.
pub record Woken (rounds : List Bool) (this_core : ℕ) (acquired : Bool) (w : World)
    (queue : ℕ → List ℕ) (a : ℕ) (w' : World) (action : ReadyAction) (poked : Bool) : Type 0 where
  pub waits : Waits w' (purge (w.pools (w.nodes.tcb a)).nodes 0 max_wait_nodes queue)
  pub idle : (j : ℕ) → j < max_wait_nodes → w'.nodes.active (node w (w.nodes.tcb a) j) ≡ false
  pub won :
      w'.groups
      ≡ update w.groups (w.nodes.tcb a) (record (w.groups (w.nodes.tcb a)) {
        done = true;
        winner_index = some (w.nodes.index a);
        acquired = acquired;
      })
  pub readied :
      set_thread_ready rounds this_core w.threads w.kernel (w.nodes.tcb a)
      ≡ some (w'.threads, w'.kernel, action, poked)

-- What a signal of `v` does.
pub data Signalled (rounds : List Bool) (this_core : ℕ) (acquired : Bool) (w : World)
    (queue : ℕ → List ℕ) (v : ℕ) : World → Bool → Type 0 where
  all_done :
      All (λ b. is_done (is_done_group w) (w.nodes.group b) ≡ true) (queue v)
      → Signalled rounds this_core acquired w queue v w false
  wakes :
      (a : ℕ) (w' : World) (action : ReadyAction) (poked : Bool)
      → Picked w.nodes w.threads (is_done_group w) (queue v) (some a)
      → Woken rounds this_core acquired w queue a w' action poked
      → Signalled rounds this_core acquired w queue v w' (wants_reschedule action)

involved-regrouped :
    (w : World) (groups : ℕ → WaitGroup) (g n a : ℕ)
    → involved (record w { groups = groups }) g n a ≡ involved w g n a
unfolding involved visited
involved-regrouped w groups g zero a = refl
involved-regrouped w groups g (suc n) a = rw (involved-regrouped w groups g n (a + 1)) refl

length-involved : (w : World) (g n a : ℕ) → length (involved w g n a) ≤ n
unfolding involved
length-involved w g zero a = omega arith
length-involved w g (suc n) a =
    bounded (involved w g n (a + 1)) (visited w g a) (w.nodes.waitable a)
      (length-involved w g n (a + 1))
  where
    bounded :
        {n : ℕ} (rest : List ℕ) (b : Bool) (v : Ptr)
        → length rest ≤ n
        → length (if b then elim v [ none ↦ rest | some u ↦ u ∷ rest ] else rest) ≤ suc n
    bounded rest true none h = omega arith
    bounded rest true (some u) h = omega arith
    bounded rest false v h = omega arith

-- Neither the threads' states nor the kernel bear on the queues.
Waits-readied :
    {w : World} {queue : ℕ → List ℕ} (threads : Threads) (kernel : Kernel)
    → Waits w queue
    → Waits (record w { threads = threads; kernel = kernel }) queue
Waits-readied threads kernel v = record {
  selves = v.selves;
  holds = v.holds;
  queued = v.queued;
  listed = v.listed;
  pools = v.pools;
  apart = v.apart;
  grouped = v.grouped;
  named = v.named;
}

abbrev won_group : World → ℕ → Bool → WaitGroup
won_group w a acquired = record (w.groups (w.nodes.tcb a)) {
  done = true;
  winner_index = some (w.nodes.index a);
  acquired = acquired;
}

abbrev won_world : World → ℕ → Bool → World
won_world w a acquired = record w {
  groups = update w.groups (w.nodes.tcb a) (won_group w a acquired);
}

make_ready-after :
    (rounds : List Bool) (this_core t : ℕ) (w u : World) {th : Threads} {k : Kernel}
    {action : ReadyAction} {poked : Bool}
    → teardown_wait_group t t w ≡ some u
    → u.threads ≡ w.threads
    → u.kernel ≡ w.kernel
    → set_thread_ready rounds this_core w.threads w.kernel t ≡ some (th, k, action, poked)
    → make_ready rounds this_core t t w
      ≡ some (record u { threads = th; kernel = k }, action, poked)
unfolding make_ready
make_ready-after rounds this_core t w u left same_threads same_kernel ready =
    rw (left, same_threads, same_kernel, ready) refl

make_ready-Woken :
    (rounds : List Bool) (this_core : ℕ) (acquired : Bool) (w : World) (queue : ℕ → List ℕ) (a : ℕ)
    → Waits w queue
    → Sleeps rounds this_core w a
    → (w' : World) × (action : ReadyAction) × (poked : Bool) × (make_ready rounds this_core
          (w.nodes.tcb a)
          (w.nodes.tcb a)
          (won_world w a acquired)
        ≡ some (w', action, poked))
      × Woken rounds this_core acquired w queue a w' action poked
make_ready-Woken rounds this_core acquired w queue a waits sleeps =
    let t = w.nodes.tcb a in
    let base = (w.pools t).nodes in
    let won = won_world w a acquired in
    let same : involved won t max_wait_nodes base ≡ involved w t max_wait_nodes base =
      involved-regrouped w won.groups t max_wait_nodes base in
    let (u, left, after) =
      teardown_wait_group-Left won queue t (Waits-regrouped w.threads won.groups waits)
        (subst (λ xs. Distinct xs) (sym same) sleeps.distinct)
        (length-involved won t max_wait_nodes base) in
    let (th, k, action, poked, ready) = sleeps.readied in
    (
      record u { threads = th; kernel = k },
      action,
      poked,
      make_ready-after rounds this_core t won u left after.same_threads after.same_kernel ready,
      record {
        waits = Waits-readied th k after.waits;
        idle = after.idle;
        won = after.same_groups;
        readied = ready;
      },
    )

wake_thread-Woken :
    (rounds : List Bool) (this_core : ℕ) (acquired : Bool) (w : World) (queue : ℕ → List ℕ)
    (v a : ℕ)
    → Waits w queue
    → Has a (queue v)
    → is_done (is_done_group w) (w.nodes.group a) ≡ false
    → Sleeps rounds this_core w a
    → (w' : World) × (action : ReadyAction) × (poked : Bool) × (wake_thread rounds this_core a
          acquired w
        ≡ some (w', action, poked))
      × Woken rounds this_core acquired w queue a w' action poked
unfolding wake_thread try_win is_done
wake_thread-Woken rounds this_core acquired w queue v a waits m alive sleeps =
    let (w', action, poked, run, woken) =
      make_ready-Woken rounds this_core acquired w queue a waits sleeps in
    let alive' : (w.groups (w.nodes.tcb a)).done ≡ false =
      subst (λ g. is_done (is_done_group w) g ≡ false) sleeps.grouped alive in
    (
      w',
      action,
      poked,
      rw (sleeps.grouped, (waits.queued v a m).1, sleeps.numbered, sleeps.blocked, alive', run)
          refl,
      woken,
    )

signal-Signalled :
    (fuel : ℕ) (rounds : List Bool) (this_core v : ℕ) (acquired : Bool) (w : World)
    (queue : ℕ → List ℕ)
    → Waits w queue
    → ((a : ℕ)
        → Has a (queue v)
        → is_done (is_done_group w) (w.nodes.group a) ≡ false
        → Sleeps rounds this_core w a)
    → (r : Ptr) → pick_best (w.waitables v) w.nodes w.threads (is_done_group w) fuel ≡ some r
    → Picked w.nodes w.threads (is_done_group w) (queue v) r
    → (w' : World) × (pended : Bool) × (signal_one fuel rounds this_core v acquired w
        ≡ some (w', pended))
      × Signalled rounds this_core acquired w queue v w' pended
unfolding signal_one
signal-Signalled fuel rounds this_core v acquired w queue waits sleeps _ pick (nobody all) =
    (w, false, rw pick refl, all_done all)
signal-Signalled fuel rounds this_core v acquired w queue waits sleeps _ pick
      (somebody us a vs e alive less leq) =
    let m : Has a (queue v) =
      subst (λ xs. Has a xs) (sym e) (Has-append_right a us (a ∷ vs) (inl refl)) in
    let (w', action, poked, run, woken) =
      wake_thread-Woken rounds this_core acquired w queue v a waits m alive (sleeps a m alive) in
    (
      w',
      wants_reschedule action,
      rw (pick, run) refl,
      wakes a w' action poked (somebody us a vs e alive less leq) woken,
    )

-- On well-formed queues, with fuel above the number of nodes of the queue: if every node there
-- whose group is not done is of a blocked thread that waits on distinct waitables and can be made
-- ready, a signal passes its assertions. Where all groups are done it changes nothing. Else the
-- first node of the least priority number among the others wins its group: the thread's nodes
-- leave every queue and go back to its pool, the group keeps the node's number and the flag, the
-- queues stay well-formed, and the kernel makes the thread ready; a reschedule is pended exactly
-- if the kernel asks for it.
pub signal_one-Signalled :
    (fuel : ℕ) (rounds : List Bool) (this_core v : ℕ) (acquired : Bool) (w : World)
    (queue : ℕ → List ℕ)
    → Waits w queue
    → ((a : ℕ)
        → Has a (queue v)
        → is_done (is_done_group w) (w.nodes.group a) ≡ false
        → Sleeps rounds this_core w a)
    → length (queue v) < fuel
    → (w' : World) × (pended : Bool) × (signal_one fuel rounds this_core v acquired w
        ≡ some (w', pended))
      × Signalled rounds this_core acquired w queue v w' pended
signal_one-Signalled fuel rounds this_core v acquired w queue waits sleeps enough =
    let (r, pick, picked) =
      pick_best-Picked (w.waitables v) w.nodes w.threads (is_done_group w) (queue v) fuel
        (record {
          holds = waits.holds v;
          named =
              All-of_Has (queue v) (λ a m. (waits.queued v a m).1 ∙ ap some (sym (waits.selves v)));
        })
        (All-of_Has (queue v) (λ a m. (waits.queued v a m).0)) enough in
    signal-Signalled fuel rounds this_core v acquired w queue waits sleeps r pick picked
