-- ===== src/Wait/Until.antt =====
-- Waiting for a condition: `wait_for_any`, `wait_until` and `Thread::join` of src/kernel/kernel.cpp,
-- and `notify_block` of src/kernel/threading_subsystem.cpp. What the other threads do from the yield
-- until the thread runs again, and has the locks again, is a function of the world; it is `none` if
-- the thread never does. What they do earlier, once the locks are released, counts as done then.
pub mod Laws
use co_rtos.Base.{
  ℕ, zero, suc, Ptr, Option, none, some, Bool, true, false, not, List, [], ◌∷◌, ltb, leb, length,
  if◌then◌else◌, assert, ◌>>=◌, ◌>>◌, ◌≡◌, refl, ap, ◌∙◌, inl, inr, Bool-cases, Option-cases, arith,
}
use co_rtos.Config.{max_wait_nodes}
use co_rtos.Kernel.Handles
use co_rtos.Threads.{Waiter, create_waiter}
use co_rtos.Wait.Block.{World, prepare_block, wait_result}
use co_rtos.Wait.Refs

abbrev pub Others : Type 0
Others = World → Option World

-- `on_thread_blocked` is the hook of each waitable; that of the base class does nothing.
module _ (on_thread_blocked : ℕ → Waiter → World → World) where
  -- The loop of `notify_block`: each waitable gets the same snapshot.
  unfoldable pub notify_from : Waiter → List ℕ → World → World
  notify_from waiter [] w = w
  notify_from waiter (v ∷ vs) w = notify_from waiter vs (on_thread_blocked v waiter w)

  unfoldable pub notify_block : ℕ → List ℕ → World → World
  notify_block t vs w = notify_from (create_waiter w.threads t) vs w

  -- Blocks the thread `t`, tells the waitables, and yields.
  unfoldable pub sleep : Others → ℕ → List ℕ → World → Option World
  sleep others t vs w = do blocked ← prepare_block t vs w; others (notify_block t vs blocked)

  unfoldable pub wait_for_any : Others → ℕ → List ℕ → World → Option (World × Ptr × Bool)
  wait_for_any others t vs w = do
    assert (ltb 0 (length vs))
    assert (leb (length vs) max_wait_nodes)
    locked ← Refs.lock_order vs
    w' ← sleep others t vs w
    let r = wait_result t w'
    some (w', r.0, r.1)

  -- The loop of `wait_until`, with the result so far. The list says what the others do at each yield;
  -- where it ends, the thread is never woken.
  module _ (predicate : World → Bool) (t : ℕ) (vs : List ℕ) where
    unfoldable pub wait_loop : List Others → World → Ptr × Bool → Option (World × Ptr × Bool)
    wait_loop [] w r = do
      locked ← Refs.lock_order vs
      if predicate w then some (w, r.0, r.1) else none
    wait_loop (others ∷ rest) w r = do
      locked ← Refs.lock_order vs
      if predicate w
          then some (w, r.0, r.1)
          else (sleep others t vs w >>= λ w'. wait_loop rest w' (wait_result t w'))

    -- `meanwhile` is what the other threads do between the first look, which takes no lock, and the
    -- one under the locks.
    unfoldable pub wait_until : (World → World) → List Others → World → Option (World × Ptr × Bool)
    wait_until meanwhile others w = do
      assert (ltb 0 (length vs))
      assert (leb (length vs) max_wait_nodes)
      if predicate w then some (w, none, false) else wait_loop others (meanwhile w) (none, false)

  -- `Thread::join` by the thread `t`, of the thread that the handle names.
  unfoldable pub join :
      (World → World) → List Others → ℕ → Ptr → World → Option (World × Ptr × Bool)
  join meanwhile others t none w = none
  join meanwhile others t (some u) w =
      wait_until (λ v. v.terminated u) t (w.termination u ∷ []) meanwhile others w
