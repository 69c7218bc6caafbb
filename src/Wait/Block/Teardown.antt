-- ===== src/Wait/Block/Teardown.antt =====
-- What `teardown_wait_group` leaves.
use co_rtos.Base.{
  ℕ, zero, suc, ◌+◌, ◌≤◌, ◌<◌, some, true, false, List, length, Distinct, ◌≡◌, refl, sym, ◌∙◌,
  subst, inl, inr, Bool-cases, arith,
}
use co_rtos.Config.{max_wait_nodes}
use co_rtos.Wait.Block.{World, involved, release_nodes, teardown_wait_group}
use co_rtos.Wait.Block.Invariant.{node, Waits}
use co_rtos.Wait.Block.Release.{without, left_nodes, released, released-Waits}
use co_rtos.Wait.Pool.First.{free-Freed}
use co_rtos.Wait.Refs.Laws as RefsLaws
use co_rtos.Wait.Block.Torn.{
  purge, idle-step, busy-step, Torn, Torn-none, Torn-idle, Torn-busy, left-pool,
}

release_nodes-Torn :
    (w : World) (queue : ℕ → List ℕ) (t base k n : ℕ)
    → Waits w queue
    → (w.pools t).nodes ≡ base
    → k + n ≤ max_wait_nodes
    → (w' : World) × (release_nodes t t n (base + k) w ≡ some w') × Torn w w' queue t base k n
unfolding release_nodes
release_nodes-Torn w queue t base k zero waits e fits = (w, refl, Torn-none t base k waits e)
release_nodes-Torn w queue t base k (suc n) waits e fits =
    let lt : k < max_wait_nodes = omega arith in
    let at : node w t k ≡ base + k = omega arith in
    let next : base + (k + 1) ≡ base + k + 1 = omega arith in
    elim (Bool-cases (w.nodes.active (base + k))) [
      | inr idle ↦
          let (w', run, rest) = release_nodes-Torn w queue t base (k + 1) n waits e (omega arith) in
          (
            w',
            idle-step w t n (base + k) idle
                ∙ subst (λ b. release_nodes t t n b w ≡ some w') next run,
            Torn-idle t base k n waits idle rest,
          )
      | inl busy ↦
          let act : w.nodes.active (node w t k) ≡ true =
            subst (λ x. w.nodes.active x ≡ true) (sym at) busy in
          let (v, to) = waits.named t k lt act in
          let (p, freed) =
            free-Freed (w.pools t) (left_nodes w v (node w t k)) k
              (left-pool w t v (node w t k) (waits.pools t)) lt act in
          let waits' = released-Waits waits t v k p lt act to freed.same freed.valid in
          let (w', run, rest) =
            release_nodes-Torn (released w t v (node w t k) p) (λ u. without (node w t k) (queue u))
              t base (k + 1) n waits' (ground (arith, freed.same)) (omega arith) in
          let stepped : release_nodes t t (suc n) (node w t k) w ≡ some w' =
            busy-step w t n (node w t k) v p (waits.selves v) act (waits.grouped t k lt act) to
              freed.gives
            ∙ subst (λ b. release_nodes t t n b (released w t v (node w t k) p) ≡ some w')
                (omega arith) run in
          (
            w',
            subst (λ x. release_nodes t t (suc n) x w ≡ some w') at stepped,
            Torn-busy t base k n v p (
                subst
                  (λ x. Torn (released w t v x p) w' (λ u. without x (queue u)) t base (k + 1) n) at
                  rest),
          )
    ]

-- What leaving the group leaves: the thread has no active node, and the queues are without its nodes.
pub record Left (w w' : World) (queue : ℕ → List ℕ) (t : ℕ) : Type 0 where
  pub waits : Waits w' (purge (w.pools t).nodes 0 max_wait_nodes queue)
  pub idle : (j : ℕ) → j < max_wait_nodes → w'.nodes.active (node w t j) ≡ false
  pub same_threads : w'.threads ≡ w.threads
  pub same_kernel : w'.kernel ≡ w.kernel
  pub same_groups : w'.groups ≡ w.groups

-- A thread that waits on distinct waitables, eight at most, leaves its group: no assertion fails,
-- all its nodes leave their queues and go back to the pool, the other nodes keep their queues and
-- their order, and every queue and pool is well-formed as before.
pub teardown_wait_group-Left :
    (w : World) (queue : ℕ → List ℕ) (t : ℕ)
    → Waits w queue
    → Distinct (involved w t max_wait_nodes (w.pools t).nodes)
    → length (involved w t max_wait_nodes (w.pools t).nodes) ≤ max_wait_nodes
    → (w' : World) × (teardown_wait_group t t w ≡ some w') × Left w w' queue t
unfolding teardown_wait_group
teardown_wait_group-Left w queue t waits distinct few =
    let (locked, lock, up, members) =
      RefsLaws.lock_order-Ascending (involved w t max_wait_nodes (w.pools t).nodes) few distinct in
    let (w', run, torn) =
      release_nodes-Torn w queue t (w.pools t).nodes 0 max_wait_nodes waits refl (omega arith) in
    (
      w',
      rw lock (subst (λ b. release_nodes t t max_wait_nodes b w ≡ some w') (omega arith) run),
      record {
        waits = torn.waits;
        idle = λ j lt. torn.idle j (omega arith) (omega arith);
        same_threads = torn.threads;
        same_kernel = torn.kernel;
        same_groups = torn.groups;
      },
    )
