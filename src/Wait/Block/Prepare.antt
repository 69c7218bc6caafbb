-- ===== src/Wait/Block/Prepare.antt =====
-- What `prepare_block` leaves.
use co_rtos.Base.{
  ℕ, zero, suc, ◌+◌, ◌≤◌, ◌<◌, ◌%◌, ◌^◌, some, true, false, ltb, leb, length, List, [], ◌∷◌, ◌++◌,
  get_elem?, update, ◌≡◌, refl, ◌∙◌, ap, subst, arith,
}
use co_rtos.Config.{max_wait_nodes}
use co_rtos.Threads.{Threads, State, is_running, set_state}
use co_rtos.Wait.Block.{World, enqueue_nodes, prepare_block}
use co_rtos.Wait.Block.Enqueue.{joined, enrolled, enrolled-Waits}
use co_rtos.Wait.Block.Invariant.{node, Waits, Waits-regrouped}
use co_rtos.Wait.Group.{begin}
use co_rtos.Wait.Nodes.{reset}
use co_rtos.Wait.Pool.{Pool, taken}
use co_rtos.Wait.Pool.First.{Took, alloc-Took}
use co_rtos.Wait.Waitable.{add}

-- The queues once the nodes from `base + k` on have joined those of the waitables, one node each.
unfoldable pub join : ℕ → ℕ → List ℕ → (ℕ → List ℕ) → ℕ → List ℕ
join base k [] queue = queue
join base k (v ∷ vs) queue = join base (k + 1) vs (update queue v (queue v ++ (base + k) ∷ []))

add-taken :
    (w : World) (t v index a : ℕ)
    → (w.waitables v).self ≡ v
    → add (w.waitables v) (taken w.nodes a t v index) a
      ≡ some (record (w.waitables v) { ends = (joined w t v index a).1 }, (joined w t v index a).0)
unfolding add taken reset
add-taken w t v index a self = ground arith

enqueue-step :
    (w : World) (t v k : ℕ) (vs : List ℕ) (p : Pool)
    → (w.waitables v).self ≡ v
    → Took (w.pools t) p w.nodes t v (k % 2 ^ 8) k
    → enqueue_nodes t k (v ∷ vs) w
      ≡ enqueue_nodes t (k + 1) vs (enrolled w t v (k % 2 ^ 8) (node w t k) p)
unfolding enqueue_nodes
enqueue-step w t v k vs p self took =
    rw (took.gives, add-taken w t v (k % 2 ^ 8) (node w t k) self) refl

-- What a node says of the wait that it stands for.
pub record Enrolled (w : World) (a t v index : ℕ) : Type 0 where
  pub waitable : w.nodes.waitable a ≡ some v
  pub group : w.nodes.group a ≡ some t
  pub index_is : w.nodes.index a ≡ index

Enrolled-regrouped :
    (w : World) (threads : Threads) (a t v index : ℕ)
    → Enrolled w a t v index
    → Enrolled (record w { threads = threads }) a t v index
Enrolled-regrouped w threads a t v index h = record {
  waitable = h.waitable;
  group = h.group;
  index_is = h.index_is;
}

-- The nodes of the thread `t` from `k` on joined the waitables `vs`, those before `k` are as before.
record Enqueued (w w' : World) (queue : ℕ → List ℕ) (t base k : ℕ) (vs : List ℕ) : Type 0 where
  waits : Waits w' (join base k vs queue)
  base_is : (w'.pools t).nodes ≡ base
  used : (j : ℕ) → j < max_wait_nodes → w'.nodes.active (base + j) ≡ ltb j (k + length vs)
  threads : w'.threads ≡ w.threads
  kernel : w'.kernel ≡ w.kernel
  groups : w'.groups ≡ w.groups
  enrolled_all : (j v : ℕ) → get_elem? vs j ≡ some v → Enrolled w' (base + (k + j)) t v (k + j)
  kept :
      (j v index : ℕ) → j < k → Enrolled w (base + j) t v index → Enrolled w' (base + j) t v index

Enqueued-none :
    {w : World} {queue : ℕ → List ℕ} (t base k : ℕ)
    → Waits w queue
    → (w.pools t).nodes ≡ base
    → ((j : ℕ) → j < max_wait_nodes → w.nodes.active (base + j) ≡ ltb j k)
    → Enqueued w w queue t base k []
unfolding join
Enqueued-none t base k waits e first = record {
  waits = waits;
  base_is = e;
  used = λ j lt. first j lt ∙ ap (λ n. ltb j n) (omega arith);
  threads = refl;
  kernel = refl;
  groups = refl;
  enrolled_all = λ j v h. cc;
  kept = λ j v i lt h. h;
}

-- A round leaves the first `k + 1` nodes active.
round-used :
    (w : World) (t v index k base : ℕ) (p : Pool)
    → (w.pools t).nodes ≡ base
    → ((j : ℕ) → j < max_wait_nodes → w.nodes.active (base + j) ≡ ltb j k)
    → (j : ℕ) → j < max_wait_nodes
    → (enrolled w t v index (node w t k) p).nodes.active (base + j) ≡ ltb j (k + 1)
unfolding taken reset
round-used w t v index k base p e first j lt = ground (arith, first j)

round-Enrolled :
    (w : World) (t v k base : ℕ) (p : Pool)
    → (w.pools t).nodes ≡ base
    → (w.waitables v).self ≡ v
    → k < max_wait_nodes
    → Enrolled (enrolled w t v (k % 2 ^ 8) (node w t k) p) (base + k) t v k
unfolding taken reset
round-Enrolled w t v k base p e self lt = record {
  waitable = ground arith;
  group = ground arith;
  index_is = ground arith;
}

round-kept :
    (w : World) (t v index k base : ℕ) (p : Pool)
    → (w.pools t).nodes ≡ base
    → (j u i : ℕ) → j < k
    → Enrolled w (base + j) t u i
    → Enrolled (enrolled w t v index (node w t k) p) (base + j) t u i
unfolding taken reset
round-kept w t v index k base p e j u i lt h = record {
  waitable = ground (arith, h.waitable);
  group = ground (arith, h.group);
  index_is = ground (arith, h.index_is);
}

Enrolled-cons :
    (w : World) (t base k v : ℕ) (vs : List ℕ)
    → Enrolled w (base + k) t v k
    → ((j u : ℕ) → get_elem? vs j ≡ some u → Enrolled w (base + (k + 1 + j)) t u (k + 1 + j))
    → (j u : ℕ) → get_elem? (v ∷ vs) j ≡ some u
    → Enrolled w (base + (k + j)) t u (k + j)
Enrolled-cons w t base k v vs here later zero u e =
    let same : v ≡ u = ground arith in
    subst (λ n. Enrolled w (base + n) t u n) (omega arith)
      (subst (λ x. Enrolled w (base + k) t x k) same here)
Enrolled-cons w t base k v vs here later (suc j) u e =
    subst (λ n. Enrolled w (base + n) t u n) (omega arith) (later j u e)

enqueue_nodes-Enqueued :
    (w : World) (queue : ℕ → List ℕ) (t base k : ℕ) (vs : List ℕ)
    → Waits w queue
    → (w.pools t).nodes ≡ base
    → ((j : ℕ) → j < max_wait_nodes → w.nodes.active (base + j) ≡ ltb j k)
    → k + length vs ≤ max_wait_nodes
    → (w' : World) × (enqueue_nodes t k vs w ≡ some w') × Enqueued w w' queue t base k vs
unfolding enqueue_nodes join
enqueue_nodes-Enqueued w queue t base k [] waits e first fits =
    (w, refl, Enqueued-none t base k waits e first)
enqueue_nodes-Enqueued w queue t base k (v ∷ vs) waits e first fits =
    let lt : k < max_wait_nodes = omega arith in
    let idle : w.nodes.active (node w t k) ≡ false = ground (arith, first k) in
    let (p, took) =
      alloc-Took (w.pools t) w.nodes t v (k % 2 ^ 8) k (waits.pools t) (omega arith) lt idle
        (λ j below. ground (arith, first j)) in
    let next = enrolled w t v (k % 2 ^ 8) (node w t k) p in
    let waits' = enrolled-Waits waits t v (k % 2 ^ 8) k p lt idle took.same took.valid in
    let (w', run, rest) =
      enqueue_nodes-Enqueued next (update queue v (queue v ++ node w t k ∷ [])) t base (k + 1) vs
        waits' (ground (arith, took.same)) (round-used w t v (k % 2 ^ 8) k base p e first)
        (omega arith) in
    (
      w',
      enqueue-step w t v k vs p (waits.selves v) took ∙ run,
      record {
        waits =
            subst (λ b. Waits w' (join base (k + 1) vs (update queue v (queue v ++ (b + k) ∷ []))))
              e rest.waits;
        base_is = rest.base_is;
        used = λ j lj. rest.used j lj ∙ ap (λ n. ltb j n) (omega arith);
        threads = rest.threads;
        kernel = rest.kernel;
        groups = rest.groups;
        enrolled_all =
            Enrolled-cons w' t base k v vs
              (rest.kept k v k (omega arith) (round-Enrolled w t v k base p e (waits.selves v) lt))
              rest.enrolled_all;
        kept = λ j u i lj h.
            rest.kept j u i (omega arith) (round-kept w t v (k % 2 ^ 8) k base p e j u i lj h);
      },
    )

-- The thread `t` is blocked on the waitables `vs`: its first nodes stand behind the others in their
-- queues, one each and in order, its group has begun, and all else is as before.
pub record Prepared (w w' : World) (queue : ℕ → List ℕ) (t : ℕ) (vs : List ℕ) : Type 0 where
  pub waits : Waits w' (join (w.pools t).nodes 0 vs queue)
  pub blocked : w'.threads ≡ set_state w.threads t State.blocked
  pub begun : w'.groups ≡ update w.groups t (begin (length vs) (w.groups t))
  pub used : (j : ℕ) → j < max_wait_nodes → w'.nodes.active (node w t j) ≡ ltb j (length vs)
  pub nodes_at : (w'.pools t).nodes ≡ (w.pools t).nodes
  pub nodes_of : (j v : ℕ) → get_elem? vs j ≡ some v → Enrolled w' (node w t j) t v j

-- A running thread with no active node that blocks on one to eight waitables is blocked, and no
-- assertion fails. Its nodes join the queues of the waitables, behind the nodes that wait there,
-- one for each and with its number; the node of the first free slot is taken each time; the group
-- expects as many as there are, and has no winner. Every queue is well-formed as before.
pub prepare_block-Prepared :
    (w : World) (queue : ℕ → List ℕ) (t : ℕ) (vs : List ℕ)
    → Waits w queue
    → is_running (w.threads.state t) ≡ true
    → 0 < length vs
    → length vs ≤ max_wait_nodes
    → ((j : ℕ) → j < max_wait_nodes → w.nodes.active (node w t j) ≡ false)
    → (w' : World) × (prepare_block t vs w ≡ some w') × Prepared w w' queue t vs
unfolding prepare_block
prepare_block-Prepared w queue t vs waits runs pos fits idle =
    let started : World = record w {
      groups = update w.groups t (begin (length vs % 2 ^ 8) (w.groups t));
    } in
    let some_waitables : ltb 0 (length vs) ≡ true = ground arith in
    let few : leb (length vs) max_wait_nodes ≡ true = ground arith in
    let (w', run, e) =
      enqueue_nodes-Enqueued started queue t (w.pools t).nodes 0 vs
        (Waits-regrouped w.threads started.groups waits) refl (λ j lt. ground (arith, idle j))
        (omega arith) in
    (
      record w' { threads = set_state w'.threads t State.blocked },
      rw (runs, some_waitables, few, run) refl,
      record {
        waits = Waits-regrouped _ w'.groups e.waits;
        blocked = ap (λ th. set_state th t State.blocked) e.threads;
        begun = e.groups ∙ ap (λ n. update w.groups t (begin n (w.groups t))) (omega arith);
        used = λ j lt. e.used j lt ∙ ap (λ n. ltb j n) (omega arith);
        nodes_at = e.base_is;
        nodes_of = λ j v h. Enrolled-regrouped w' _ (node w t j) t v j (
            subst (λ n. Enrolled w' ((w.pools t).nodes + n) t v n) (omega arith)
              (e.enrolled_all j v h));
      },
    )
