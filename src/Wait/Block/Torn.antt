-- ===== src/Wait/Block/Torn.antt =====
-- What the release of a thread's nodes does, node by node.
use mathlib.Core.Path.{fun_ext}
use co_rtos.Base.{
  ℕ, zero, suc, ◌+◌, ◌≤◌, ◌<◌, ◌==◌, Option, some, true, false, ptr_eq, List, update, if◌then◌else◌,
  ◌≡◌, refl, sym, ◌∙◌, ap, subst, inl, inr, Bool-cases, arith, ◌>>=◌,
}
use co_rtos.Intrusive.{unlink}
use co_rtos.Wait.Block.{World, visited, leave, release_nodes}
use co_rtos.Wait.Block.Invariant.{Waits, idle-Lacks}
use co_rtos.Wait.Block.Release.{without, without-Lacks, left_nodes, released}
use co_rtos.Wait.Nodes.{WaitNodes, reset}
use co_rtos.Wait.Pool.{Pool, free}
use co_rtos.Wait.Pool.Laws as PoolLaws
use co_rtos.Wait.Waitable.{remove}

-- The queues without the `n` nodes from `base + k` on.
unfoldable pub purge : ℕ → ℕ → ℕ → (ℕ → List ℕ) → ℕ → List ℕ
purge base k zero queue = queue
purge base k (suc n) queue = purge base (k + 1) n (λ u. without (base + k) (queue u))

-- The world once node `a` has left the queue of `v`.
abbrev pub left_world : World → ℕ → ℕ → World
left_world w v a = record w {
  waitables =
      update w.waitables v
        (record (w.waitables v) { ends = (unlink w.nodes.links (w.waitables v).ends a).1 });
  nodes = left_nodes w v a;
}

leave-own :
    (w : World) (v a : ℕ)
    → (w.waitables v).self ≡ v
    → w.nodes.waitable a ≡ some v
    → leave a (some v) w ≡ left_world w v a
unfolding leave remove
leave-own w v a self to =
    let mine : ptr_eq (w.nodes.waitable a) (some (w.waitables v).self) ≡ true = ground arith in
    simp mine refl

pub visited-busy :
    (w : World) (t a : ℕ)
    → w.nodes.active a ≡ true
    → w.nodes.group a ≡ some t
    → visited w t a ≡ true
unfolding visited
visited-busy w t a act of = ground arith

pub visited-idle : (w : World) (t a : ℕ) → w.nodes.active a ≡ false → visited w t a ≡ false
unfolding visited
visited-idle w t a act = rw act refl

pub idle-step :
    (w : World) (t n a : ℕ)
    → w.nodes.active a ≡ false
    → release_nodes t t (suc n) a w ≡ release_nodes t t n (a + 1) w
unfolding release_nodes
idle-step w t n a act = rw (visited-idle w t a act) refl

pub busy-step :
    (w : World) (t n a v : ℕ) (p : Pool)
    → (w.waitables v).self ≡ v
    → w.nodes.active a ≡ true
    → w.nodes.group a ≡ some t
    → w.nodes.waitable a ≡ some v
    → free (w.pools t) (left_nodes w v a) a ≡ some (p, reset (left_nodes w v a) a)
    → release_nodes t t (suc n) a w ≡ release_nodes t t n (a + 1) (released w t v a p)
unfolding release_nodes
busy-step w t n a v p self act of to freed = rw (visited-busy w t a act of) (
    ap (λ o. free_in (leave a o w) >>= release_nodes t t n (a + 1)) to
    ∙ ap (λ l. free_in l >>= release_nodes t t n (a + 1)) (leave-own w v a self to)
    ∙ ap (λ r. (r >>= settled) >>= release_nodes t t n (a + 1)) freed)
  where
    free_in : World → Option World
    free_in l = free (l.pools t) l.nodes a >>= λ r.
        some (record l { pools = update l.pools t r.0; nodes = r.1 })

    settled : Pool × WaitNodes → Option World
    settled r = some (record (left_world w v a) { pools = update w.pools t r.0; nodes = r.1 })

-- The nodes of the thread `t` from `k` on, `n` of them, are idle and in no queue.
pub record Torn (w w' : World) (queue : ℕ → List ℕ) (t base k n : ℕ) : Type 0 where
  pub waits : Waits w' (purge base k n queue)
  pub base_is : (w'.pools t).nodes ≡ base
  pub idle : (j : ℕ) → k ≤ j → j < k + n → w'.nodes.active (base + j) ≡ false
  pub kept :
      (j : ℕ) → j < k → w.nodes.active (base + j) ≡ false → w'.nodes.active (base + j) ≡ false
  pub threads : w'.threads ≡ w.threads
  pub kernel : w'.kernel ≡ w.kernel
  pub groups : w'.groups ≡ w.groups

pub Torn-none :
    {w : World} {queue : ℕ → List ℕ} (t base k : ℕ)
    → Waits w queue
    → (w.pools t).nodes ≡ base
    → Torn w w queue t base k zero
unfolding purge
Torn-none t base k waits e = record {
  waits = waits;
  base_is = e;
  idle = λ j lo hi. absurd (omega arith);
  kept = λ j lt h. h;
  threads = refl;
  kernel = refl;
  groups = refl;
}

-- An idle node is passed over.
pub Torn-idle :
    {w w' : World} {queue : ℕ → List ℕ} (t base k n : ℕ)
    → Waits w queue
    → w.nodes.active (base + k) ≡ false
    → Torn w w' queue t base (k + 1) n
    → Torn w w' queue t base k (suc n)
unfolding purge
Torn-idle {w} {w'} {queue} t base k n waits idle rest = record {
  waits =
      subst (λ q. Waits w' (purge base (k + 1) n q))
        (fun_ext
          (λ u. sym (without-Lacks (base + k) (queue u) (idle-Lacks waits u (base + k) idle))))
        rest.waits;
  base_is = rest.base_is;
  idle = λ j lo hi. elim (Bool-cases (j == k)) [
    | inl here ↦
        let e : k ≡ j = ground arith in
        subst (λ x. w'.nodes.active (base + x) ≡ false) e (rest.kept k (omega arith) idle)
    | inr later ↦ rest.idle j (ground arith) (omega arith)
  ];
  kept = λ j lt h. rest.kept j (omega arith) h;
  threads = rest.threads;
  kernel = rest.kernel;
  groups = rest.groups;
}

released-active :
    (w : World) (t v a b : ℕ) (p : Pool)
    → (released w t v a p).nodes.active b ≡ (if b == a then false else w.nodes.active b)
unfolding reset
released-active w t v a b p = refl

-- An active one is released.
pub Torn-busy :
    {w w' : World} {queue : ℕ → List ℕ} (t base k n v : ℕ) (p : Pool)
    → Torn (released w t v (base + k) p) w' (λ u. without (base + k) (queue u)) t base (k + 1) n
    → Torn w w' queue t base k (suc n)
unfolding purge
Torn-busy {w} {w'} {queue} t base k n v p rest = record {
  waits = rest.waits;
  base_is = rest.base_is;
  idle = λ j lo hi. elim (Bool-cases (j == k)) [
    | inl here ↦
        let e : k ≡ j = ground arith in
        subst (λ x. w'.nodes.active (base + x) ≡ false) e
          (rest.kept k (omega arith)
            (ground (arith, released-active w t v (base + k) (base + k) p)))
    | inr later ↦ rest.idle j (ground arith) (omega arith)
  ];
  kept = λ j lt h.
      rest.kept j (omega arith) (ground (arith, released-active w t v (base + k) (base + j) p));
  threads = rest.threads;
  kernel = rest.kernel;
  groups = rest.groups;
}

pub left-pool :
    (w : World) (t v a : ℕ)
    → PoolLaws.IsValid (w.pools t) w.nodes
    → PoolLaws.IsValid (w.pools t) (left_nodes w v a)
left-pool w t v a h = record { bound = h.bound; bits = h.bits; slots = h.slots }
