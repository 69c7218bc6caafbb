-- ===== src/Wait/Block/Invariant.antt =====
-- The queues, the nodes and the pools of all threads between operations, and which writes leave a
-- queue or a pool alone.
use co_rtos.Base.Members.{Lacks-iff_not_Has}
use co_rtos.Base.{
  ℕ, ◌+◌, ◌<◌, Ptr, none, some, Bool, true, false, not, List, [], ◌∷◌, Has, Lacks, All, ◌≡◌, ◌≢◌,
  inl, inr, refl, sym, ◌∙◌, ap,
}
use co_rtos.Config.{max_wait_nodes}
use co_rtos.Intrusive.{Links, Ends, set_next, set_prev}
use co_rtos.Intrusive.Chain.{Holds, SameLinks, Apart, Chain-frame, Chain-set_next, Chain-set_prev}
use co_rtos.Wait.Block.{World}
use co_rtos.Threads.{Threads}
use co_rtos.Wait.Group.{WaitGroup}
use co_rtos.Wait.Nodes.{WaitNodes}
use co_rtos.Wait.Pool.{Pool}
use co_rtos.Wait.Pool.Laws as PoolLaws

-- Node `i` of the thread `t`.
abbrev pub node : World → ℕ → ℕ → ℕ
node w t i = (w.pools t).nodes + i

-- Each waitable holds the nodes of its queue, which are the active nodes that name it; each pool is
-- valid and apart from the others, and an active node is of its thread's group and names a waitable.
pub record Waits (w : World) (queue : ℕ → List ℕ) : Type 0 where
  pub selves : (v : ℕ) → (w.waitables v).self ≡ v
  pub holds : (v : ℕ) → Holds w.nodes.links (w.waitables v).ends (queue v)
  pub queued :
      (v a : ℕ) → Has a (queue v) → (w.nodes.active a ≡ true) × (w.nodes.waitable a ≡ some v)
  pub listed : (v a : ℕ) → w.nodes.active a ≡ true → w.nodes.waitable a ≡ some v → Has a (queue v)
  pub pools : (t : ℕ) → PoolLaws.IsValid (w.pools t) w.nodes
  pub apart :
      (t u i j : ℕ) → i < max_wait_nodes → j < max_wait_nodes → node w t i ≡ node w u j → t ≡ u
  pub grouped :
      (t i : ℕ)
      → i < max_wait_nodes
      → w.nodes.active (node w t i) ≡ true
      → w.nodes.group (node w t i) ≡ some t
  pub named :
      (t i : ℕ)
      → i < max_wait_nodes
      → w.nodes.active (node w t i) ≡ true
      → (v : ℕ) × (w.nodes.waitable (node w t i) ≡ some v)

-- Neither the threads' states nor the groups bear on it.
pub Waits-regrouped :
    {w : World} {queue : ℕ → List ℕ} (threads : Threads) (groups : ℕ → WaitGroup)
    → Waits w queue
    → Waits (record w { threads = threads; groups = groups }) queue
Waits-regrouped threads groups v = record {
  selves = v.selves;
  holds = v.holds;
  queued = v.queued;
  listed = v.listed;
  pools = v.pools;
  apart = v.apart;
  grouped = v.grouped;
  named = v.named;
}

pub All-of_Has {κ} : {P : ℕ → Type κ} (xs : List ℕ) → ((x : ℕ) → Has x xs → P x) → All P xs
All-of_Has [] h = tt
All-of_Has (x ∷ xs) h = (h x (inl refl), All-of_Has xs (λ y m. h y (inr m)))

-- An idle node stands in no queue.
pub idle-Lacks :
    {w : World} {queue : ℕ → List ℕ}
    → Waits w queue
    → (v a : ℕ) → w.nodes.active a ≡ false
    → Lacks a (queue v)
idle-Lacks {w} {queue} v u a idle =
    Lacks-iff_not_Has a (queue u) (λ h. clash _ (v.queued u a h).0 idle)
  where
    clash : (b : Bool) → b ≡ true → b ≡ false → ⊥
    clash b e f = cc

-- Two queues have no node in common.
pub queues-Apart :
    {w : World} {queue : ℕ → List ℕ} → Waits w queue → (u v : ℕ) → u ≢ v → Apart (queue u) (queue v)
queues-Apart {w} {queue} waits u v ne = All-of_Has (queue u) (λ x h.
    Lacks-iff_not_Has x (queue v) (λ k. ne (clash _ (waits.queued u x h).1 (waits.queued v x k).1)))
  where
    clash : (p : Ptr) → p ≡ some u → p ≡ some v → u ≡ v
    clash p e f = cc

-- Writes that leave the links of a list's nodes leave the list.
pub Holds-frame :
    {l l' : Links} {e : Ends} (xs : List ℕ) → All (SameLinks l l') xs → Holds l e xs → Holds l' e xs
Holds-frame {l} {l'} xs same h = record {
  starts = h.starts;
  ends = h.ends;
  chain = Chain-frame l l' none xs none same h.chain;
  distinct = h.distinct;
}

-- Clearing the links of a node that a list does not hold.
pub Holds-cleared :
    {l : Links} {e : Ends} (xs : List ℕ) (a : ℕ)
    → Lacks a xs
    → Holds l e xs
    → Holds (set_prev (set_next l a none) a none) e xs
Holds-cleared {l} xs a out h = record {
  starts = h.starts;
  ends = h.ends;
  chain =
      Chain-set_prev (set_next l a none) none xs none a none out
        (Chain-set_next l none xs none a none out h.chain);
  distinct = h.distinct;
}

-- A change of which nodes are active that spares a pool's leaves the pool valid.
pub pool-frame :
    {p : Pool} {ns ns' : WaitNodes}
    → PoolLaws.IsValid p ns
    → ((i : ℕ) → i < max_wait_nodes → ns'.active (p.nodes + i) ≡ ns.active (p.nodes + i))
    → ((i : ℕ) → i < max_wait_nodes → ns'.slot (p.nodes + i) ≡ ns.slot (p.nodes + i))
    → PoolLaws.IsValid p ns'
pool-frame v act slot = record {
  bound = v.bound;
  bits = λ i lt. v.bits i lt ∙ ap not (sym (act i lt));
  slots = λ i lt. slot i lt ∙ v.slots i lt;
}
