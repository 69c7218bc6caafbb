-- ===== src/Wait/Block/Enqueue.antt =====
-- One round of `prepare_block`: a node of the thread joins the queue of a waitable.
use co_rtos.Base.Members.{Has-append_left, Has-append_right}
use co_rtos.Base.{
  ℕ, ◌<◌, ◌==◌, some, true, false, List, [], ◌∷◌, ◌++◌, Has, update, ◌≡◌, ◌≢◌, ◌⊎◌, inl, inr, refl,
  subst, arith, Bool-cases,
}
use co_rtos.Config.{max_wait_nodes}
use co_rtos.Intrusive.{Ends, link_back}
use co_rtos.Intrusive.Chain.{Holds}
use co_rtos.Intrusive.Appending.{link_back-Holds, link_back-frame}
use co_rtos.Wait.Block.{World}
use co_rtos.Wait.Block.Invariant.{
  node, Waits, idle-Lacks, queues-Apart, Holds-frame, Holds-cleared, pool-frame,
}
use co_rtos.Wait.Nodes.{WaitNodes, reset}
use co_rtos.Wait.Pool.{Pool, taken}
use co_rtos.Wait.Pool.Laws as PoolLaws

-- The nodes once node `a` is active, for waitable `v` of the thread `t`, and behind the queue's others.
abbrev pub joined : World → ℕ → ℕ → ℕ → ℕ → WaitNodes × Ends
joined w t v index a =
    let ns = taken w.nodes a t v index in
    let r = link_back ns.links (w.waitables v).ends a in
    (record ns { links = r.0; waitable = update ns.waitable a (some (w.waitables v).self) }, r.1)

-- The world then, with the pool `p` of the thread.
abbrev pub enrolled : World → ℕ → ℕ → ℕ → ℕ → Pool → World
enrolled w t v index a p =
    let r = joined w t v index a in
    record w {
      pools = update w.pools t p;
      nodes = r.0;
      waitables = update w.waitables v (record (w.waitables v) { ends = r.1 });
    }

snoc-cases : (xs : List ℕ) (x a : ℕ) → Has x (xs ++ a ∷ []) → Has x xs ⊎ (x ≡ a)
snoc-cases [] x a (inl e) = inr e
snoc-cases [] x a (inr h) = elim h [ ]
snoc-cases (y ∷ xs) x a (inl e) = inl (inl e)
snoc-cases (y ∷ xs) x a (inr h) = elim (snoc-cases xs x a h) [ inl m ↦ inl (inr m) | inr e ↦ inr e ]

module _ {w : World} {queue : ℕ → List ℕ} (waits : Waits w queue) (t v index i : ℕ) (p : Pool)
    (inside : i < max_wait_nodes) (idle : w.nodes.active (node w t i) ≡ false)
    (same : p.nodes ≡ (w.pools t).nodes)
    (valid : PoolLaws.IsValid p (taken w.nodes (node w t i) t v index)) where
  open waits use {selves, holds, queued, listed, pools, apart, grouped, named}

  abbrev a : ℕ
  a = node w t i

  abbrev w' : World
  w' = enrolled w t v index a p

  abbrev queue' : ℕ → List ℕ
  queue' = update queue v (queue v ++ a ∷ [])

  cleared-Holds : (u : ℕ) → Holds (taken w.nodes a t v index).links (w.waitables u).ends (queue u)
  unfolding taken reset
  cleared-Holds u = Holds-cleared (queue u) a (idle-Lacks waits u a idle) (holds u)

  enrolled-holds : (u : ℕ) → Holds w'.nodes.links (w'.waitables u).ends (queue' u)
  enrolled-holds u = elim (Bool-cases (u == v)) [
    | inl this ↦ rw this (link_back-Holds a (queue v) (cleared-Holds v) (idle-Lacks waits v a idle))
    | inr other ↦
        let ne : u ≢ v = ground arith in
        rw other (
          Holds-frame (queue u)
            (link_back-frame a (queue u) (cleared-Holds v) (idle-Lacks waits u a idle)
              (queues-Apart waits u v ne))
            (cleared-Holds u))
  ]

  enrolled-queued :
      (u b : ℕ) → Has b (queue' u) → (w'.nodes.active b ≡ true) × (w'.nodes.waitable b ≡ some u)
  unfolding taken reset
  enrolled-queued u b h = elim (Bool-cases (u == v)) [
    | inl this ↦ elim (snoc-cases (queue v) b a (rw this at h)) [
      | inl before ↦ ground (arith, queued v b before, selves v)
      | inr new ↦ ground (arith, selves v)
    ]
    | inr other ↦ let before : Has b (queue u) = rw other at h in ground (arith, queued u b before)
  ]

  enrolled-listed :
      (u b : ℕ) → w'.nodes.active b ≡ true → w'.nodes.waitable b ≡ some u → Has b (queue' u)
  unfolding taken reset
  enrolled-listed u b act at = elim (Bool-cases (b == a)) [
    | inl new ↦
        let this : (u == v) ≡ true = ground (arith, selves v) in
        rw this (Has-append_right b (queue v) (a ∷ []) (inl (ground arith)))
    | inr old ↦
        let before : Has b (queue u) = listed u b (ground arith) (ground arith) in
        elim (Bool-cases (u == v)) [
          | inl this ↦
              let e : u ≡ v = ground arith in
              rw this (Has-append_left b (queue v) (a ∷ []) (subst (λ x. Has b (queue x)) e before))
          | inr other ↦ rw other before
        ]
  ]

  enrolled-pools : (u : ℕ) → PoolLaws.IsValid (w'.pools u) w'.nodes
  unfolding taken reset
  enrolled-pools u = elim (Bool-cases (u == t)) [
    | inl this ↦ rw this (record { bound = valid.bound; bits = valid.bits; slots = valid.slots })
    | inr other ↦
        rw other (pool-frame (pools u) (λ j lj. ground (arith, apart t u i j)) (λ j lj. refl))
  ]

  enrolled-apart :
      (s u j k : ℕ) → j < max_wait_nodes → k < max_wait_nodes → node w' s j ≡ node w' u k → s ≡ u
  enrolled-apart s u j k lj lk e = ground (arith, apart s u j k)

  enrolled-grouped :
      (u j : ℕ)
      → j < max_wait_nodes
      → w'.nodes.active (node w' u j) ≡ true
      → w'.nodes.group (node w' u j) ≡ some u
  unfolding taken reset
  enrolled-grouped u j lj act = ground (arith, grouped u j, apart t u i j)

  enrolled-named :
      (u j : ℕ)
      → j < max_wait_nodes
      → w'.nodes.active (node w' u j) ≡ true
      → (x : ℕ) × (w'.nodes.waitable (node w' u j) ≡ some x)
  unfolding taken reset
  enrolled-named u j lj act =
      let e : node w' u j ≡ node w u j = ground arith in
      elim (Bool-cases (node w u j == a)) [
        | inl new ↦ (v, ground (arith, selves v))
        | inr old ↦ let (x, to) = named u j lj (ground arith) in (x, ground arith)
      ]

  -- The queue of `v` has the node behind the others, and every other queue is as before.
  pub enrolled-Waits : Waits w' queue'
  enrolled-Waits = record {
    selves = λ u. ground (arith, selves u);
    holds = enrolled-holds;
    queued = enrolled-queued;
    listed = enrolled-listed;
    pools = enrolled-pools;
    apart = enrolled-apart;
    grouped = enrolled-grouped;
    named = enrolled-named;
  }
