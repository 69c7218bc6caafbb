-- ===== src/Wait/Block/Release.antt =====
-- One round of `teardown_wait_group`: a node of the thread leaves its queue and goes back to the pool.
use co_rtos.Base.Members.{Has-split, Distinct-Around, Lacks-iff_not_Has}
use co_rtos.Base.{
  ℕ, ◌<◌, ◌==◌, Ptr, none, some, true, false, List, [], ◌∷◌, ◌++◌, Has, Lacks, All, update,
  if◌then◌else◌, ◌≡◌, ◌≢◌, ◌⊎◌, inl, inr, refl, sym, ◌∙◌, ap, subst, arith, Bool-cases,
}
use co_rtos.Config.{max_wait_nodes}
use co_rtos.Intrusive.{Links, unlink}
use co_rtos.Intrusive.Chain.{Holds}
use co_rtos.Intrusive.Ops.{unlink-Holds, unlink-frame}
use co_rtos.Wait.Block.{World}
use co_rtos.Wait.Block.Invariant.{node, Waits, queues-Apart, Holds-frame, Holds-cleared, pool-frame}
use co_rtos.Wait.Nodes.{WaitNodes, reset}
use co_rtos.Wait.Pool.{Pool}
use co_rtos.Wait.Pool.Laws as PoolLaws

-- A list without a node.
unfoldable pub without : ℕ → List ℕ → List ℕ
without a [] = []
without a (x ∷ xs) = if x == a then without a xs else x ∷ without a xs

pub without-Lacks : (a : ℕ) (xs : List ℕ) → Lacks a xs → without a xs ≡ xs
unfolding without
without-Lacks a [] out = refl
without-Lacks a (x ∷ xs) out = ground (arith, without-Lacks a xs)

without-split :
    (a : ℕ) (us vs : List ℕ) → Lacks a us → Lacks a vs → without a (us ++ a ∷ vs) ≡ us ++ vs
unfolding without
without-split a [] vs out out' = ground (arith, without-Lacks a vs)
without-split a (u ∷ us) vs out out' = ground (arith, without-split a us vs)

without-Has : (a b : ℕ) (xs : List ℕ) → Has b (without a xs) → Has b xs × (b ≢ a)
unfolding without
without-Has a b [] h = elim h [ ]
without-Has a b (x ∷ xs) h = elim (Bool-cases (x == a)) [
  | inl gone ↦ let (m, ne) = without-Has a b xs (rw gone at h) in (inr m, ne)
  | inr stays ↦ elim (here x (without a xs) (rw stays at h)) [
    | inl e ↦ (inl e, ground arith)
    | inr m ↦ let (k, ne) = without-Has a b xs m in (inr k, ne)
  ]
]
  where
    here : (y : ℕ) (ys : List ℕ) → Has b (y ∷ ys) → (b ≡ y) ⊎ Has b ys
    here y ys k = k

Has-without : (a b : ℕ) (xs : List ℕ) → Has b xs → b ≢ a → Has b (without a xs)
unfolding without
Has-without a b [] h ne = elim h [ ]
Has-without a b (x ∷ xs) (inl e) ne =
    let stays : (x == a) ≡ false = ground arith in rw stays (inl e)
Has-without a b (x ∷ xs) (inr h) ne = elim (Bool-cases (x == a)) [
  | inl gone ↦ rw gone (Has-without a b xs h ne)
  | inr stays ↦ rw stays (inr (Has-without a b xs h ne))
]

-- The nodes once node `a` has left the queue of `v` and been reset.
abbrev pub left_links : World → ℕ → ℕ → Links
left_links w v a = (unlink w.nodes.links (w.waitables v).ends a).0

abbrev pub left_nodes : World → ℕ → ℕ → WaitNodes
left_nodes w v a = record w.nodes {
  links = left_links w v a;
  waitable = update w.nodes.waitable a none;
}

-- The world then, with the pool `p` of the thread.
abbrev pub released : World → ℕ → ℕ → ℕ → Pool → World
released w t v a p = record w {
  pools = update w.pools t p;
  nodes = reset (left_nodes w v a) a;
  waitables =
      update w.waitables v
        (record (w.waitables v) { ends = (unlink w.nodes.links (w.waitables v).ends a).1 });
}

module _ {w : World} {queue : ℕ → List ℕ} (waits : Waits w queue) (t v i : ℕ) (p : Pool)
    (inside : i < max_wait_nodes) (busy : w.nodes.active (node w t i) ≡ true)
    (at : w.nodes.waitable (node w t i) ≡ some v) (same : p.nodes ≡ (w.pools t).nodes)
    (valid : PoolLaws.IsValid p (reset (left_nodes w v (node w t i)) (node w t i))) where
  open waits use {selves, holds, queued, listed, pools, apart, grouped, named}

  abbrev a : ℕ
  a = node w t i

  abbrev w' : World
  w' = released w t v a p

  unlinked :
      Holds (left_links w v a) (unlink w.nodes.links (w.waitables v).ends a).1 (without a (queue v))
  unlinked =
      let (us, vs, e) = Has-split a (queue v) (listed v a busy at) in
      let h = subst (λ xs. Holds w.nodes.links (w.waitables v).ends xs) e (holds v) in
      let around = Distinct-Around us a vs h.distinct in
      subst (λ xs. Holds (left_links w v a) (unlink w.nodes.links (w.waitables v).ends a).1 xs)
        (sym (ap (without a) e ∙ without-split a us vs around.not_before around.not_after))
        (unlink-Holds us a vs h).0

  not_in_other : (u : ℕ) → u ≢ v → Lacks a (queue u)
  not_in_other u ne = Lacks-iff_not_Has a (queue u) (λ h. ne (clash _ (queued u a h).1 at))
    where
      clash : (q : Ptr) → q ≡ some u → q ≡ some v → u ≡ v
      clash q e f = cc

  undisturbed :
      (u : ℕ) → u ≢ v → Holds (left_links w v a) (w.waitables u).ends (without a (queue u))
  undisturbed u ne =
      let (us, vs, e) = Has-split a (queue v) (listed v a busy at) in
      let h = subst (λ xs. Holds w.nodes.links (w.waitables v).ends xs) e (holds v) in
      subst (λ xs. Holds (left_links w v a) (w.waitables u).ends xs)
        (sym (without-Lacks a (queue u) (not_in_other u ne)))
        (Holds-frame (queue u)
          (unlink-frame us a vs (queue u) h
            (subst (λ xs. All (λ x. Lacks x xs) (queue u)) e (queues-Apart waits u v ne)))
          (holds u))

  gone : (u : ℕ) → Lacks a (without a (queue u))
  gone u = Lacks-iff_not_Has a (without a (queue u)) (λ h. (without-Has a a (queue u) h).1 refl)

  released-holds : (u : ℕ) → Holds w'.nodes.links (w'.waitables u).ends (without a (queue u))
  unfolding reset
  released-holds u = elim (Bool-cases (u == v)) [
    | inl this ↦
        let e : u ≡ v = ground arith in
        rw this (
          subst
            (λ x.
              Holds w'.nodes.links (unlink w.nodes.links (w.waitables v).ends a).1
                (without a (queue x)))
            (sym e) (Holds-cleared (without a (queue v)) a (gone v) unlinked))
    | inr other ↦
        let ne : u ≢ v = ground arith in
        rw other (Holds-cleared (without a (queue u)) a (gone u) (undisturbed u ne))
  ]

  released-queued :
      (u b : ℕ)
      → Has b (without a (queue u))
      → (w'.nodes.active b ≡ true) × (w'.nodes.waitable b ≡ some u)
  unfolding reset
  released-queued u b h =
      let (before, ne) = without-Has a b (queue u) h in ground (arith, queued u b before)

  released-listed :
      (u b : ℕ)
      → w'.nodes.active b ≡ true
      → w'.nodes.waitable b ≡ some u
      → Has b (without a (queue u))
  unfolding reset
  released-listed u b act to =
      Has-without a b (queue u) (listed u b (ground arith) (ground arith)) (ground arith)

  released-pools : (u : ℕ) → PoolLaws.IsValid (w'.pools u) w'.nodes
  unfolding reset
  released-pools u = elim (Bool-cases (u == t)) [
    | inl this ↦ rw this valid
    | inr other ↦
        rw other (pool-frame (pools u) (λ j lj. ground (arith, apart t u i j)) (λ j lj. refl))
  ]

  released-grouped :
      (u j : ℕ)
      → j < max_wait_nodes
      → w'.nodes.active (node w' u j) ≡ true
      → w'.nodes.group (node w' u j) ≡ some u
  unfolding reset
  released-grouped u j lj act = ground (arith, grouped u j)

  released-named :
      (u j : ℕ)
      → j < max_wait_nodes
      → w'.nodes.active (node w' u j) ≡ true
      → (x : ℕ) × (w'.nodes.waitable (node w' u j) ≡ some x)
  unfolding reset
  released-named u j lj act =
      let e : node w' u j ≡ node w u j = ground arith in
      let (x, to) = named u j lj (ground arith) in (x, ground arith)

  -- Every queue is without the node, and else as before.
  pub released-Waits : Waits w' (λ u. without a (queue u))
  unfolding reset
  released-Waits = record {
    selves = λ u. ground (arith, selves u);
    holds = released-holds;
    queued = released-queued;
    listed = released-listed;
    pools = released-pools;
    apart = λ s u j k lj lk e. ground (arith, apart s u j k);
    grouped = released-grouped;
    named = released-named;
  }
