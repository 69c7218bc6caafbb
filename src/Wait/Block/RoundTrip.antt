-- ===== src/Wait/Block/RoundTrip.antt =====
-- Blocking and then leaving gives every queue back.
use mathlib.Core.Path.{fun_ext}
use co_rtos.Base.{
  ℕ, zero, suc, ◌+◌, ◌≤◌, ◌<◌, ◌==◌, some, true, false, ltb, List, [], ◌∷◌, ◌++◌, length, get_elem?,
  Lacks, Distinct, update, ◌≡◌, ◌≢◌, refl, sym, ◌∙◌, ap, subst, inl, inr, Bool-cases, arith,
}
use co_rtos.Config.{max_wait_nodes}
use co_rtos.Threads.{is_running}
use co_rtos.Wait.Block.{World, involved, prepare_block, teardown_wait_group}
use co_rtos.Wait.Block.Invariant.{node, Waits, idle-Lacks}
use co_rtos.Wait.Block.Prepare.{join, Enrolled, prepare_block-Prepared}
use co_rtos.Wait.Block.Release.{without, without-Lacks}
use co_rtos.Wait.Block.Teardown.{teardown_wait_group-Left}
use co_rtos.Wait.Block.Torn.{purge, visited-busy, visited-idle}

without-snoc : (a b : ℕ) (xs : List ℕ) → b ≢ a → without a (xs ++ b ∷ []) ≡ without a xs ++ b ∷ []
unfolding without
without-snoc a b [] ne = ground arith
without-snoc a b (x ∷ xs) ne = ground (arith, without-snoc a b xs ne)

without-snoc_self : (a : ℕ) (xs : List ℕ) → Lacks a xs → without a (xs ++ a ∷ []) ≡ xs
unfolding without
without-snoc_self a [] out = ground arith
without-snoc_self a (x ∷ xs) out = ground (arith, without-snoc_self a xs out.1)

-- Taking out a node that does not join commutes with the others joining.
without-join :
    (a base k : ℕ) (vs : List ℕ) (q : ℕ → List ℕ)
    → a < base + k
    → (λ u. without a (join base k vs q u)) ≡ join base k vs (λ u. without a (q u))
unfolding join
without-join a base k [] q lt = refl
without-join a base k (v ∷ vs) q lt =
    without-join a base (k + 1) vs (update q v (q v ++ (base + k) ∷ [])) (omega arith)
    ∙ ap (join base (k + 1) vs) (fun_ext here)
  where
    here :
        (u : ℕ)
        → without a (update q v (q v ++ (base + k) ∷ []) u)
          ≡ update (λ x. without a (q x)) v (without a (q v) ++ (base + k) ∷ []) u
    here u = elim (Bool-cases (u == v)) [
      | inl this ↦ rw this (without-snoc a (base + k) (q v) (λ e. absurd (omega arith)))
      | inr other ↦ rw other refl
    ]

purge-Lacks :
    (base k n : ℕ) (q : ℕ → List ℕ)
    → ((u j : ℕ) → k ≤ j → j < k + n → Lacks (base + j) (q u))
    → purge base k n q ≡ q
unfolding purge
purge-Lacks base k zero q out = refl
purge-Lacks base k (suc n) q out =
    ap (purge base (k + 1) n)
      (fun_ext (λ u. without-Lacks (base + k) (q u) (out u k (omega arith) (omega arith))))
    ∙ purge-Lacks base (k + 1) n q (λ u j le lt. out u j (omega arith) (omega arith))

-- Removing the nodes that have joined leaves the queues as they were.
purge-join :
    (base k n : ℕ) (vs : List ℕ) (q : ℕ → List ℕ)
    → length vs ≤ n
    → ((u j : ℕ) → k ≤ j → j < k + n → Lacks (base + j) (q u))
    → purge base k n (join base k vs q) ≡ q
unfolding purge join
purge-join base k n [] q fits out = purge-Lacks base k n q out
purge-join base k zero (v ∷ vs) q fits out = absurd (omega arith)
purge-join base k (suc n) (v ∷ vs) q fits out =
    ap (purge base (k + 1) n) (
      without-join (base + k) base (k + 1) vs (update q v (q v ++ (base + k) ∷ [])) (omega arith)
      ∙ ap (join base (k + 1) vs) (fun_ext here))
    ∙ purge-join base (k + 1) n vs q (omega arith)
        (λ u j le lt. out u j (omega arith) (omega arith))
  where
    here : (u : ℕ) → without (base + k) (update q v (q v ++ (base + k) ∷ []) u) ≡ q u
    here u = elim (Bool-cases (u == v)) [
      | inl this ↦
          let e : v ≡ u = ground arith in
          rw this
            (without-snoc_self (base + k) (q v) (out v k (omega arith) (omega arith)) ∙ ap q e)
      | inr other ↦ rw other (without-Lacks (base + k) (q u) (out u k (omega arith) (omega arith)))
    ]

-- The nodes from `base + k` on that stand for `vs`.
Stand : World → ℕ → ℕ → ℕ → ℕ → List ℕ → Type 0
Stand w t base k n vs =
    ((j v : ℕ) → get_elem? vs j ≡ some v → Enrolled w (base + (k + j)) t v (k + j))
    × ((j : ℕ) → j < n → w.nodes.active (base + (k + j)) ≡ ltb j (length vs))

ltb-suc : (j n : ℕ) → ltb (suc j) (suc n) ≡ ltb j n
ltb-suc j n = ground arith

first-below : (n : ℕ) → ltb 0 (suc n) ≡ true
first-below n = ground arith

not-below : (i j : ℕ) → ltb i 0 ≡ ltb j 0
not-below i j = ground arith

involved-Stand :
    (w : World) (t base k n : ℕ) (vs : List ℕ)
    → length vs ≤ n
    → Stand w t base k n vs
    → involved w t n (base + k) ≡ vs
unfolding involved Stand
involved-Stand w t base k zero [] fits h = refl
involved-Stand w t base k zero (v ∷ vs) fits h = absurd (omega arith)
involved-Stand w t base k (suc n) [] fits (named, act) =
    let idle : w.nodes.active (base + k) ≡ false =
      subst (λ x. w.nodes.active (base + x) ≡ false) (omega arith) (act 0 (omega arith)) in
    rw (visited-idle w t (base + k) idle) (
      subst (λ b. involved w t n b ≡ []) (omega arith)
        (involved-Stand w t base (k + 1) n [] (omega arith) (
          (λ j v e. cc),
          λ j lt.
              subst (λ x. w.nodes.active (base + x) ≡ ltb j 0) (omega arith)
                (act (suc j) (omega arith) ∙ not-below (suc j) j),
        )))
involved-Stand w t base k (suc n) (v ∷ vs) fits (named, act) =
    let busy : w.nodes.active (base + k) ≡ true =
      subst (λ x. w.nodes.active (base + x) ≡ true) (omega arith)
        (act 0 (omega arith) ∙ first-below (length vs)) in
    let here : Enrolled w (base + k) t v k =
      subst (λ x. Enrolled w (base + x) t v x) (omega arith) (named 0 v refl) in
    let rest : involved w t n (base + k + 1) ≡ vs =
      subst (λ b. involved w t n b ≡ vs) (omega arith)
        (involved-Stand w t base (k + 1) n vs (omega arith) (
          (λ j u e. subst (λ x. Enrolled w (base + x) t u x) (omega arith) (named (suc j) u e)),
          λ j lt.
              subst (λ x. w.nodes.active (base + x) ≡ ltb j (length vs)) (omega arith)
                (act (suc j) (omega arith) ∙ ltb-suc j (length vs)),
        )) in
    rw (visited-busy w t (base + k) busy here.group, here.waitable, rest) refl

-- Blocking and then leaving the group, as a wake-up does, gives the queues back as they were: a
-- thread that runs, has no active node, and blocks on one to eight distinct waitables can leave,
-- no assertion fails, and every queue then holds what it held before, well-formed.
pub teardown-prepare :
    (w : World) (queue : ℕ → List ℕ) (t : ℕ) (vs : List ℕ)
    → Waits w queue
    → is_running (w.threads.state t) ≡ true
    → 0 < length vs
    → length vs ≤ max_wait_nodes
    → Distinct vs
    → ((j : ℕ) → j < max_wait_nodes → w.nodes.active (node w t j) ≡ false)
    → (w' w'' : World) × (prepare_block t vs w ≡ some w')
      × (teardown_wait_group t t w' ≡ some w'')
      × Waits w'' queue
teardown-prepare w queue t vs waits runs pos fits distinct idle =
    let (w', prepared, p) = prepare_block-Prepared w queue t vs waits runs pos fits idle in
    let base = (w.pools t).nodes in
    let stand : involved w' t max_wait_nodes base ≡ vs =
      subst (λ b. involved w' t max_wait_nodes b ≡ vs) (omega arith)
        (involved-Stand w' t base 0 max_wait_nodes vs fits (
          unfold Stand in
          (
            (λ j v e. subst (λ x. Enrolled w' (base + x) t v x) (omega arith) (p.nodes_of j v e)),
            λ j lt.
                subst (λ x. w'.nodes.active (base + x) ≡ ltb j (length vs)) (omega arith)
                  (p.used j lt),
          ))) in
    let stand' : involved w' t max_wait_nodes (w'.pools t).nodes ≡ vs =
      subst (λ b. involved w' t max_wait_nodes b ≡ vs) (sym p.nodes_at) stand in
    let (w'', left, l) =
      teardown_wait_group-Left w' (join base 0 vs queue) t p.waits
        (subst Distinct (sym stand') distinct)
        (subst (λ us. length us ≤ max_wait_nodes) (sym stand') fits) in
    (
      w',
      w'',
      prepared,
      left,
      subst (Waits w'')
          (ap (λ b. purge b 0 max_wait_nodes (join base 0 vs queue)) p.nodes_at
            ∙ purge-join base 0 max_wait_nodes vs queue fits
                (λ u j lo lt. idle-Lacks waits u (base + j) (idle j (omega arith))))
          l.waits,
    )
