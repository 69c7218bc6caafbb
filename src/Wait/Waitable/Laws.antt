-- ===== src/Wait/Waitable/Laws.antt =====
-- What the wait queue promises of its nodes' order: they join at the back and leave from anywhere.
use co_rtos.Base.{
  ℕ, Ptr, none, some, true, false, not, ◌||◌, List, [], ◌∷◌, ◌++◌, All, All-append, Lacks, is_some,
  ptr_eq, update, ◌≡◌, refl, sym, subst, ◌⊎◌, arith,
}
use co_rtos.Base.Members.{All-split, Around, Distinct-Around}
use co_rtos.Intrusive.{Links, Ends, link_back, unlink, is_enqueued}
use co_rtos.Intrusive.Chain.{Holds}
use co_rtos.Intrusive.Ops.{unlink-Holds}
use co_rtos.Intrusive.Appending.{link_back-Holds}
use co_rtos.Wait.Nodes.{WaitNodes}
use co_rtos.Wait.Waitable.{Waitable, add, remove}

-- The queue holds the nodes `xs`, in order, and each names it.
pub record Queues (w : Waitable) (ns : WaitNodes) (xs : List ℕ) : Type 0 where
  pub holds : Holds ns.links w.ends xs
  pub named : All (λ a. ns.waitable a ≡ some w.self) xs

still_named :
    (f : ℕ → Ptr) (a s : ℕ) (v : Ptr) (xs : List ℕ)
    → Lacks a xs
    → All (λ x. f x ≡ some s) xs
    → All (λ x. update f a v x ≡ some s) xs
still_named f a s v [] out h = tt
still_named f a s v (x ∷ xs) out h = (ground arith, still_named f a s v xs out.1 h.1)

-- Adding a node that the queue does not hold, whose links are null and which names the queue or
-- none, does not fault, puts it behind the others, and makes it name the queue.
add-Queues :
    (w : Waitable) (ns : WaitNodes) (xs : List ℕ) (a : ℕ)
    → Queues w ns xs
    → Lacks a xs
    → is_enqueued ns.links a ≡ false
    → (ns.waitable a ≡ none) ⊎ (ns.waitable a ≡ some w.self)
    → (w' : Waitable) × (ns' : WaitNodes) × (add w ns a ≡ some (w', ns'))
      × Queues w' ns' (xs ++ a ∷ [])
unfolding add
add-Queues w ns xs a q out alone own = (
  w',
  ns',
  rw (mine, alone) refl,
  record {
    holds = link_back-Holds a xs q.holds out;
    named =
        All-append _ xs (a ∷ []) (still_named ns.waitable a w.self _ xs out q.named)
          (ground arith, tt);
  },
)
  where
    r : Links × Ends
    r = link_back ns.links w.ends a

    w' : Waitable
    w' = record w { ends = r.1 }

    ns' : WaitNodes
    ns' = record ns { links = r.0; waitable = update ns.waitable a (some w.self) }

    mine : (ptr_eq (ns.waitable a) (some w.self) || not (is_some (ns.waitable a))) ≡ true
    mine = ground arith

removed : Waitable → WaitNodes → ℕ → Waitable × WaitNodes
removed w ns a =
    let r = unlink ns.links w.ends a in
    (record w { ends = r.1 }, record ns { links = r.0; waitable = update ns.waitable a none })

remove-own :
    (w : Waitable) (ns : WaitNodes) (a : ℕ)
    → ns.waitable a ≡ some w.self
    → remove w ns a ≡ removed w ns a
unfolding remove removed
remove-own w ns a own =
    let mine : ptr_eq (ns.waitable a) (some w.self) ≡ true = ground arith in simp mine refl

remove-unnamed :
    (w : Waitable) (ns : WaitNodes) (a : ℕ) → ns.waitable a ≡ none → remove w ns a ≡ (w, ns)
unfolding remove
remove-unnamed w ns a no_queue =
    let other : ptr_eq (ns.waitable a) (some w.self) ≡ false = rw no_queue refl in simp other refl

-- Removing a node of the queue takes it out of the list, keeps the order of the others, and
-- clears its links; a second removal then changes nothing.
remove-Queues :
    (w : Waitable) (ns : WaitNodes) (us : List ℕ) (a : ℕ) (vs : List ℕ)
    → Queues w ns (us ++ a ∷ vs)
    → let r = remove w ns a in
      Queues r.0 r.1 (us ++ vs) × (is_enqueued r.1.links a ≡ false) × (remove r.0 r.1 a ≡ r)
remove-Queues w ns us a vs q =
    subst
      (λ r. Queues r.0 r.1 (us ++ vs) × (is_enqueued r.1.links a ≡ false) × (remove r.0 r.1 a ≡ r))
      (sym (remove-own w ns a own))
      (unfold removed in
        (
          record {
            holds = gone.0;
            named =
                All-append _ us vs
                  (still_named ns.waitable a w.self none us around.not_before parts.0)
                  (still_named ns.waitable a w.self none vs around.not_after parts.1.1);
          },
          gone.1,
          again,
        ))
  where
    parts :
        All (λ x. ns.waitable x ≡ some w.self) us × All (λ x. ns.waitable x ≡ some w.self) (a ∷ vs)
    parts = All-split _ us (a ∷ vs) q.named

    own : ns.waitable a ≡ some w.self
    own = parts.1.0

    around : Around us a vs
    around = Distinct-Around us a vs q.holds.distinct

    gone :
        Holds (unlink ns.links w.ends a).0 (unlink ns.links w.ends a).1 (us ++ vs)
        × (is_enqueued (unlink ns.links w.ends a).0 a ≡ false)
    gone = unlink-Holds us a vs q.holds

    again : remove (removed w ns a).0 (removed w ns a).1 a ≡ removed w ns a
    again = remove-unnamed _ _ a (unfold removed in ground arith)
