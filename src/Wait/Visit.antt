-- ===== src/Wait/Visit.antt =====
-- `for_each_waiter` of src/kernel/waitable.cpp: the snapshots that the visitor gets, in order, and
-- what they are.
use co_rtos.Base.{
  ℕ, zero, suc, ◌<◌, Ptr, Option, none, some, Bool, not, ◌||◌, List, [], ◌∷◌, length, if◌then◌else◌,
  ◌≡◌, refl, ap, ◌∙◌, arith, ◌>>=◌,
}
use co_rtos.Intrusive.Chain.{Chain, first}
use co_rtos.Threads.{Threads, Waiter, create_waiter}
use co_rtos.Wait.Nodes.{WaitNodes}
use co_rtos.Wait.Waitable.{Waitable, is_done}
use co_rtos.Wait.Waitable.Laws.{Queues}

-- The loop, from node `at` on, with fuel for its steps. No node has a null thread.
unfoldable pub visit_from : WaitNodes → Threads → (ℕ → Bool) → ℕ → Ptr → Option (List Waiter)
visit_from ns th done fuel none = some []
visit_from ns th done zero (some a) = none
visit_from ns th done (suc fuel) (some a) = do
  rest ← visit_from ns th done fuel (ns.links.next a)
  some (
      if not (ns.active a) || is_done done (ns.group a)
      then rest
      else create_waiter th (ns.tcb a) ∷ rest)

unfoldable pub for_each_waiter :
    Waitable → WaitNodes → Threads → (ℕ → Bool) → ℕ → Option (List Waiter)
for_each_waiter w ns th done fuel = visit_from ns th done fuel w.ends.head

-- The snapshots of the nodes that are active and whose group is not done.
abbrev pub waiters : WaitNodes → Threads → (ℕ → Bool) → List ℕ → List Waiter
waiters ns th done [] = []
waiters ns th done (a ∷ xs) =
    if not (ns.active a) || is_done done (ns.group a)
    then waiters ns th done xs
    else create_waiter th (ns.tcb a) ∷ waiters ns th done xs

visit_from-eq-waiters :
    (ns : WaitNodes) (th : Threads) (done : ℕ → Bool) (fuel : ℕ) (p : Ptr) (xs : List ℕ)
    → length xs < suc fuel
    → Chain ns.links p xs none
    → visit_from ns th done fuel (first xs none) ≡ some (waiters ns th done xs)
unfolding visit_from
visit_from-eq-waiters ns th done fuel p [] lt c = refl
visit_from-eq-waiters ns th done zero p (a ∷ xs) lt c = absurd (omega arith)
visit_from-eq-waiters ns th done (suc fuel) p (a ∷ xs) lt c =
    let e = visit_from-eq-waiters ns th done fuel (some a) xs (omega arith) c.2 in rw (c.1, e) refl

-- On a queue with at most as many nodes as the fuel, the visitor gets a snapshot of the thread of
-- each node that is active and whose group is not done, in the order of the queue, and the
-- traversal ends.
for_each_waiter-eq-waiters :
    (w : Waitable) (ns : WaitNodes) (th : Threads) (done : ℕ → Bool) (fuel : ℕ) (xs : List ℕ)
    → Queues w ns xs
    → length xs < suc fuel
    → for_each_waiter w ns th done fuel ≡ some (waiters ns th done xs)
unfolding for_each_waiter
for_each_waiter-eq-waiters w ns th done fuel xs q lt =
    ap (visit_from ns th done fuel) q.holds.starts
    ∙ visit_from-eq-waiters ns th done fuel none xs lt q.holds.chain
