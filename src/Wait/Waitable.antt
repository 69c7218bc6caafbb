-- ===== src/Wait/Waitable.antt =====
-- The wait queue of a `Waitable`, src/kernel/waitable.cpp. The spin lock around a pick has no
-- counterpart: each operation is one step.
pub mod Laws
pub mod Pick
use co_rtos.Base.{
  ℕ, zero, suc, Ptr, Option, none, some, Bool, true, false, not, ltb, ◌==◌, ◌&&◌, ◌||◌,
  if◌then◌else◌, assert, ◌>>=◌, ◌>>◌, is_some, ptr_eq, update,
}
use co_rtos.Intrusive.{Links, Ends, link_back, unlink, is_enqueued}
use co_rtos.Threads.{Threads, is_higher_priority_than}
use co_rtos.Wait.Nodes.{WaitNodes}

-- A wait queue with its own address.
pub record Waitable : Type 0 where
  pub self : ℕ
  pub ends : Ends

unfoldable pub empty : Waitable → Bool
empty w = not (is_some w.ends.head) && not (is_some w.ends.tail)

unfoldable pub add : Waitable → WaitNodes → ℕ → Option (Waitable × WaitNodes)
add w ns a = do
  assert (ptr_eq (ns.waitable a) (some w.self) || not (is_some (ns.waitable a)))
  assert (not (is_enqueued ns.links a))
  let r = link_back ns.links w.ends a
  some (
    record w { ends = r.1 },
    record ns { links = r.0; waitable = update ns.waitable a (some w.self) },
  )

unfoldable pub remove : Waitable → WaitNodes → ℕ → Waitable × WaitNodes
remove w ns a =
    if not (ptr_eq (ns.waitable a) (some w.self))
    then (w, ns)
    else let r = unlink ns.links w.ends a in
      (record w { ends = r.1 }, record ns { links = r.0; waitable = update ns.waitable a none })

-- Whether a node's group is done; a node without a group is not skipped.
unfoldable pub is_done : (ℕ → Bool) → Ptr → Bool
is_done done none = false
is_done done (some g) = done g

-- `!best || tcb->is_higher_priority_than(best_priority)`
unfoldable pub beats : Threads → ℕ → Ptr → ℕ → Bool
beats th t none priority = true
beats th t (some best) priority = is_higher_priority_than th t priority

-- The loop of `pick_best`, from node `at` on; each step follows one `next`, and `fuel` bounds them.
-- An exhausted fuel is a fault like an assertion's.
unfoldable pub pick_from :
    Waitable → WaitNodes → Threads → (ℕ → Bool) → ℕ → Ptr → Ptr → ℕ → Option Ptr
pick_from w ns th done zero at best priority = none
pick_from w ns th done (suc fuel) none best priority = some best
pick_from w ns th done (suc fuel) (some a) best priority = do
  assert (ns.active a)
  assert (ptr_eq (ns.waitable a) (some w.self))
  let takes = not (is_done done (ns.group a)) && beats th (ns.tcb a) best priority
  let best' = if takes then some a else best
  let priority' = if takes then th.effective_priority (ns.tcb a) else priority
  pick_from w ns th done fuel (ns.links.next a) best' priority'

unfoldable pub pick_best : Waitable → WaitNodes → Threads → (ℕ → Bool) → ℕ → Option Ptr
pick_best w ns th done fuel = pick_from w ns th done fuel w.ends.head none 255
