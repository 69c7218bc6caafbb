-- ===== src/Intrusive.antt =====
-- Intrusive doubly linked lists: the `next` and `prev` members of every node of a store, and the
-- `head` and `tail` of one list. `ThreadReadyQueue` of src/kernel/threading_subsystem.cpp and the
-- wait queue of src/kernel/waitable.cpp link and unlink their nodes in the same way.
pub mod Chain
pub mod Appending
pub mod Ops
use co_rtos.Base.{ℕ, Ptr, none, some, update, Bool, is_some, ◌||◌}

-- The two link members of each node, by the node's address.
pub record Links : Type 0 where
  pub next : ℕ → Ptr
  pub prev : ℕ → Ptr

-- The two ends of a list, both null when it is empty.
pub record Ends : Type 0 where
  pub head : Ptr
  pub tail : Ptr

abbrev pub no_ends : Ends
no_ends = record { head = none; tail = none }

abbrev pub no_links : Links
no_links = record { next = λ _. none; prev = λ _. none }

abbrev pub set_next : Links → ℕ → Ptr → Links
set_next l a v = record l { next = update l.next a v }

abbrev pub set_prev : Links → ℕ → Ptr → Links
set_prev l a v = record l { prev = update l.prev a v }

-- `is_enqueued` of a thread and of a wait node.
abbrev pub is_enqueued : Links → ℕ → Bool
is_enqueued l t = is_some (l.next t) || is_some (l.prev t)

-- Appends `t` behind the tail.
abbrev pub link_back_at : Ptr → Links → Ends → ℕ → Links × Ends
link_back_at none l e t = (l, record { head = some t; tail = some t })
link_back_at (some z) l e t = (set_next l z (some t), record { head = e.head; tail = some t })

unfoldable pub link_back : Links → Ends → ℕ → Links × Ends
link_back l e t = link_back_at e.tail (set_prev (set_next l t none) t e.tail) e t

-- Takes the head off: its successor becomes the head.
abbrev pub unlink_front_at : Ptr → Links → Ends → Links × Ends
unlink_front_at none l e = (l, record { head = none; tail = none })
unlink_front_at (some y) l e = (set_prev l y none, record { head = some y; tail = e.tail })

unfoldable pub unlink_front : Links → Ends → ℕ → Links × Ends
unlink_front l e t =
    let (l', e') = unlink_front_at (l.next t) l e in (set_next (set_prev l' t none) t none, e')

-- `if (n.prev) n.prev->next = n.next; else head = n.next;`
abbrev pub unlink_before : Ptr → Links → Ends → ℕ → Links × Ends
unlink_before none l e t = (l, record { head = l.next t; tail = e.tail })
unlink_before (some z) l e t = (set_next l z (l.next t), e)

-- `if (n.next) n.next->prev = n.prev; else tail = n.prev;`
abbrev pub unlink_after : Ptr → Links → Ends → ℕ → Links × Ends
unlink_after none l e t = (l, record { head = e.head; tail = l.prev t })
unlink_after (some y) l e t = (set_prev l y (l.prev t), e)

unfoldable pub unlink : Links → Ends → ℕ → Links × Ends
unlink l e t =
    let (l₁, e₁) = unlink_before (l.prev t) l e t in
    let (l₂, e₂) = unlink_after (l₁.next t) l₁ e₁ t in (set_next (set_prev l₂ t none) t none, e₂)
