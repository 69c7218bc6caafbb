-- ===== src/Wait/Nodes.antt =====
-- The wait nodes of src/kernel/wait_subsystem.hpp, as a store: each member of `WaitNode` is a
-- function of the node's address.
use co_rtos.Base.{ℕ, Ptr, none, Bool, false, update}
use co_rtos.Intrusive.{Links, set_next, set_prev}

-- `WaitNode::INVALID_INDEX`
abbrev pub invalid_index : ℕ
invalid_index = 255

pub record WaitNodes : Type 0 where
  pub slot : ℕ → ℕ
  pub active : ℕ → Bool
  pub links : Links
  pub tcb : ℕ → ℕ
  pub waitable : ℕ → Ptr
  pub group : ℕ → Ptr
  pub index : ℕ → ℕ

-- `WaitNode::reset`
unfoldable pub reset : WaitNodes → ℕ → WaitNodes
reset ns a = record ns {
  active = update ns.active a false;
  links = set_prev (set_next ns.links a none) a none;
  waitable = update ns.waitable a none;
  group = update ns.group a none;
  index = update ns.index a invalid_index;
}
