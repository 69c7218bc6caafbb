-- ===== src/Wait/Pool.antt =====
-- `WaitNodePool` of src/kernel/wait_subsystem.hpp: the nodes of one thread, at the addresses from
-- `nodes` on, and the mask of the free ones, a word of 32 bits.
pub mod Laws
pub mod Reset
pub mod First
use co_rtos.Base.{
  ℕ, zero, suc, ◌+◌, ◌-◌, ◌^◌, Ptr, Option, none, some, Bool, true, not, ltb, leb, ◌==◌, ◌&&◌,
  if◌then◌else◌, bit_and, bit_or, assert, ◌>>=◌, ◌>>◌, update,
}
use co_rtos.Base.Bits.{bit_not, countr_zero, popcount}
use co_rtos.Config.{max_wait_nodes}
use co_rtos.Wait.Nodes.{WaitNodes, invalid_index, reset}

pub record Pool : Type 0 where
  pub nodes : ℕ
  pub free_mask : ℕ

-- `ALL_NODES_FREE`
abbrev pub all_nodes_free : ℕ
all_nodes_free = 2 ^ max_wait_nodes - 1

unfoldable pub free_count : Pool → ℕ
free_count p = popcount 32 p.free_mask

unfoldable pub empty : Pool → Bool
empty p = p.free_mask == 0

-- An active node of a group, at address `a`.
unfoldable pub taken : WaitNodes → ℕ → ℕ → ℕ → ℕ → WaitNodes
taken ns a group waitable index =
    let r = reset ns a in
    record r {
      active = update r.active a true;
      group = update r.group a (some group);
      waitable = update r.waitable a (some waitable);
      index = update r.index a index;
    }

-- The node's address, null when the pool is exhausted.
unfoldable pub alloc : Pool → WaitNodes → ℕ → ℕ → ℕ → Option (Pool × WaitNodes × Ptr)
alloc p ns group waitable index = do
  assert (not (index == invalid_index))
  if p.free_mask == 0
      then some (p, ns, none)
      else (let bit = countr_zero 32 p.free_mask in
          let a = p.nodes + bit in
          do
            assert (not (ns.active a))
            some (
              record p { free_mask = bit_and p.free_mask (bit_not 32 (2 ^ bit)) },
              taken ns a group waitable index,
              some a,
            ))

unfoldable pub free : Pool → WaitNodes → ℕ → Option (Pool × WaitNodes)
free p ns a = do
  assert (leb p.nodes a && ltb (a - p.nodes) max_wait_nodes)
  assert (ns.active a)
  assert (ns.slot a == (a - p.nodes))
  some (record p { free_mask = bit_or p.free_mask (2 ^ (a - p.nodes)) }, reset ns a)

-- The loop of `reset_all`, over `n` nodes from `a` on.
unfoldable pub reset_from : ℕ → ℕ → WaitNodes → WaitNodes
reset_from zero a ns = ns
reset_from (suc n) a ns = reset_from n (a + 1) (reset ns a)

unfoldable pub reset_all : Pool → WaitNodes → Pool × WaitNodes
reset_all p ns = (record p { free_mask = all_nodes_free }, reset_from max_wait_nodes p.nodes ns)

abbrev pub at : Pool → ℕ → Ptr
at p slot = if ltb slot max_wait_nodes then some (p.nodes + slot) else none
