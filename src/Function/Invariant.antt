-- ===== src/Function/Invariant.antt =====
-- What the functions and the heap look like between operations.
use co_rtos.Base.{ℕ, ◌≤◌, Ptr, Option, none, some, true, ◌≡◌, ◌≢◌}
use co_rtos.Function.{
  Callable, VTable, inline_table, heap_table, Storage, object, heap_ptr, Memory, is_clear,
}

-- What a function holds: the object that its table and storage name.
abbrev pub held : (ℕ → Option Callable) → Option VTable → Storage → Option Callable
held cells (some (inline_table t)) (object c) = some c
held cells (some (heap_table t)) (heap_ptr (some p)) = cells p
held cells _ _ = none

abbrev pub contents : Memory → ℕ → Option Callable
contents m a = held m.cells (m.functions a).vtable (m.functions a).storage

-- The cell that a storage points to.
abbrev pub points_to : Storage → Ptr
points_to (heap_ptr p) = p
points_to _ = none

-- Table and storage agree, and the table is that of the object's type.
abbrev pub Agrees : (ℕ → Option Callable) → Option VTable → Storage → Type 0
Agrees cells none s = is_clear s ≡ true
Agrees cells (some (inline_table t)) (object c) = c.type ≡ t
Agrees cells (some (heap_table t)) (heap_ptr (some p)) =
    (c : Callable) × (cells p ≡ some c) × (c.type ≡ t)
Agrees cells _ _ = ⊥

-- Every function agrees with its storage, no two share a cell, every object on the heap is that of a
-- function, and no address from `next` on has been given.
pub record IsValid (m : Memory) : Type 0 where
  pub agrees : (a : ℕ) → Agrees m.cells (m.functions a).vtable (m.functions a).storage
  pub unshared :
      (a b p : ℕ)
      → points_to (m.functions a).storage ≡ some p
      → points_to (m.functions b).storage ≡ some p
      → a ≡ b
  pub owned :
      (p : ℕ) (c : Callable)
      → m.cells p ≡ some c
      → (a : ℕ) × (points_to (m.functions a).storage ≡ some p)
  pub fresh : (p : ℕ) → m.next ≤ p → m.cells p ≡ none

-- The other functions hold what they held.
abbrev pub Keeps : ℕ → Memory → Memory → Type 0
Keeps a m m' = (b : ℕ) → b ≢ a → contents m' b ≡ contents m b
