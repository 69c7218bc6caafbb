-- ===== src/Tests/Functions.antt =====
-- A function with a callable in its buffer, and one with a callable on the heap.
use co_rtos.Base.{
  ℕ, ◌+◌, Bool, true, false, Ptr, Option, none, some, ◌==◌, ==_iff, if◌then◌else◌, ◌≡◌, refl, sym,
  ◌∙◌, arith,
}
use co_rtos.Function.{
  Callable, inline_table, heap_table, object, heap_ptr, Function, empty_function, Memory,
  move_assign, can_use_heap, accepts, emplace, invoke,
}
use co_rtos.Function.Emplace.{Holding, Placed, emplace_lem}
use co_rtos.Function.Invariant.{Agrees, IsValid, points_to}
use co_rtos.Function.Invoke.{called, invoke_lem}
use co_rtos.Function.Moves.{Moved, move_assign_lem}

abbrev small : Callable
small = record { type = 1; size = 8; value = 5 }

abbrev large : Callable
large = record { type = 2; size = 100; value = 6 }

abbrev in_buffer : Function
in_buffer = record { vtable = some (inline_table 1); storage = object small }

abbrev on_heap : Function
on_heap = record { vtable = some (heap_table 2); storage = heap_ptr (some 9) }

-- The function at 3 has its callable in its buffer, and the one at 4 on the heap at 9.
abbrev function_at : Bool → Bool → Function
function_at true b = in_buffer
function_at false true = on_heap
function_at false false = empty_function

abbrev memory : Memory
memory = record {
  functions = λ a. function_at (a == 3) (a == 4);
  cells = λ p. if p == 9 then some large else none;
  next = 10;
}

memory-IsValid : IsValid memory
memory-IsValid = record {
  agrees = λ a. agrees (a == 3) (a == 4);
  unshared = λ a b p e f.
      is_four a p (a == 3) (a == 4) refl e ∙ sym (is_four b p (b == 3) (b == 4) refl f);
  owned = λ p c e. (4, owned p (p == 9) refl e);
  fresh = λ p h. ground arith;
}
  where
    agrees : (b c : Bool) → Agrees memory.cells (function_at b c).vtable (function_at b c).storage
    agrees true c = refl
    agrees false true = (large, refl, refl)
    agrees false false = refl

    is_four :
        (a p : ℕ) (b c : Bool) → (a == 4) ≡ c → points_to (function_at b c).storage ≡ some p → a ≡ 4
    is_four a p true c e h = cc
    is_four a p false true e h = (==_iff a 4).0 e
    is_four a p false false e h = cc

    owned :
        {c : Callable} (p : ℕ) (b : Bool)
        → (p == 9) ≡ b
        → ◌≡◌ {A = Option Callable} (if b then some large else none) (some c)
        → ◌≡◌ {A = Ptr} (some 9) (some p)
    owned p true e h = ground (arith, e)
    owned p false e h = cc

-- The callable on the heap moves into the function that has one in its buffer.
move_assign_lem_example : (m : Memory) × (move_assign memory 3 4 ≡ some m) × Moved memory m 3 4
move_assign_lem_example = move_assign_lem 3 4 memory-IsValid (λ e. omega (arith, e))

-- A callable too large for a buffer of 32 bytes.
emplace_lem_example :
    (m : Memory) × (emplace can_use_heap 32 memory 3 large ≡ some m)
    × Holding memory m 3 large
    × Placed can_use_heap 32 memory m 3 large
unfolding accepts
emplace_lem_example = emplace_lem can_use_heap 32 3 large memory-IsValid refl

-- Each call counts the argument.
abbrev count : Callable → ℕ → ℕ × ℕ
count c arg = (c.value + arg, c.value)

invoke_lem_example :
    (m : Memory) × (invoke count memory 4 7 ≡ some (m, 6))
    × Holding memory m 4 (called count large 7)
invoke_lem_example = invoke_lem count 4 7 large memory-IsValid refl
