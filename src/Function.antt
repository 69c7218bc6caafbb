-- ===== src/Function.antt =====
-- The type-erased callable of src/kernel/public_headers/function.hpp. Each step may fault: `none` is
-- the use of an object outside its lifetime, the wrong member of the storage's union, an object
-- that is overwritten and so never destroyed, or one that does not fit its buffer.
pub mod Invariant
pub mod Reset
pub mod Moves
pub mod Emplace
pub mod Invoke
use co_rtos.Base.{
  ℕ, ◌+◌, Ptr, Option, none, some, Bool, true, false, not, ◌&&◌, ◌||◌, leb, ◌==◌, if◌then◌else◌,
  update, assert, ◌>>=◌, ◌>>◌,
}

-- An object that can be called: its type, its size and what it has captured.
pub record Callable : Type 0 where
  pub type : ℕ
  pub size : ℕ
  pub value : ℕ

-- `VTableImpl<F, Heap>::table`, for the type `F`.
pub data VTable : Type 0 where
  inline_table heap_table : ℕ → VTable

-- `Storage`: nothing, an object in the buffer, or the pointer.
pub data Storage : Type 0 where
  raw : Storage
  object : Callable → Storage
  heap_ptr : Ptr → Storage

pub record Function : Type 0 where
  pub vtable : Option VTable
  pub storage : Storage

-- `Function()`
abbrev pub empty_function : Function
empty_function = record { vtable = none; storage = raw }

-- The functions by their addresses, the objects on the heap, and the next address that `new` gives.
pub record Memory : Type 0 where
  pub functions : ℕ → Function
  pub cells : ℕ → Option Callable
  pub next : ℕ

abbrev pub put : Memory → ℕ → Function → Memory
put m a f = record m { functions = update m.functions a f }

-- The end of the lifetime of what a cell holds.
unfoldable pub delete : Memory → ℕ → Option Memory
delete m p = do c ← m.cells p; some (record m { cells = update m.cells p none })

-- `VTableImpl::destroy` of the object at `a`.
unfoldable pub destroy : Memory → ℕ → VTable → Storage → Option Memory
destroy m a (heap_table t) (heap_ptr none) = some m
destroy m a (heap_table t) (heap_ptr (some p)) = do
  m' ← delete m p
  some (put m' a (record { vtable = some (heap_table t); storage = heap_ptr none }))
destroy m a (inline_table t) (object c) =
    some (put m a (record { vtable = some (inline_table t); storage = raw }))
destroy m a _ _ = none

-- `vtable = nullptr`
abbrev pub clear_vtable : Memory → ℕ → Memory
clear_vtable m a = put m a (record { vtable = none; storage = (m.functions a).storage })

unfoldable pub reset_by : Memory → ℕ → Option VTable → Option Memory
reset_by m a none = some m
reset_by m a (some v) = do m' ← destroy m a v (m.functions a).storage; some (clear_vtable m' a)

unfoldable pub reset : Memory → ℕ → Option Memory
reset m a = reset_by m a (m.functions a).vtable

-- Storage that holds no object can be written.
abbrev pub is_clear : Storage → Bool
is_clear raw = true
is_clear (object c) = false
is_clear (heap_ptr none) = true
is_clear (heap_ptr (some p)) = false

-- `VTableImpl::move` from `b` to `a`.
unfoldable pub move_object : Memory → ℕ → ℕ → VTable → Storage → Option Memory
move_object m a b (heap_table t) (heap_ptr p) = some (
    put (put m a (record { vtable = some (heap_table t); storage = heap_ptr p })) b
      (record { vtable = none; storage = heap_ptr none }))
move_object m a b (inline_table t) (object c) = some (
    put (put m a (record { vtable = some (inline_table t); storage = object c })) b
      (record { vtable = none; storage = raw }))
move_object m a b _ _ = none

unfoldable pub move_by : Memory → ℕ → ℕ → Option VTable → Option Memory
move_by m a b none = some (clear_vtable m a)
move_by m a b (some v) = do
  assert (is_clear (m.functions a).storage)
  move_object m a b v (m.functions b).storage

unfoldable pub move_from : Memory → ℕ → ℕ → Option Memory
move_from m a b = move_by m a b (m.functions b).vtable

-- The move constructor, of a new function at `a`.
unfoldable pub move_construct : Memory → ℕ → ℕ → Option Memory
move_construct m a b = move_from (put m a empty_function) a b

-- The move assignment of the function at `b` to that at `a`.
unfoldable pub move_assign : Memory → ℕ → ℕ → Option Memory
move_assign m a b = if a == b then some m else (reset m a >>= λ m'. move_from m' a b)

-- `HeapPolicy`
pub data HeapPolicy : Type 0 where
  no_heap can_use_heap must_use_heap : HeapPolicy

abbrev pub allow_heap : HeapPolicy → Bool
allow_heap no_heap = false
allow_heap _ = true

abbrev pub force_heap : HeapPolicy → Bool
force_heap must_use_heap = true
force_heap _ = false

-- The static assertions on the size.
unfoldable pub accepts : HeapPolicy → ℕ → Callable → Bool
accepts policy inline_size c = leb c.size inline_size || allow_heap policy

unfoldable pub uses_heap : HeapPolicy → ℕ → Callable → Bool
uses_heap policy inline_size c = force_heap policy || not (leb c.size inline_size)

-- `new`; its address has not been given before.
abbrev pub allocate : Memory → ℕ → Callable → Memory
allocate m a c = record {
  functions =
      update m.functions a
        (record { vtable = some (heap_table c.type); storage = heap_ptr (some m.next) });
  cells = update m.cells m.next (some c);
  next = m.next + 1;
}

-- Placement `new` in a buffer of `inline_size` bytes: a larger object is written past its end.
unfoldable pub construct : ℕ → Memory → ℕ → Callable → Option Memory
construct inline_size m a c =
    if leb c.size inline_size
    then some (put m a (record { vtable = some (inline_table c.type); storage = object c }))
    else none

unfoldable pub emplace : HeapPolicy → ℕ → Memory → ℕ → Callable → Option Memory
emplace policy inline_size m a c = do
  assert (accepts policy inline_size c)
  m' ← reset m a
  assert (is_clear (m'.functions a).storage)
  if uses_heap policy inline_size c then some (allocate m' a c) else construct inline_size m' a c

-- `operator bool`
unfoldable pub holds_callable : Memory → ℕ → Bool
holds_callable m a = elim (m.functions a).vtable [ none ↦ false | some v ↦ true ]

-- `operator()`: a call may change what the object has captured. A function without a callable is a
-- null dereference.
module _ (call : Callable → ℕ → ℕ × ℕ) where
  unfoldable pub invoke_by : Memory → ℕ → ℕ → Option VTable → Storage → Option (Memory × ℕ)
  invoke_by m a arg (some (inline_table t)) (object c) =
      let (value, result) = call c arg in
      some (
        put m a (record {
          vtable = some (inline_table t);
          storage = object (record c { value = value });
        }),
        result,
      )
  invoke_by m a arg (some (heap_table t)) (heap_ptr (some p)) = do
    c ← m.cells p
    let (value, result) = call c arg
    some (record m { cells = update m.cells p (some (record c { value = value })) }, result)
  invoke_by m a arg _ _ = none

  unfoldable pub invoke : Memory → ℕ → ℕ → Option (Memory × ℕ)
  invoke m a arg = invoke_by m a arg (m.functions a).vtable (m.functions a).storage
