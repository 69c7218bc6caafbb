-- ===== src/Ready/Matrix.antt =====
-- `ThreadReadyMatrix` of src/kernel/threading_subsystem.hpp and .cpp.
pub mod Invariant
pub mod Laws
pub mod Best
use co_rtos.Base.Bits.{test_bit, bit_not, countr_zero}
use co_rtos.Base.{
  ℕ, ◌^◌, Ptr, Option, none, some, Bool, bit_and, bit_or, ltb, ◌==◌, if◌then◌else◌, update, assert,
  ◌>>=◌, ◌>>◌,
}
use co_rtos.Config.{max_priorities}
use co_rtos.Intrusive.{Ends, no_ends}
use co_rtos.Ready.Queue
use co_rtos.Threads.{Threads, is_ready}

-- `matrix` is indexed by priority; the invariant keeps every index below `max_priorities`.
pub record ReadyMatrix : Type 0 where
  pub queues : ℕ → Ends
  pub bitmap : ℕ

abbrev pub empty_matrix : ReadyMatrix
empty_matrix = record { queues = λ _. no_ends; bitmap = 0 }

-- `~(1u << p)` and `1u << p`, on a `uint32_t`.
abbrev pub clear_bit : ℕ → ℕ → ℕ
clear_bit b p = bit_and b (bit_not 32 (2 ^ p))

abbrev pub raise_bit : ℕ → ℕ → ℕ
raise_bit b p = bit_or b (2 ^ p)

abbrev pub lowest : ℕ → ℕ
lowest b = countr_zero 32 b

-- `-1` is `none`.
unfoldable pub best_priority : ReadyMatrix → Option ℕ
best_priority m = if m.bitmap == 0 then none else some (lowest m.bitmap)

abbrev pub empty : ReadyMatrix → Bool
empty m = m.bitmap == 0

unfoldable pub peek_best_thread : ReadyMatrix → Ptr
peek_best_thread m = if m.bitmap == 0 then none else Queue.front (m.queues (lowest m.bitmap))

-- `if (matrix[priority].empty()) bitmap &= ~(1u << priority);`
abbrev pub clear_if_empty : Ends → ℕ → ℕ → ℕ
clear_if_empty q b p = if Queue.empty q then clear_bit b p else b

unfoldable pub enqueue_thread : Threads → ReadyMatrix → ℕ → Option (Threads × ReadyMatrix)
enqueue_thread th m t = do
  let p = th.effective_priority t
  assert (ltb p max_priorities)
  assert (is_ready (th.state t))
  (th', q) ← Queue.push_back th (m.queues p) t
  some (th', record { queues = update m.queues p q; bitmap = raise_bit m.bitmap p })

abbrev pub pop_at : ℕ → Threads → ReadyMatrix → Threads × ReadyMatrix × Ptr
pop_at p th m =
    let (th', q, t) = Queue.pop_front th (m.queues p) in
    (th', record { queues = update m.queues p q; bitmap = clear_if_empty q m.bitmap p }, t)

unfoldable pub pop_best_thread : Threads → ReadyMatrix → Threads × ReadyMatrix × Ptr
pop_best_thread th m = if m.bitmap == 0 then (th, m, none) else pop_at (lowest m.bitmap) th m

unfoldable pub remove_thread : Threads → ReadyMatrix → ℕ → Option (Threads × ReadyMatrix)
remove_thread th m t = do
  let p = th.effective_priority t
  (th', q) ← Queue.remove th (m.queues p) t
  some (th', record { queues = update m.queues p q; bitmap = clear_if_empty q m.bitmap p })

-- The observers of one list.
abbrev pub empty_at : ReadyMatrix → ℕ → Bool
empty_at m priority = Queue.empty (m.queues priority)

abbrev pub has_peer : ReadyMatrix → ℕ → Bool
has_peer m priority = Queue.has_peer (m.queues priority)

abbrev pub size_at : ℕ → Threads → ReadyMatrix → ℕ → Option ℕ
size_at fuel th m priority = Queue.size fuel th (m.queues priority)
