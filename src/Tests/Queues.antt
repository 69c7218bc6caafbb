-- ===== src/Tests/Queues.antt =====
-- Intrusive lists, ready queues and ready matrices.
use co_rtos.Base.{some, false, update, ◌≡◌, refl, []}
use co_rtos.Intrusive.{Links, is_enqueued}
use co_rtos.Ready.Matrix.{ReadyMatrix, pop_best_thread, remove_thread}
use co_rtos.Ready.Matrix.Best.{Popped, pop_best_thread-Popped, remove_thread-Represents}
use co_rtos.Ready.Matrix.Invariant.{Represents}
use co_rtos.Tests.World.{threads, matrix, lists, matrix-Represents}

pop_best_thread-Popped_example : Popped 1 threads matrix lists (pop_best_thread threads matrix)
pop_best_thread-Popped_example = pop_best_thread-Popped matrix-Represents

remove_thread-Represents_example :
    (l : Links) × (m : ReadyMatrix) × (remove_thread threads matrix 7
      ≡ some (record threads { links = l }, m))
    × Represents 1 (record threads { links = l }) m (update lists 3 [])
    × (is_enqueued l 7 ≡ false)
remove_thread-Represents_example = remove_thread-Represents matrix-Represents [] 7 [] refl
