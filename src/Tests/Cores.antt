-- ===== src/Tests/Cores.antt =====
-- Schedulers and the kernel.
use co_rtos.Base.{none, some, true, false, ◌≡◌, ◌≢◌, refl, [], ◌∷◌, update, inl, arith}
use co_rtos.Intrusive.{Links}
use co_rtos.Kernel.{Kernel, no_action, put, set_thread_ready}
use co_rtos.Kernel.Pinning.{Pinned, pin_thread_to_core-Pinned}
use co_rtos.Kernel.Wakeups.{set_thread_ready-here, set_thread_ready-elsewhere}
use co_rtos.Ready.Matrix.{ReadyMatrix, empty_matrix, enqueue_thread}
use co_rtos.Ready.Matrix.Invariant.{Represents}
use co_rtos.Ready.Matrix.Laws.{enqueue_thread-Represents}
use co_rtos.Scheduler
use co_rtos.Scheduler.{
  Scheduler, inbox_bits, drain_loop, post_to_inbox, current_thread_priority, new_scheduler,
}
use co_rtos.Scheduler.Drain.{Drained, all_ready, drain_loop-Drained}
use co_rtos.Scheduler.Invariant.{Owns, request, enqueue, enqueue_all}
use co_rtos.Scheduler.Post.{post_to_inbox-Owns}
use co_rtos.Scheduler.Race.{Stuck, reschedule_unreachable}
use co_rtos.Scheduler.Switching.{Switched}
use co_rtos.Scheduler.Reschedule.{settled, candidates, reschedule-Switched}
use co_rtos.Threads.{Threads, State}
use co_rtos.Tests.World.{
  threads, lists, empty-Represents, no_lists, core_with, core_with-Owns, wakeable, lists-Absent,
}

-- Threads 8 and then 5 stand behind thread 7.
reschedule-Switched_example :
    Switched 1 0 5
      (settled State.running (all_ready threads.state (8 ∷ [])) 5)
      (candidates State.running threads.effective_priority 0
        (enqueue_all threads.effective_priority lists (8 ∷ []))
        5)
      (Scheduler.reschedule 2 threads (core_with (some 5)))
reschedule-Switched_example =
    reschedule-Switched 2 (8 ∷ []) 5 (core_with-Owns (some 5))
      (record { here = refl; in_range = omega arith; absent = lists-Absent 5 refl }) refl
      (λ e. running_ne_ready e) ((λ e. omega arith), tt) (omega arith)
  where
    running_ne_ready : State.running ≢ State.ready
    running_ne_ready e = cc

drain_loop-Drained_example :
    Drained 1 0 threads (core_with none) lists (8 ∷ []) (drain_loop 2 threads (core_with none))
drain_loop-Drained_example =
    drain_loop-Drained 2 threads (core_with none) lists (8 ∷ []) (omega arith) (core_with-Owns none)

-- Thread 8 has blocked, and was signalled before its reschedule.
reschedule_unreachable_example : Stuck 1 0 2 threads (core_with (some 8)) lists (8 ∷ []) 8
reschedule_unreachable_example =
    reschedule_unreachable 2 (8 ∷ []) 8 (core_with-Owns (some 8)) refl refl (inl refl) (omega arith)

post_to_inbox-Owns_example :
    (s : Scheduler) × (post_to_inbox (false ∷ true ∷ []) (core_with none) (request 9)
      ≡ some (s, true, false))
    × Owns 1 0 threads s lists (8 ∷ 9 ∷ [])
    × (s.inbox_poke_pending ≡ true)
post_to_inbox-Owns_example =
    post_to_inbox-Owns (8 ∷ []) 9 1 [] (core_with-Owns none) (wakeable 9 refl refl)
      ((λ e. omega arith), tt) (omega arith) (omega arith)

enqueue_thread-Represents_example :
    (l : Links) × (m : ReadyMatrix) × (enqueue_thread threads empty_matrix 7
      ≡ some (record threads { links = l }, m))
    × Represents 1 (record threads { links = l }) m (update no_lists 3 (7 ∷ []))
enqueue_thread-Represents_example =
    enqueue_thread-Represents empty-Represents 7 (omega arith) refl refl tt

abbrev kernel : Kernel
kernel = record {
  schedulers = new_scheduler 0 ∷ core_with (some 5) ∷ [];
  initialised = true;
  running = true;
  active_threads = 4;
  thread_id_generator = 10;
}

-- Core 0 has no thread yet.
pin_thread_to_core-Pinned_example : Pinned threads kernel 9
pin_thread_to_core-Pinned_example =
    pin_thread_to_core-Pinned threads kernel 9 (omega arith, (omega arith, tt)) (λ h. h.0 refl)

set_thread_ready-here_example :
    (th : Threads) × (s : Scheduler) × (set_thread_ready [] 1 threads kernel 9
      ≡ some (th, put kernel 1 s, no_action, false))
    × Owns 1 0 th s (enqueue threads.effective_priority lists 9) (8 ∷ [])
    × (th.state 9 ≡ State.ready)
unfolding current_thread_priority
set_thread_ready-here_example =
    set_thread_ready-here threads kernel 9 (core_with (some 5)) lists (8 ∷ []) [] refl refl refl
      (core_with-Owns (some 5)) (wakeable 9 refl refl) ((λ e. omega arith), tt)

set_thread_ready-elsewhere_example :
    (s : Scheduler) × (set_thread_ready (true ∷ []) 0 threads kernel 9
      ≡ some (threads, put kernel 1 s, no_action, false))
    × Owns 1 0 threads s lists (8 ∷ 9 ∷ [])
set_thread_ready-elsewhere_example =
    set_thread_ready-elsewhere threads kernel 9 0 (core_with (some 5)) lists (8 ∷ []) 0 [] refl refl
      (λ e. omega arith) refl (core_with-Owns (some 5)) (wakeable 9 refl refl)
      ((λ e. omega arith), tt) (omega arith) (omega arith)
