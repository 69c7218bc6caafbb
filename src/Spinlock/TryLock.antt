-- ===== src/Spinlock/TryLock.antt =====
-- What `unlock` does to a lock that `try_lock` acquired.
use co_rtos.Base.{◌+◌, ◌^◌, ◌<◌, ◌≡◌, some, none, true, false, refl, arith}
use co_rtos.Scheduler.{Scheduler, disable_preemption, enable_preemption}
use co_rtos.Spinlock.{test_and_set, try_lock, lock_free, unlock}

-- On a core whose count does not overflow, `lock` on a free lock and then `unlock` give back the
-- core and the lock as they were. `try_lock` on a free lock acquires it and leaves preemption
-- enabled, and `unlock` then fails its assertion, if the core holds no other lock.
unlock-lock :
    (s : Scheduler)
    → s.preempt_disable_depth + 1 < 2 ^ 32
    → (unlock (lock_free s).1 ≡ some (false, s))
      × ((lock_free s).0 ≡ true)
      × (try_lock false ≡ (true, true))
      × (s.preempt_disable_depth ≡ 0 → unlock s ≡ none)
unfolding unlock lock_free try_lock test_and_set disable_preemption enable_preemption
unlock-lock s room = (ground arith, refl, refl, λ e. ground arith)
