-- ===== src/Tests/Locks.antt =====
-- Three cores that share a spin lock.
use co_rtos.Base.{◌↔◌, ◌≤◌, ℕ, ◌+◌, true, none, some, ◌≡◌, refl, arith}
use co_rtos.Scheduler.{Scheduler, enable_preemption}
use co_rtos.Spinlock
use co_rtos.Spinlock.Exclusion.{owns, disables, mutual_exclusion}
use co_rtos.Spinlock.{
  Pc, System, Reach, start, later, step, enter, acquire, spin, try_free, clear_tried, lock_free,
  unlock, try_lock,
}
use co_rtos.Tests.World.{core_with}

abbrev cores : ℕ → Scheduler
cores i = core_with none

-- Core 0 has released what it got by `try_lock`, core 1 has got the lock, and core 2 spins for it.
contended :
    (s : System) × Reach cores s
    × (s.pc 0 ≡ Pc.leaving_tried)
    × (s.pc 1 ≡ Pc.critical)
    × (s.pc 2 ≡ Pc.spinning)
unfolding Spinlock.test_and_set Spinlock.try_lock
contended =
    let r1 : Reach cores _ = later start (step 0 (try_free refl)) in
    let r2 : Reach cores _ = later r1 (step 1 enter) in
    let r3 : Reach cores _ = later r2 (step 0 clear_tried) in
    let r4 : Reach cores _ = later r3 (step 2 enter) in
    let r5 : Reach cores _ = later r4 (step 1 (acquire refl)) in
    (_, later r5 (step 2 (spin refl)), refl, refl, refl)

mutual_exclusion_example :
    let s = contended.0 in
    ((i j : ℕ) → owns (s.pc i) ≡ true → owns (s.pc j) ≡ true → i ≡ j)
    × ((i : ℕ)
        → ((s.schedulers i).preempt_disable_depth + s.undone i
            ≡ (cores i).preempt_disable_depth + disables (s.pc i))
          × (s.undone i ≤ (cores i).preempt_disable_depth))
    × ((i : ℕ)
        → s.pc i ≡ Pc.leaving
        → (sch : Scheduler) × (enable_preemption (s.schedulers i) ≡ some sch))
    × ((i : ℕ)
        → s.pc i ≡ Pc.leaving_tried
        → (enable_preemption (s.schedulers i) ≡ none)
          ↔ (s.undone i ≡ (cores i).preempt_disable_depth))
mutual_exclusion_example = mutual_exclusion {schedulers = cores} (λ i. omega arith) contended.1
