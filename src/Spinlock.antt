-- ===== src/Spinlock.antt =====
-- The spin lock of src/kernel/public_headers/spin_lock.hpp, its `lock` and `unlock` of
-- src/kernel/kernel.cpp, and the cores that share one, interleaved in any order.
pub mod Exclusion
pub mod TryLock
use co_rtos.Base.{ℕ, ◌+◌, ◌<◌, ◌^◌, Option, some, none, Bool, true, false, not, update, ◌≡◌, ◌>>=◌}
use co_rtos.Scheduler.{Scheduler, disable_preemption, enable_preemption}

-- `std::atomic_flag::test_and_set`: the flag after it, and before it.
unfoldable pub test_and_set : Bool → Bool × Bool
test_and_set flag = (true, flag)

-- The flag, and whether the lock was acquired.
unfoldable pub try_lock : Bool → Bool × Bool
try_lock flag = let (flag', old) = test_and_set flag in (flag', not old)

abbrev pub is_locked : Bool → Bool
is_locked flag = flag

-- `lock` on a core that finds the lock free at once, and `unlock`.
unfoldable pub lock_free : Scheduler → Bool × Scheduler
lock_free s = ((test_and_set false).0, disable_preemption s)

unfoldable pub unlock : Scheduler → Option (Bool × Scheduler)
unlock s = do s' ← enable_preemption s; some (false, s')

-- Where a core stands: outside, in the loop of `lock`, owning the lock by `lock` or by `try_lock`,
-- and in `unlock` once the flag is clear.
pub data Pc : Type 0 where
  outside spinning critical tried leaving leaving_tried : Pc

-- A step of a core with scheduler `s`. A core whose `enable_preemption` fails its assertion has no step.
pub data Move (flag : Bool) (s : Scheduler) : Pc → Bool → Scheduler → Pc → Type 0 where
  enter : Move flag s outside flag (disable_preemption s) spinning
  spin : flag ≡ true → Move flag s spinning (test_and_set flag).0 s spinning
  acquire : flag ≡ false → Move flag s spinning (test_and_set flag).0 s critical
  try_busy : (try_lock flag).1 ≡ false → Move flag s outside (try_lock flag).0 s outside
  try_free : (try_lock flag).1 ≡ true → Move flag s outside (try_lock flag).0 s tried
  clear : Move flag s critical false s leaving
  clear_tried : Move flag s tried false s leaving_tried
  leave : {s' : Scheduler} → enable_preemption s ≡ some s' → Move flag s leaving flag s' outside
  leave_tried :
      {s' : Scheduler} → enable_preemption s ≡ some s' → Move flag s leaving_tried flag s' outside

-- The end of an `unlock` after `try_lock` enables preemption once more than this lock disabled it.
abbrev pub undoes : Pc → Pc → ℕ
undoes leaving_tried outside = 1
undoes _ _ = 0

-- `undone i` is how often core `i` has done so; the code does not keep it.
pub record System : Type 0 where
  pub flag : Bool
  pub schedulers : ℕ → Scheduler
  pub pc : ℕ → Pc
  pub undone : ℕ → ℕ

pub data Step (s : System) : System → Type 0 where
  step :
      (i : ℕ) {flag : Bool} {sch : Scheduler} {p : Pc}
      → Move s.flag (s.schedulers i) (s.pc i) flag sch p
      → Step s (record {
        flag = flag;
        schedulers = update s.schedulers i sch;
        pc = update s.pc i p;
        undone = update s.undone i (s.undone i + undoes (s.pc i) p);
      })

-- The lock is free at first. A core may hold other locks, and so have preemption disabled.
abbrev pub begin : (ℕ → Scheduler) → System
begin schedulers = record {
  flag = false;
  schedulers = schedulers;
  pc = λ i. outside;
  undone = λ i. 0;
}

-- The cores with `schedulers` at first.
pub data Reach (schedulers : ℕ → Scheduler) : System → Type 0 where
  start : Reach schedulers (begin schedulers)
  later : {s t : System} → Reach schedulers s → Step s t → Reach schedulers t
