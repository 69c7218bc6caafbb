-- ===== src/Spinlock/Exclusion.antt =====
-- Mutual exclusion, and preemption while the lock is held.
use co_rtos.Base.{
  ◌↔◌, ◌≤◌, none, ℕ, ◌+◌, ◌-◌, ◌<◌, ◌^◌, some, Bool, true, false, update, ◌≡◌, refl, arith,
}
use co_rtos.Scheduler.{Scheduler, disable_preemption, enable_preemption}
use co_rtos.Spinlock.{
  test_and_set, try_lock, Pc, outside, spinning, critical, tried, leaving, Move, enter, spin,
  acquire, try_busy, try_free, clear, clear_tried, leave, leave_tried, undoes, leaving_tried,
  System, step, Reach, start, later,
}

-- The core owns the lock.
abbrev pub owns : Pc → Bool
owns critical = true
owns tried = true
owns _ = false

-- How often the core has disabled preemption for this lock, less how often it has enabled it.
abbrev pub disables : Pc → ℕ
disables spinning = 1
disables critical = 1
disables leaving = 1
disables _ = 0

-- `base` is what each core's count was at first.
pub record Inv (base : ℕ → ℕ) (flag : Bool) (schedulers : ℕ → Scheduler) (pc : ℕ → Pc)
    (undone : ℕ → ℕ) : Type 0 where
  pub flagged : (i : ℕ) → owns (pc i) ≡ true → flag ≡ true
  pub unique : (i j : ℕ) → owns (pc i) ≡ true → owns (pc j) ≡ true → i ≡ j
  pub counted : (i : ℕ) → (schedulers i).preempt_disable_depth + undone i ≡ base i + disables (pc i)
  pub enough : (i : ℕ) → undone i ≤ base i

begin-Inv :
    (schedulers : ℕ → Scheduler)
    → Inv (λ i. (schedulers i).preempt_disable_depth) false schedulers (λ i. outside) (λ i. 0)
begin-Inv schedulers = record {
  flagged = λ i h. cc;
  unique = λ i j h k. cc;
  counted = λ i. omega arith;
  enough = λ i. omega arith;
}

-- The premise of a move.
abbrev Guard :
    {flag flag' : Bool} {s s' : Scheduler} {p p' : Pc} → Move flag s p flag' s' p' → Type 0
Guard {flag} (spin _) = flag ≡ true
Guard {flag} (acquire _) = flag ≡ false
Guard {flag} (try_busy _) = flag ≡ true
Guard {flag} (try_free _) = flag ≡ false
Guard {s = s} {s' = s'} (leave _) = enable_preemption s ≡ some s'
Guard {s = s} {s' = s'} (leave_tried _) = enable_preemption s ≡ some s'
Guard _ = Unit

guard :
    {flag flag' : Bool} {s s' : Scheduler} {p p' : Pc} (mv : Move flag s p flag' s' p') → Guard mv
unfolding try_lock test_and_set
guard (spin g) = g
guard (acquire g) = g
guard (try_busy g) = ground arith
guard (try_free g) = ground arith
guard (leave g) = g
guard (leave_tried g) = g
guard enter = tt
guard clear = tt
guard clear_tried = tt

module _ {base : ℕ → ℕ} {flag : Bool} {schedulers : ℕ → Scheduler} {pc : ℕ → Pc} {undone : ℕ → ℕ}
    (inv : Inv base flag schedulers pc undone) (room : (i : ℕ) → base i + 1 < 2 ^ 32) (i : ℕ) where
  open inv use {flagged, unique, counted, enough}

  Move-flagged :
      {flag' : Bool} {s' : Scheduler} {p p' : Pc}
      → Move flag (schedulers i) p flag' s' p'
      → pc i ≡ p
      → (j : ℕ) → owns (update pc i p' j) ≡ true
      → flag' ≡ true
  unfolding try_lock test_and_set
  Move-flagged enter e j h = ground (arith, flagged j)
  Move-flagged mv e j h = ground (arith, guard mv, flagged j, unique i j)

  Move-unique :
      {flag' : Bool} {s' : Scheduler} {p p' : Pc}
      → Move flag (schedulers i) p flag' s' p'
      → pc i ≡ p
      → (a b : ℕ) → owns (update pc i p' a) ≡ true
      → owns (update pc i p' b) ≡ true
      → a ≡ b
  Move-unique enter e a b ha hb = ground (arith, unique a b)
  Move-unique mv e a b ha hb = ground (arith, guard mv, unique a b, flagged a, flagged b)

  Move-counted :
      {flag' : Bool} {s' : Scheduler} {p p' : Pc}
      → Move flag (schedulers i) p flag' s' p'
      → pc i ≡ p
      → (j : ℕ)
      → (update schedulers i s' j).preempt_disable_depth
          + update undone i (undone i + undoes p p') j
        ≡ base j + disables (update pc i p' j)
  unfolding disable_preemption enable_preemption
  Move-counted enter e j = ground (arith, counted j, counted i, room i)
  Move-counted mv e j = ground (arith, guard mv, counted j, counted i, room i)

  Move-enough :
      {flag' : Bool} {s' : Scheduler} {p p' : Pc}
      → Move flag (schedulers i) p flag' s' p'
      → pc i ≡ p
      → (j : ℕ) → update undone i (undone i + undoes p p') j ≤ base j
  unfolding enable_preemption
  Move-enough enter e j = ground (arith, enough j)
  Move-enough mv e j = ground (arith, guard mv, enough j, enough i, counted i)

  Move-Inv :
      {flag' : Bool} {s' : Scheduler} {p' : Pc}
      → Move flag (schedulers i) (pc i) flag' s' p'
      → Inv base flag'
          (update schedulers i s')
          (update pc i p')
          (update undone i (undone i + undoes (pc i) p'))
  Move-Inv mv = record {
    flagged = Move-flagged mv refl;
    unique = Move-unique mv refl;
    counted = Move-counted mv refl;
    enough = Move-enough mv refl;
  }

can_leave :
    (s : Scheduler)
    → 0 < s.preempt_disable_depth
    → (s' : Scheduler) × (enable_preemption s ≡ some s')
unfolding enable_preemption
can_leave s h = (record s { preempt_disable_depth = s.preempt_disable_depth - 1 }, ground arith)

fails : (s : Scheduler) → s.preempt_disable_depth ≡ 0 → enable_preemption s ≡ none
unfolding enable_preemption
fails s h = ground arith

fails-zero : (s : Scheduler) → enable_preemption s ≡ none → s.preempt_disable_depth ≡ 0
unfolding enable_preemption
fails-zero s h = ground arith

module _ {schedulers : ℕ → Scheduler}
    (room : (i : ℕ) → (schedulers i).preempt_disable_depth + 1 < 2 ^ 32) where
  Reach-Inv :
      {s : System}
      → Reach schedulers s
      → Inv (λ i. (schedulers i).preempt_disable_depth) s.flag s.schedulers s.pc s.undone
  Reach-Inv start = begin-Inv schedulers
  Reach-Inv (later r (step i mv)) = Move-Inv (Reach-Inv r) room i mv

  -- In every reachable state of cores whose counts do not overflow, no two cores own the lock. A
  -- core's count of disablings is what it was at first, plus one where the core owns the lock by
  -- `lock`, spins for it or leaves it after that, less one for each `unlock` after a `try_lock`
  -- that it has ended; there are never more of those than the count was at first. A core that
  -- leaves after `lock` passes the assertion of `enable_preemption`; one that leaves after
  -- `try_lock` fails it exactly if there have been as many of those as the count was at first.
  pub mutual_exclusion :
      {s : System}
      → Reach schedulers s
      → ((i j : ℕ) → owns (s.pc i) ≡ true → owns (s.pc j) ≡ true → i ≡ j)
        × ((i : ℕ)
            → ((s.schedulers i).preempt_disable_depth + s.undone i
                ≡ (schedulers i).preempt_disable_depth + disables (s.pc i))
              × (s.undone i ≤ (schedulers i).preempt_disable_depth))
        × ((i : ℕ)
            → s.pc i ≡ leaving
            → (sch : Scheduler) × (enable_preemption (s.schedulers i) ≡ some sch))
        × ((i : ℕ)
            → s.pc i ≡ leaving_tried
            → (enable_preemption (s.schedulers i) ≡ none)
              ↔ (s.undone i ≡ (schedulers i).preempt_disable_depth))
  mutual_exclusion {s} r =
      let v = Reach-Inv r in
      (
        v.unique,
        λ i. (v.counted i, v.enough i),
        λ i e. can_leave (s.schedulers i) (ground (arith, v.counted i, v.enough i)),
        λ i e. (
          λ h. ground (arith, v.counted i, fails-zero (s.schedulers i) h),
          λ h. fails (s.schedulers i) (ground (arith, v.counted i)),
        ),
      )
