-- ===== src/Linux/Clock/Tickless/Passed.antt =====
-- A deadline that has passed stays armed.
use co_rtos.Base.{ℕ, ◌≤◌, ◌<◌, Ptr, List, [], ◌∷◌, length, ◌≡◌, subst, sym, inl, inr, arith}
use co_rtos.Linux.Clock.{TimeState, time_arm, arm_loop, perform, perform_all}
use co_rtos.Time.Port.{PortCall}
use co_rtos.Time.Slots.{Slot, max_scheduled_callbacks}
use co_rtos.Time.Slots.Laws.{freed_if_due}
use co_rtos.Time.Tickless.Laws.{
  NotBefore, DueAt, Rearms, disarmed, armed, Ahead, silent, later, on_timer_isr-Rearmed,
}
use co_rtos.Time.Types.{max_time}
use co_rtos.Linux.Clock.Tickless.{System, settle, step, interrupt}

-- A deadline that a slot in use has is no earlier than one that none is before.
due-le : (e t : ℕ) (ss : List Slot) → NotBefore e ss → DueAt t ss → e ≤ t
due-le e t [] h at = elim at [ ]
due-le e t (s ∷ ss) h at = elim at [
  | inl (used, same) ↦ subst (λ n. e ≤ n) same (h.0 used)
  | inr after ↦ due-le e t ss h.1 after
]

module _ (handler isr_arg : Ptr) where
  keeps_passed :
      (now t : ℕ) (ss : List Slot) (c : PortCall) (s : TimeState)
      → s.armed_deadline ≤ now
      → t < max_time
      → DueAt t ss
      → Rearms ss c
      → Ahead now c
      → (perform handler isr_arg c s).armed_deadline ≡ s.armed_deadline
  unfolding perform time_arm arm_loop
  keeps_passed now t ss _ s passed soon due (disarmed h) silent =
      absurd (omega (arith, due-le max_time t ss h due))
  keeps_passed now t ss _ s passed soon due (armed e lt at h) (later _ q) = ground arith

  -- Where a deadline that has passed is armed and some slot that an interrupt does not fire is
  -- due before the end of time, the interrupt, with callbacks that leave the driver alone, leaves
  -- the passed deadline armed.
  pub interrupt_keeps_passed :
      (s : System) (t : ℕ)
      → length s.driver.slots ≡ max_scheduled_callbacks
      → s.clock.armed_deadline ≤ s.clock.now
      → t < max_time
      → DueAt t (freed_if_due s.clock.now s.driver.slots)
      → (step handler isr_arg interrupt s).clock.armed_deadline ≡ s.clock.armed_deadline
  unfolding step settle perform_all perform time_arm arm_loop
  interrupt_keeps_passed s t count passed soon due =
      let (fired, left, (c, e, rearms, ahead)) = on_timer_isr-Rearmed s.clock.now s.driver count in
      rw e (
        keeps_passed s.clock.now t _ c s.clock passed soon (subst (DueAt t) (sym left) due) rearms
          ahead)
