-- ===== src/Linux/Clock/Tickless.antt =====
-- The tickless driver of src/time/tickless/time_driver_tickless.cpp on this clock: its requests and
-- the interrupts, with callbacks that leave the driver alone.
pub mod Serves
pub mod Passed
use co_rtos.Base.{
  ℕ, zero, suc, ◌+◌, ◌≤◌, ◌<◌, Ptr, none, some, true, false, ltb, if◌then◌else◌, List, [], ◌∷◌,
  length, get_or, set, ◌≡◌, ◌∙◌, ◌==◌, refl, subst, sym, inl, inr, Bool-cases, Option-cases, arith,
}
use co_rtos.Linux.Clock.{
  TimeState, time_register_isr_handler, time_irq_enable, time_arm, arm_loop, time_disarm,
  time_advance, time_now, perform, perform_all,
}
use co_rtos.Time.Port.{PortCall, register_isr_handler, setup, irq_enable, irq_disable, disarm}
use co_rtos.Time.Slots.{
  Slot, max_scheduled_callbacks, take_id, fire_from, invoke, is_due, free_slot, fill, release,
}
use co_rtos.Time.Slots.Laws.{freed_if_due}
use co_rtos.Time.Tickless
use co_rtos.Time.Tickless.{DriverState, with_slots, rearm_locked}
use co_rtos.Time.Tickless.Laws.{
  NotBefore, DueAt, Rearms, disarmed, armed, rearm_locked-Rearms, Ahead, silent, later,
  on_timer_isr-Rearmed,
}
use co_rtos.Time.Types.{max_time}

-- A request of the driver's interface, a timer interrupt, or the passing of time.
pub data Request : Type 0 where
  schedule_at : ℕ → Ptr → ℕ → Request
  cancel : ℕ → Request
  start stop interrupt : Request
  advance : ℕ → Request

pub record System : Type 0 where
  pub driver : DriverState
  pub clock : TimeState

-- `handler` and `isr_arg` are what the driver registers.
module _ (handler isr_arg : Ptr) where
  pub settle : DriverState → List PortCall → TimeState → System
  settle d calls s = record { driver = d; clock = perform_all handler isr_arg calls s }

  pub step : Request → System → System
  unfolding settle
  step (schedule_at when cb arg) s =
      let r = Tickless.schedule_at s.driver when cb arg in settle r.0 r.2 s.clock
  step (cancel id) s = let r = Tickless.cancel s.driver id in settle r.0 r.2 s.clock
  step start s = let r = Tickless.start s.driver in settle r.0 r.1 s.clock
  step stop s = let r = Tickless.stop s.driver in settle r.0 r.1 s.clock
  step interrupt s =
      let r = Tickless.on_timer_isr (λ f a d. d) (time_now s.clock) s.driver in
      settle r.0 r.2 s.clock
  step (advance delta) s = record s { clock = time_advance delta s.clock }

  pub run : List Request → System → System
  run [] s = s
  run (r ∷ rs) s = run rs (step r s)

  -- While the driver runs, its interrupt is enabled and set to its handler, and no slot in use is due
  -- before the armed deadline.
  pub record IsServed (s : System) : Type 0 where
    pub enabled : s.driver.started ≡ true → s.clock.irq_enabled ≡ true
    pub handled : s.driver.started ≡ true → s.clock.isr ≡ handler
    pub covered : s.driver.started ≡ true → NotBefore s.clock.armed_deadline s.driver.slots
