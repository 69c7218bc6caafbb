-- ===== src/Linux/Clock/Tickless/Serves.antt =====
-- No deadline is missed: what the driver's slots ask for is armed while the driver runs.
use co_rtos.Base.{
  ℕ, zero, suc, ◌+◌, Ptr, none, some, true, false, ltb, if◌then◌else◌, List, [], ◌∷◌, get_or, set,
  ◌≡◌, ◌∙◌, ◌==◌, refl, sym, inl, inr, Bool-cases, Option-cases, arith,
}
use co_rtos.Linux.Clock.{
  TimeState, time_register_isr_handler, time_irq_enable, time_arm, arm_loop, time_disarm,
  time_advance, perform, perform_all,
}
use co_rtos.Time.Port.{PortCall, register_isr_handler, setup, irq_enable, irq_disable, disarm}
use co_rtos.Time.Slots.{
  Slot, max_scheduled_callbacks, take_id, fire_from, invoke, is_due, free_slot, fill, release,
}
use co_rtos.Time.Tickless
use co_rtos.Time.Tickless.{DriverState, with_slots, rearm_locked}
use co_rtos.Time.Tickless.Laws.{NotBefore, Rearms, disarmed, armed, rearm_locked-Rearms}
use co_rtos.Linux.Clock.Tickless.{
  Request, System, settle, step, run, IsServed, schedule_at, cancel, start, stop, interrupt,
  advance,
}

start_on : (d : DriverState) → d.started ≡ true → Tickless.start d ≡ (d, [])
unfolding Tickless.start
start_on d on = simp on

start_off :
    (d : DriverState)
    → d.started ≡ false
    → Tickless.start d ≡ (
      record d { started = true },
      register_isr_handler ∷ setup 0 ∷ rearm_locked d ∷ irq_enable ∷ [],
    )
unfolding Tickless.start
start_off d off = simp off

stop_on :
    (d : DriverState)
    → d.started ≡ true
    → Tickless.stop d ≡ (record d { started = false }, irq_disable ∷ disarm ∷ [])
unfolding Tickless.stop
stop_on d on = simp on

stop_off : (d : DriverState) → d.started ≡ false → Tickless.stop d ≡ (d, [])
unfolding Tickless.stop
stop_off d off = simp off

invoke_quiet :
    (cb : Ptr) (arg : ℕ) (d : DriverState) → invoke (λ f a (e : DriverState). e) cb arg d ≡ d
unfolding invoke
invoke_quiet none arg d = refl
invoke_quiet (some f) arg d = refl

-- Firing neither starts nor stops the driver.
fire_from-started :
    (now n i : ℕ) (d : DriverState)
    → (fire_from (λ e. e.slots) with_slots (λ f a e. e) now n i d).0.started ≡ d.started
unfolding fire_from invoke
fire_from-started now zero i d = refl
fire_from-started now (suc n) i d =
    let slot = get_or d.slots i free_slot in
    let freed = with_slots d (set d.slots i free_slot) in
    elim (Bool-cases (is_due now slot)) [
      | inl due ↦
          rw (due, invoke_quiet slot.cb slot.arg freed) (fire_from-started now n (i + 1) freed)
      | inr waits ↦ rw waits (fire_from-started now n (i + 1) d)
    ]

module _ (handler isr_arg : Ptr) where
  weaken : (t e : ℕ) (ss : List Slot) → NotBefore t ss → NotBefore (if ltb t e then t else e) ss
  weaken t e [] h = tt
  weaken t e (x ∷ xs) h = ((λ used. ground (arith, h.0 used)), weaken t e xs h.1)

  -- The call with which an operation rearms.
  record IsCovering (ss : List Slot) (s s' : TimeState) : Type 0 where
    covering : NotBefore s'.armed_deadline ss
    same_irq : s'.irq_enabled ≡ s.irq_enabled
    same_isr : s'.isr ≡ s.isr

  perform-IsCovering :
      (ss : List Slot) (c : PortCall) (s : TimeState)
      → Rearms ss c
      → IsCovering ss s (perform handler isr_arg c s)
  unfolding perform time_arm arm_loop time_disarm
  perform-IsCovering ss _ s (disarmed h) = record { covering = h; same_irq = refl; same_isr = refl }
  perform-IsCovering ss _ s (armed t lt at h) = record {
    covering = weaken t s.armed_deadline ss h;
    same_irq = refl;
    same_isr = refl;
  }

  -- An operation that ends by rearming and leaves the driver running or stopped.
  rearm-IsServed :
      (d : DriverState) (s : System)
      → d.started ≡ s.driver.started
      → IsServed handler isr_arg s
      → IsServed handler isr_arg (settle handler isr_arg d (rearm_locked d ∷ []) s.clock)
  unfolding settle perform_all
  rearm-IsServed d s same v =
      let c = perform-IsCovering d.slots (rearm_locked d) s.clock (rearm_locked-Rearms d) in
      record {
        enabled = λ on. c.same_irq ∙ v.enabled (sym same ∙ on);
        handled = λ on. c.same_isr ∙ v.handled (sym same ∙ on);
        covered = λ on. c.covering;
      }

  schedule_at-IsServed :
      (when arg : ℕ) (cb : Ptr) (s : System)
      → IsServed handler isr_arg s
      → IsServed handler isr_arg (step handler isr_arg (schedule_at when cb arg) s)
  unfolding step settle perform_all Tickless.schedule_at take_id
  schedule_at-IsServed when arg none s v = v
  schedule_at-IsServed when arg (some cb) s v =
      let new : Slot = record {
        id = (take_id s.driver.next_id).0;
        when = when;
        cb = some cb;
        arg = arg;
      } in
      elim (Option-cases (fill new s.driver.slots)) [
        | inl full ↦ rw (full, Tickless.schedule_at) v
        | inr (ss, e) ↦
            rw (e, Tickless.schedule_at)
              (rearm-IsServed
                (record s.driver { next_id = (take_id s.driver.next_id).1; slots = ss }) s refl v)
      ]

  cancel-IsServed :
      (id : ℕ) (s : System)
      → IsServed handler isr_arg s
      → IsServed handler isr_arg (step handler isr_arg (cancel id) s)
  unfolding step settle perform_all Tickless.cancel
  cancel-IsServed id s v = elim (Bool-cases (id == 0)) [
    | inl invalid ↦ rw invalid v
    | inr valid ↦ elim (Option-cases (release id s.driver.slots)) [
      | inl absent ↦ rw (valid, absent) v
      | inr (ss, e) ↦ rw (valid, e) (rearm-IsServed (with_slots s.driver ss) s refl v)
    ]
  ]

  start-IsServed :
      (s : System)
      → IsServed handler isr_arg s
      → IsServed handler isr_arg (step handler isr_arg start s)
  unfolding step settle perform_all time_register_isr_handler time_irq_enable perform
  start-IsServed s v = elim (Bool-cases s.driver.started) [
    | inl on ↦ rw (start_on s.driver on) v
    | inr off ↦
        let before = time_register_isr_handler handler isr_arg s.clock in
        let c =
          perform-IsCovering s.driver.slots (rearm_locked s.driver) before
            (rearm_locked-Rearms s.driver) in
        rw (start_off s.driver off)
          (record { enabled = λ on. refl; handled = λ on. c.same_isr; covered = λ on. c.covering })
  ]

  stop-IsServed :
      (s : System)
      → IsServed handler isr_arg s
      → IsServed handler isr_arg (step handler isr_arg stop s)
  unfolding step settle perform_all
  stop-IsServed s v = elim (Bool-cases s.driver.started) [
    | inl on ↦
        rw (stop_on s.driver on)
          (record { enabled = λ h. cc; handled = λ h. cc; covered = λ h. cc })
    | inr off ↦ rw (stop_off s.driver off) v
  ]

  interrupt-IsServed :
      (s : System)
      → IsServed handler isr_arg s
      → IsServed handler isr_arg (step handler isr_arg interrupt s)
  unfolding step settle perform_all Tickless.on_timer_isr
  interrupt-IsServed s v =
      rearm-IsServed _ s (fire_from-started s.clock.now max_scheduled_callbacks 0 s.driver) v

  step-IsServed :
      (r : Request) (s : System)
      → IsServed handler isr_arg s
      → IsServed handler isr_arg (step handler isr_arg r s)
  unfolding step time_advance
  step-IsServed (schedule_at when cb arg) s v = schedule_at-IsServed when arg cb s v
  step-IsServed (cancel id) s v = cancel-IsServed id s v
  step-IsServed start s v = start-IsServed s v
  step-IsServed stop s v = stop-IsServed s v
  step-IsServed interrupt s v = interrupt-IsServed s v
  step-IsServed (advance delta) s v = record {
    enabled = v.enabled;
    handled = v.handled;
    covered = v.covered;
  }

  -- Whatever is asked of a driver that is not started at first, and whatever fires, with
  -- callbacks that leave the driver alone: while the driver runs, its interrupt is enabled and
  -- set to its handler, and no slot in use is due before the armed deadline.
  pub run-IsServed :
      (rs : List Request) (s : System)
      → s.driver.started ≡ false
      → IsServed handler isr_arg (run handler isr_arg rs s)
  unfolding run
  run-IsServed rs s off =
      from rs s (record { enabled = λ h. cc; handled = λ h. cc; covered = λ h. cc })
    where
      from :
          (rs : List Request) (s : System)
          → IsServed handler isr_arg s
          → IsServed handler isr_arg (run handler isr_arg rs s)
      from [] s v = v
      from (r ∷ rs) s v = from rs (step handler isr_arg r s) (step-IsServed r s v)
