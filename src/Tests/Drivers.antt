-- ===== src/Tests/Drivers.antt =====
-- The time drivers.
use co_rtos.Base.{
  ◌↔◌, ℕ, zero, suc, ◌≤◌, some, true, false, ◌≡◌, ◌≢◌, ◌⊎◌, refl, List, [], ◌∷◌, All, replicate,
  arith,
}
use co_rtos.Time.Periodic
use co_rtos.Time.Periodic.Laws as PeriodicLaws
use co_rtos.Time.Simulation
use co_rtos.Time.Simulation.Laws as SimulationLaws
use co_rtos.Time.Port.{PortCall}
use co_rtos.Time.Slots.{Slot, free_slot, take_id, fill}
use co_rtos.Time.Slots.Laws.{freed_if_due}
use co_rtos.Time.Slots.Filling.{IsClean, NoId}
use co_rtos.Time.Tickless
use co_rtos.Time.Tickless.Laws as TicklessLaws

abbrev used : ℕ → ℕ → Slot
used id when = record { id = id; when = when; cb = some 90; arg = 0 }

-- Slots 0 and 2 are in use.
abbrev slots : List Slot
slots = used 1 50 ∷ free_slot ∷ used 2 80 ∷ replicate 13 free_slot

abbrev periodic : Periodic.DriverState
periodic = record {
  initialised = true;
  tick_frequency_hz = 1000;
  next_id = 3;
  started = true;
  slots = slots;
}

abbrev tickless : Tickless.DriverState
tickless = record {
  initialised = false;
  frequency_hz = 1000;
  next_id = 3;
  started = true;
  slots = slots;
}

abbrev event : ℕ → ℕ → Simulation.Event
event id when = record { id = id; when = when; cb = some 90; arg = 0; cancelled = false }

abbrev simulated : Simulation.DriverState
simulated = record {
  mode = Simulation.virtual_time;
  tick_frequency_hz = 1000;
  next_id = 3;
  events = event 1 50 ∷ event 2 80 ∷ [];
  running = false;
  virtual_now = 10;
  realtime_epoch = 0;
  started = true;
}

IsClean-rest : (n : ℕ) → IsClean (replicate n free_slot)
IsClean-rest zero = tt
IsClean-rest (suc n) = ((λ e. refl), IsClean-rest n)

unused_rest : (n : ℕ) → NoId 3 (replicate n free_slot)
unused_rest zero = tt
unused_rest (suc n) = ((λ e. omega arith), unused_rest n)

three_unused : NoId (take_id 3).0 slots
unfolding take_id
three_unused = ((λ e. omega arith), ((λ e. omega arith), ((λ e. omega arith), unused_rest 13)))

three_given : (Periodic.schedule_at periodic 60 (some 90) 7).1 ≢ 0
unfolding take_id Periodic.schedule_at fill
three_given e = omega (arith, e)

one_cancelled : (Simulation.cancel simulated 1).1 ≡ true
unfolding Simulation.cancel Simulation.mark
one_cancelled = refl

periodic-IsValid : PeriodicLaws.IsValid periodic
periodic-IsValid = record {
  count = refl;
  counter = omega arith;
  clean = (
    (λ e. absurd (omega (arith, e))),
    ((λ e. refl), ((λ e. absurd (omega (arith, e))), IsClean-rest 13)),
  );
}

cancel-schedule_at_example :
    let r = Periodic.schedule_at periodic 60 (some 90) 7 in
    ((Periodic.cancel r.0 r.1).1 ≡ true) × ((Periodic.cancel r.0 r.1).0.slots ≡ slots)
cancel-schedule_at_example =
    PeriodicLaws.cancel-schedule_at periodic 60 90 7 periodic-IsValid three_unused three_given

on_timer_isr-Rearmed_example :
    let r = Tickless.on_timer_isr (λ f a d. d) 50 tickless in
    (r.1 ≡ used 1 50 ∷ [])
    × (r.0.slots ≡ freed_if_due 50 slots)
    × ((c : PortCall) × (r.2 ≡ c ∷ []) × TicklessLaws.Rearms r.0.slots c × TicklessLaws.Ahead 50 c)
on_timer_isr-Rearmed_example = TicklessLaws.on_timer_isr-Rearmed 50 tickless refl

abbrev quiet : ℕ → ℕ → Simulation.DriverState → Simulation.DriverState
quiet f a d = d

advance_to-eq_example :
    (t : ℕ) × (10 ≤ t)
    × (60 ≤ t)
    × ((t ≡ 60) ⊎ (t ≡ 10))
    × (Simulation.advance_to quiet 0 60 simulated
        ≡ some (
          Simulation.run_all quiet
              (SimulationLaws.only (Simulation.is_due t) simulated.events)
              (record simulated {
                virtual_now = t;
                events = SimulationLaws.only (SimulationLaws.waits t) simulated.events;
              }),
          SimulationLaws.only (Simulation.is_due t) simulated.events,
        ))
    × ((e : Simulation.Event) → (Simulation.is_due t e ≡ true) ↔ SimulationLaws.Due t e)
    × SimulationLaws.InOrder quiet
advance_to-eq_example = SimulationLaws.advance_to-eq quiet 0 60 simulated refl

cancel-silent_example :
    All (λ e. e.id ≢ 1) (Simulation.fire_due_callbacks quiet 90 (Simulation.cancel simulated 1).0).1
cancel-silent_example =
    SimulationLaws.cancel-silent quiet 90 1 simulated
      ((λ same live. ((λ e. absurd (omega (arith, e))), tt)), ((λ same live. tt), tt)) one_cancelled
