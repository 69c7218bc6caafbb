-- ===== src/Tests/Host.antt =====
-- The host's cores, their clock, and their sleep.
use co_rtos.Base.{
  ℕ, zero, suc, ◌+◌, ◌*◌, ◌<◌, ◌≤◌, true, false, none, some, ◌==◌, if◌then◌else◌, ◌≡◌, refl, inr,
  inl, ◌⊎◌, [], ◌∷◌, All, get_elem?, replicate, arith,
}
use co_rtos.Linux.Clock
use co_rtos.Linux.Clock.Arm.{IsEarliest, arm_loop-IsEarliest}
use co_rtos.Linux.Clock.Tickless.{
  System as Driven, IsServed, run, step as serve, schedule_at, start as go, advance, interrupt,
}
use co_rtos.Linux.Clock.Tickless.Passed.{interrupt_keeps_passed}
use co_rtos.Linux.Clock.Tickless.Serves.{run-IsServed}
use co_rtos.Linux.Clock.{arm_loop, spurious, store, undisturbed}
use co_rtos.Linux.Cores
use co_rtos.Linux.Cores.{CpuCore, GlobalState, CurrentCore, no_core, send_reschedule_ipi}
use co_rtos.Linux.Cores.Laws.{IsNumbered, send_reschedule_ipi_lem}
use co_rtos.Linux.Idle
use co_rtos.Linux.Idle.Advance as IdleAdvance
use co_rtos.Linux.Idle.Returns as IdleReturns
use co_rtos.Linux.Idle.Wakes.{will_signal, no_missed_wake}
use co_rtos.Linux.Interrupts.{guarded, masked, done, IsMasked, run-IsMasked}
use co_rtos.Linux.Interrupts
use co_rtos.Linux.Panic.{
  print_formatted_context, lines_around, print_formatted_context-eq-lines_around,
}
use co_rtos.Linux.Shutdown
use co_rtos.Linux.Shutdown.Invariant.{saw_quiet, is_poking, may_wait, pokes_from, Reach-IsOrderly}
use co_rtos.Linux.Shutdown.Progress as ShutdownProgress
use co_rtos.Time.Slots.{Slot, free_slot}
use co_rtos.Time.Tickless

run-IsMasked_example :
    ((Interrupts.run (guarded (masked done done) done) 0).0 ≡ 0)
    × All IsMasked (Interrupts.run (guarded (masked done done) done) 0).1
unfolding Interrupts.height
run-IsMasked_example = run-IsMasked (guarded (masked done done) done) 0 (omega arith)

-- Another core arms 60 before the exchange, which fails.
arm_loop-IsEarliest_example :
    IsEarliest (store 60 ∷ spurious ∷ []) 50 90 (arm_loop (store 60 ∷ spurious ∷ []) 50 90)
arm_loop-IsEarliest_example =
    arm_loop-IsEarliest (store 60 ∷ spurious ∷ []) 50 90 (omega arith, (omega arith, tt))

-- The handler is at 70.
abbrev fresh : Driven
fresh = record { driver = Tickless.fresh; clock = Clock.initial }

run-IsServed_example : IsServed (some 70) none (
    run
      (some 70)
      none
      (schedule_at 500 (some 90) 0 ∷ go ∷ schedule_at 30 (some 91) 0 ∷ advance 40 ∷ interrupt ∷ [])
      fresh)
run-IsServed_example =
    run-IsServed (some 70) none
      (schedule_at 500 (some 90) 0 ∷ go ∷ schedule_at 30 (some 91) 0 ∷ advance 40 ∷ interrupt ∷ [])
      fresh refl

abbrev used : ℕ → ℕ → Slot
used id when = record { id = id; when = when; cb = some 90; arg = 0 }

-- The deadline 50 has passed at 60, and the other slot is due at 80.
abbrev late : Driven
late = record {
  driver = record {
    initialised = false;
    frequency_hz = 1000;
    next_id = 3;
    started = true;
    slots = used 1 50 ∷ used 2 80 ∷ replicate 14 free_slot;
  };
  clock = record Clock.initial { now = 60; armed_deadline = 50; irq_enabled = true };
}

interrupt_keeps_passed_example : (serve (some 70) none interrupt late).clock.armed_deadline ≡ 50
interrupt_keeps_passed_example =
    interrupt_keeps_passed (some 70) none late 80 refl (omega arith) (omega arith)
      (inr (inl ((λ e. omega (arith, e)), refl)))

-- Cores 0 and 1; a thread runs on core 0.
abbrev two_cores : GlobalState
two_cores = record Cores.reset {
  cores =
      record { core_id = 0; entry = 7; pending = false }
      ∷ record { core_id = 1; entry = 7; pending = false }
      ∷ [];
}

abbrev on_zero : CurrentCore
on_zero = record no_core { core = some 0; current_context = some 33 }

two_cores-IsNumbered : IsNumbered 2 two_cores
two_cores-IsNumbered = record { many = refl; number = number }
  where
    number :
        (j : ℕ) → j < 2 → (c : CpuCore) × (get_elem? two_cores.cores j ≡ some c) × (c.core_id ≡ j)
    number zero lt = (_, refl, refl)
    number (suc zero) lt = (_, refl, refl)
    number (suc (suc j)) lt = absurd (omega arith)

send_reschedule_ipi_lem_example :
    (g : GlobalState) × (send_reschedule_ipi 1 on_zero two_cores ≡ some (g, false))
    × IsNumbered 2 g
    × ((j : ℕ) (c : CpuCore)
        → get_elem? two_cores.cores j ≡ some c
        → get_elem? g.cores j ≡ some (if j == 1 then record c { pending = true } else c))
send_reschedule_ipi_lem_example =
    send_reschedule_ipi_lem on_zero 0 1 two_cores-IsNumbered refl (omega arith) (omega arith)

-- Core 1 stores a poke while the sleeping core is about to wait.
abbrev poked :
    (s : Idle.System) × Idle.Reach 2 s × (s.mem.pending ≡ true) × (s.asleep ≡ Idle.committed)
poked =
    let r1 : Idle.Reach 2 _ = Idle.later Idle.start (Idle.sleep (Idle.fast_miss refl)) in
    let r2 : Idle.Reach 2 _ = Idle.later r1 (Idle.sleep (Idle.lock refl)) in
    let r3 : Idle.Reach 2 _ = Idle.later r2 (Idle.sleep (Idle.miss refl)) in
    (_, Idle.later r3 (Idle.wake 1 (omega arith) Idle.store), refl, refl)

no_missed_wake_example : (i : ℕ) × (i < 2) × (will_signal (poked.0.pc i) ≡ true)
no_missed_wake_example = no_missed_wake poked.1 refl refl

-- The sleeping core goes on to wait.
abbrev asleep : (t : Idle.System) × IdleAdvance.Run 2 poked.0 1 t
asleep = (_, IdleAdvance.more IdleAdvance.none (IdleAdvance.asleep_moves refl Idle.wait))

idle_returns_example :
    (1 ≤ 6 + 2 * 3)
    × (IdleAdvance.is_back asleep.0.asleep ≡ false
        → (u : Idle.System) × IdleAdvance.Advance 2 asleep.0 u)
idle_returns_example = IdleReturns.idle_returns poked.1 refl asleep.1

print_formatted_context-eq-lines_around_example :
    print_formatted_context (some (11 ∷ 12 ∷ 13 ∷ 14 ∷ 15 ∷ [])) 3 1
    ≡ lines_around (11 ∷ 12 ∷ 13 ∷ 14 ∷ 15 ∷ []) 3 1
print_formatted_context-eq-lines_around_example =
    print_formatted_context-eq-lines_around (11 ∷ 12 ∷ 13 ∷ 14 ∷ 15 ∷ []) 3 1

-- Core 0 of two cores has seen that the only user thread has exited.
abbrev quiet :
    (s : Shutdown.System) × Shutdown.Reach 2 s × (s.mem.active ≡ 2) × (s.pc 0 ≡ Shutdown.quiescent)
quiet =
    let r1 : Shutdown.Reach 2 _ =
      Shutdown.later (Shutdown.start {active = 3} (omega arith))
        (Shutdown.step 0 (omega arith) Shutdown.enter) in
    let r2 : Shutdown.Reach 2 _ =
      Shutdown.later r1 (Shutdown.step 0 (omega arith) (Shutdown.exit (omega arith))) in
    (
      _,
      Shutdown.later r2 (Shutdown.step 0 (omega arith) (Shutdown.quiesce (omega arith))),
      refl,
      refl,
    )

Reach-IsOrderly_example :
    let s = quiet.0 in
    ((i : ℕ) → saw_quiet (s.pc i) ≡ true → s.mem.active ≤ 2)
    × (s.mem.shutdown ≡ true → s.mem.active ≤ 2)
    × ((i j : ℕ) → is_poking (s.pc i) ≡ true → is_poking (s.pc j) ≡ true → i ≡ j)
    × ((j : ℕ)
        → j < 2
        → s.mem.shutdown ≡ true
        → may_wait (s.pc j) ≡ true
        → (s.mem.pending j ≡ true) ⊎ ((i : ℕ) × (i < 2) × (pokes_from j (s.pc i) ≡ true)))
Reach-IsOrderly_example = Reach-IsOrderly quiet.1

abbrev won : (t : Shutdown.System) × ShutdownProgress.Run 2 quiet.0 1 t
won = (
  _,
  ShutdownProgress.more ShutdownProgress.none (Shutdown.step 0 (omega arith) (Shutdown.win refl)),
)

shutdown_finishes_example :
    (1 ≤ 2 * (2 + 6))
    × ((i : ℕ)
        → i < 2
        → ShutdownProgress.has_left (won.0.pc i) ≡ false
        → (u : Shutdown.System) × Shutdown.Step 2 won.0 u)
shutdown_finishes_example = ShutdownProgress.shutdown_finishes quiet.1 (omega arith) won.1
