-- ===== src/Time/Periodic.antt =====
-- src/time/periodic/time_driver_periodic.cpp. The port's counter and frequency are arguments. The
-- interrupt guard has no counterpart: each operation is one step.
pub mod Laws
use co_rtos.Base.{
  ℕ, ◌*◌, Ptr, Option, none, some, Bool, true, false, not, List, [], ◌∷◌, replicate, length, ltb,
  ◌==◌, if◌then◌else◌, is_some, assert, ◌>>=◌, ◌>>◌,
}
use co_rtos.Time.Port.{PortCall, register_isr_handler, setup, irq_enable, irq_disable}
use co_rtos.Time.Slots.{Slot, free_slot, max_scheduled_callbacks, take_id, fill, release, fire_from}
use co_rtos.Time.Types.{u64, ceil_div_u64}

pub record DriverState : Type 0 where
  pub initialised : Bool
  pub tick_frequency_hz : ℕ
  pub next_id : ℕ
  pub started : Bool
  pub slots : List Slot

-- `DriverState{}`
abbrev pub fresh : DriverState
fresh = record {
  initialised = false;
  tick_frequency_hz = 0;
  next_id = 1;
  started = false;
  slots = replicate max_scheduled_callbacks free_slot;
}

abbrev pub with_slots : DriverState → List Slot → DriverState
with_slots d ss = record d { slots = ss }

unfoldable pub initialise : DriverState → ℕ → Option DriverState
initialise d frequency_hz = do
  assert (not d.initialised)
  some (record d { initialised = true; tick_frequency_hz = frequency_hz })

unfoldable pub finalise : DriverState → Option DriverState
finalise d = do assert d.initialised; some fresh

-- The driver after the call, and the id of the handle. The id is taken only if a slot is free.
unfoldable pub schedule_at : DriverState → ℕ → Ptr → ℕ → DriverState × ℕ
schedule_at d when none arg = (d, 0)
schedule_at d when (some cb) arg =
    let (id, next) = take_id d.next_id in
    elim (fill (record { id = id; when = when; cb = some cb; arg = arg }) d.slots) [
      | none ↦ (d, 0)
      | some ss ↦ (record d { next_id = next; slots = ss }, id)
    ]

unfoldable pub cancel : DriverState → ℕ → DriverState × Bool
cancel d id =
    if id == 0
    then (d, false)
    else elim (release id d.slots) [ none ↦ (d, false) | some ss ↦ (with_slots d ss, true) ]

-- The conversions, at the port's frequency.
unfoldable pub from_milliseconds : ℕ → ℕ → ℕ
from_milliseconds port_freq ms = ceil_div_u64 (u64 (ms * port_freq)) 1000

unfoldable pub from_microseconds : ℕ → ℕ → ℕ
from_microseconds port_freq us = ceil_div_u64 (u64 (us * port_freq)) 1_000_000

-- With the calls of the port, in order.
unfoldable pub start : DriverState → Option (DriverState × List PortCall)
start d = if d.started then some (d, []) else do
  assert (ltb 0 d.tick_frequency_hz)
  some (
    record d { started = true },
    register_isr_handler ∷ setup d.tick_frequency_hz ∷ irq_enable ∷ [],
  )

unfoldable pub stop : DriverState → DriverState × List PortCall
stop d = if d.started then (record d { started = false }, irq_disable ∷ []) else (d, [])

-- `on_timer_isr` at the port's time `now`, with callbacks that run as `run` says.
unfoldable pub on_timer_isr :
    (ℕ → ℕ → DriverState → DriverState) → ℕ → DriverState → DriverState × List Slot
on_timer_isr run now d = fire_from (λ e. e.slots) with_slots run now max_scheduled_callbacks 0 d
