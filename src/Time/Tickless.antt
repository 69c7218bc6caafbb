-- ===== src/Time/Tickless.antt =====
-- src/time/tickless/time_driver_tickless.cpp. The port's calls are values, in order; the interrupt
-- guard has no counterpart: each operation is one step.
pub mod Laws
use co_rtos.Base.{
  ℕ, ◌*◌, Ptr, Option, none, some, Bool, true, false, not, ◌&&◌, List, [], ◌∷◌, ◌++◌, replicate,
  ltb, ◌==◌, if◌then◌else◌, assert, ◌>>=◌, ◌>>◌,
}
use co_rtos.Time.Port.{PortCall, register_isr_handler, setup, irq_enable, irq_disable, arm, disarm}
use co_rtos.Time.Slots.{Slot, free_slot, max_scheduled_callbacks, take_id, fill, release, fire_from}
use co_rtos.Time.Types.{u64, max_time, ceil_div_u64}

pub record DriverState : Type 0 where
  pub initialised : Bool
  pub frequency_hz : ℕ
  pub next_id : ℕ
  pub started : Bool
  pub slots : List Slot

-- `DriverState{}`
abbrev pub fresh : DriverState
fresh = record {
  initialised = false;
  frequency_hz = 0;
  next_id = 1;
  started = false;
  slots = replicate max_scheduled_callbacks free_slot;
}

abbrev pub with_slots : DriverState → List Slot → DriverState
with_slots d ss = record d { slots = ss }

-- The loop of `rearm_locked`, with the earliest deadline so far.
unfoldable pub earliest_from : ℕ → List Slot → ℕ
earliest_from earliest [] = earliest
earliest_from earliest (s ∷ ss) =
    earliest_from (if not (s.id == 0) && ltb s.when earliest then s.when else earliest) ss

unfoldable pub rearm_locked : DriverState → PortCall
rearm_locked d =
    let earliest = earliest_from max_time d.slots in
    if earliest == max_time then disarm else arm earliest

-- `initialised` is not set.
unfoldable pub initialise : DriverState → ℕ → Option DriverState
initialise d frequency_hz = do
  assert (not d.initialised)
  some (record d { frequency_hz = frequency_hz })

unfoldable pub finalise : DriverState → Option DriverState
finalise d = do assert d.initialised; some fresh

-- The driver after the call, the id of the handle, and the calls of the port.
unfoldable pub schedule_at : DriverState → ℕ → Ptr → ℕ → DriverState × ℕ × List PortCall
schedule_at d when none arg = (d, 0, [])
schedule_at d when (some cb) arg =
    let (id, next) = take_id d.next_id in
    elim (fill (record { id = id; when = when; cb = some cb; arg = arg }) d.slots) [
      | none ↦ (d, 0, [])
      | some ss ↦
          let d' : DriverState = record d { next_id = next; slots = ss } in
          (d', id, rearm_locked d' ∷ [])
    ]

unfoldable pub cancel : DriverState → ℕ → DriverState × Bool × List PortCall
cancel d id = if id == 0 then (d, false, []) else elim (release id d.slots) [
  | none ↦ (d, false, [])
  | some ss ↦ (with_slots d ss, true, rearm_locked (with_slots d ss) ∷ [])
]

unfoldable pub from_milliseconds : DriverState → ℕ → ℕ
from_milliseconds d ms = ceil_div_u64 (u64 (ms * d.frequency_hz)) 1000

unfoldable pub from_microseconds : DriverState → ℕ → ℕ
from_microseconds d us = ceil_div_u64 (u64 (us * d.frequency_hz)) 1_000_000

unfoldable pub start : DriverState → DriverState × List PortCall
start d = if d.started then (d, []) else (
  record d { started = true },
  register_isr_handler ∷ setup 0 ∷ rearm_locked d ∷ irq_enable ∷ [],
)

unfoldable pub stop : DriverState → DriverState × List PortCall
stop d = if d.started then (record d { started = false }, irq_disable ∷ disarm ∷ []) else (d, [])

-- `on_timer_isr` at the port's time `now`: the driver, the slots that fired, and the port's calls.
-- A callback that calls the driver makes calls of the port that the last rearming supersedes; they
-- are not listed.
unfoldable pub on_timer_isr :
    (ℕ → ℕ → DriverState → DriverState) → ℕ → DriverState → DriverState × List Slot × List PortCall
on_timer_isr run now d =
    let r = fire_from (λ e. e.slots) with_slots run now max_scheduled_callbacks 0 d in
    (r.0, r.1, rearm_locked r.0 ∷ [])
