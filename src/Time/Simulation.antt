-- ===== src/Time/Simulation.antt =====
-- src/time/simulation/time_driver_simulation.cpp. The driver is one object behind a pointer, null
-- until `initialise`; an assertion on the pointer is the `Option` of the caller's state. The mutex
-- has no counterpart: each operation is one step. The start and the
-- end of the real-time thread are calls of the host, and the host's clock an argument.
pub mod Laws
use co_rtos.Base.{
  ℕ, ◌+◌, ◌-◌, ◌*◌, ◌/◌, Ptr, Option, none, some, Bool, true, false, not, ◌&&◌, List, [], ◌∷◌, ◌++◌,
  leb, ◌==◌, if◌then◌else◌, assert, ◌>>=◌, ◌>>◌,
}
use co_rtos.Time.Slots.{take_id, invoke}
use co_rtos.Time.Types.{u64}

-- `sim::Event`
pub record Event : Type 0 where
  pub id : ℕ
  pub when : ℕ
  pub cb : Ptr
  pub arg : ℕ
  pub cancelled : Bool

pub data Mode : Type 0 where
  real_time virtual_time : Mode

pub record DriverState : Type 0 where
  pub mode : Mode
  pub tick_frequency_hz : ℕ
  pub next_id : ℕ
  pub events : List Event
  pub running : Bool
  pub virtual_now : ℕ
  pub realtime_epoch : ℕ
  pub started : Bool

-- `new DriverState`, with the frequency.
abbrev pub fresh : ℕ → DriverState
fresh f = record {
  mode = virtual_time;
  tick_frequency_hz = f;
  next_id = 1;
  events = [];
  running = false;
  virtual_now = 0;
  realtime_epoch = 0;
  started = false;
}

abbrev pub with_events : DriverState → List Event → DriverState
with_events d es = record d { events = es }

abbrev pub is_virtual : DriverState → Bool
is_virtual d = elim d.mode [ real_time ↦ false | virtual_time ↦ true ]

-- The pointer `ds`: null, an object, or the address of a deleted one.
pub data Pointer : Type 0 where
  null dangling : Pointer
  object : DriverState → Pointer

unfoldable pub initialise : Pointer → ℕ → Option Pointer
initialise null frequency_hz = some (object (fresh frequency_hz))
initialise dangling frequency_hz = none
initialise (object d) frequency_hz = none

-- The object is deleted and the pointer keeps its address.
unfoldable pub finalise : Pointer → Option Pointer
finalise null = none
finalise dangling = none
finalise (object d) = some dangling

unfoldable pub schedule_at : DriverState → ℕ → Ptr → ℕ → DriverState × ℕ
schedule_at d when none arg = (d, 0)
schedule_at d when (some cb) arg =
    let (id, next) = take_id d.next_id in
    let e : Event = record { id = id; when = when; cb = some cb; arg = arg; cancelled = false } in
    (record d { next_id = next; events = d.events ++ e ∷ [] }, id)

-- The loop of `cancel`; `none` where no event matches.
unfoldable pub mark : ℕ → List Event → Option (List Event)
mark id [] = none
mark id (e ∷ es) =
    let rest = mark id es in
    if (e.id == id) && not e.cancelled
    then some (record e { cancelled = true } ∷ es)
    else elim rest [ none ↦ none | some fs ↦ some (e ∷ fs) ]

unfoldable pub cancel : DriverState → ℕ → DriverState × Bool
cancel d id =
    if id == 0
    then (d, false)
    else elim (mark id d.events) [ none ↦ (d, false) | some es ↦ (with_events d es, true) ]

abbrev pub is_due : ℕ → Event → Bool
is_due now e = not (e.id == 0) && not e.cancelled && leb e.when now

-- The locked part of `fire_due_callbacks`: copies of the due events, and the events kept.
unfoldable pub collect : ℕ → List Event → List Event × List Event
collect now [] = ([], [])
collect now (e ∷ es) =
    let rest = collect now es in
    if is_due now e
    then (e ∷ rest.0, rest.1)
    else if e.cancelled
    then rest
    else (rest.0, e ∷ rest.1)

-- The callbacks of the copies, each of which may change the driver.
unfoldable pub run_all :
    (ℕ → ℕ → DriverState → DriverState) → List Event → DriverState → DriverState
run_all run [] d = d
run_all run (e ∷ es) d = run_all run es (invoke run e.cb e.arg d)

-- The driver after `fire_due_callbacks`, and the events that fired.
unfoldable pub fire_due_callbacks :
    (ℕ → ℕ → DriverState → DriverState) → ℕ → DriverState → DriverState × List Event
fire_due_callbacks run now d =
    let (due, kept) = collect now d.events in (run_all run due (with_events d kept), due)

-- `clock` is what the host's steady clock reads, in nanoseconds; a negative difference counts as 0.
unfoldable pub realtime_now_ticks : ℕ → DriverState → ℕ
realtime_now_ticks clock d =
    if d.started
    then u64 (u64 (clock - d.realtime_epoch) * d.tick_frequency_hz) / 1_000_000_000
    else 0

-- `now` of the driver.
unfoldable pub time_now : ℕ → DriverState → ℕ
time_now clock d = if is_virtual d then d.virtual_now else realtime_now_ticks clock d

unfoldable pub on_timer_isr :
    (ℕ → ℕ → DriverState → DriverState) → ℕ → DriverState → DriverState × List Event
on_timer_isr run clock d = fire_due_callbacks run (time_now clock d) d

-- The rounds of the real-time thread: before each, what the other threads do while it sleeps, and then
-- the host's clock. It ends with the first round that finds it stopped. The events that fired in each
-- round are given in order.
unfoldable pub realtime_thread_main :
    (ℕ → ℕ → DriverState → DriverState)
    → List ((DriverState → DriverState) × ℕ)
    → DriverState
    → DriverState × List (List Event)
realtime_thread_main run [] d = (d, [])
realtime_thread_main run (round ∷ rounds) d =
    let fired = on_timer_isr run round.1 (round.0 d) in
    let rest = realtime_thread_main run rounds fired.0 in
    if d.running then (rest.0, fired.1 ∷ rest.1) else (d, [])

unfoldable pub advance_to :
    (ℕ → ℕ → DriverState → DriverState) → ℕ → ℕ → DriverState → Option (DriverState × List Event)
advance_to run clock tp d = do
  assert (is_virtual d)
  let target = if leb d.virtual_now tp then tp else d.virtual_now
  some (on_timer_isr run clock (record d { virtual_now = target }))

unfoldable pub advance_by :
    (ℕ → ℕ → DriverState → DriverState) → ℕ → ℕ → DriverState → Option (DriverState × List Event)
advance_by run clock delta d = do
  assert (is_virtual d)
  advance_to run clock (u64 (d.virtual_now + delta)) d

unfoldable pub set_mode : Mode → DriverState → Option DriverState
set_mode m d = do assert (not d.running); some (record d { mode = m })

unfoldable pub reset : ℕ → DriverState → Option DriverState
reset tp d = do
  assert (not d.running)
  some
      (record d { events = []; next_id = 1; virtual_now = tp; started = false; realtime_epoch = 0 })

unfoldable pub from_milliseconds : DriverState → ℕ → ℕ
from_milliseconds d ms = u64 (u64 (ms * d.tick_frequency_hz) + 999) / 1000

unfoldable pub from_microseconds : DriverState → ℕ → ℕ
from_microseconds d us = u64 (u64 (us * d.tick_frequency_hz) + 999_999) / 1_000_000

-- What a start or a stop does with the thread of the real-time mode.
pub data ThreadCall : Type 0 where
  no_call spawn join : ThreadCall

unfoldable pub start : ℕ → DriverState → DriverState × ThreadCall
start clock d =
    let s : DriverState = record d { started = true } in
    if is_virtual d
    then (s, no_call)
    else if d.running
    then (s, no_call)
    else (record s { running = true; realtime_epoch = clock }, spawn)

unfoldable pub stop : DriverState → DriverState × ThreadCall
stop d =
    if is_virtual d
    then (d, no_call)
    else if d.running
    then (record d { running = false }, join)
    else (d, no_call)

abbrev pub get_mode : DriverState → Mode
get_mode d = d.mode
