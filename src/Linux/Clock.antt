-- ===== src/Linux/Clock.antt =====
-- The time port of src/port/linux_boost/port_linux_boost.cpp: the one clock that the cores share.
pub mod Arm
pub mod Tickless
use co_rtos.Base.{
  ℕ, ◌+◌, Ptr, none, some, Bool, true, false, List, [], ◌∷◌, ltb, ◌==◌, if◌then◌else◌,
}
use co_rtos.Time.Port.{PortCall, register_isr_handler, setup, irq_enable, irq_disable, arm, disarm}
use co_rtos.Time.Types.{u64, max_time}

pub record TimeState : Type 0 where
  pub irq_enabled : Bool
  pub now : ℕ
  pub armed_deadline : ℕ
  pub isr : Ptr
  pub isr_arg : Ptr

-- `time_state` as it is initialised.
abbrev pub initial : TimeState
initial = record {
  irq_enabled = false;
  now = 0;
  armed_deadline = max_time;
  isr = none;
  isr_arg = none;
}

-- The tick is the clock's own.
abbrev pub time_setup : ℕ → TimeState → TimeState
time_setup tick_hz s = s

abbrev pub time_now : TimeState → ℕ
time_now s = s.now

abbrev pub time_freq_hz : ℕ
time_freq_hz = 1_000_000

unfoldable pub time_reset : ℕ → TimeState → TimeState
time_reset t s = record s { now = t; armed_deadline = max_time }

unfoldable pub time_register_isr_handler : Ptr → Ptr → TimeState → TimeState
time_register_isr_handler h arg s = record s { isr_arg = arg; isr = h }

unfoldable pub time_irq_enable : TimeState → TimeState
time_irq_enable s = record s { irq_enabled = true }

unfoldable pub time_irq_disable : TimeState → TimeState
time_irq_disable s = record s { irq_enabled = false }

-- What happens to the armed deadline between a load and the compare-exchange that follows it: nothing,
-- nothing and yet the exchange fails, or another core stores a value.
pub data Interference : Type 0 where
  undisturbed spurious : Interference
  store : ℕ → Interference

-- The deadline in memory at the exchange, if the load gave `cur`.
abbrev pub found : Interference → ℕ → ℕ
found (store v) cur = v
found _ cur = cur

abbrev pub succeeds : Interference → ℕ → Bool
succeeds spurious cur = false
succeeds i cur = found i cur == cur

-- The loop of `cortos_port_time_arm`, from the deadline last loaded to the one it leaves in memory.
-- The list says what happens before each exchange; where it ends, the last one is undisturbed.
unfoldable pub arm_loop : List Interference → ℕ → ℕ → ℕ
arm_loop [] deadline cur = if ltb deadline cur then deadline else cur
arm_loop (i ∷ is) deadline cur =
    let again = arm_loop is deadline (found i cur) in
    let attempt = if succeeds i cur then deadline else again in
    if ltb deadline cur then attempt else cur

unfoldable pub time_arm : List Interference → ℕ → TimeState → TimeState
time_arm is deadline s = record s { armed_deadline = arm_loop is deadline s.armed_deadline }

unfoldable pub time_disarm : TimeState → TimeState
time_disarm s = record s { armed_deadline = max_time }

-- The sum wraps.
unfoldable pub time_advance : ℕ → TimeState → TimeState
time_advance delta s = record s { now = u64 (s.now + delta) }

-- A call of the port that a driver makes; `handler` is what it registers. No other core interferes.
unfoldable pub perform : Ptr → Ptr → PortCall → TimeState → TimeState
perform handler arg register_isr_handler s = time_register_isr_handler handler arg s
perform handler arg (setup tick_hz) s = time_setup tick_hz s
perform handler arg irq_enable s = time_irq_enable s
perform handler arg irq_disable s = time_irq_disable s
perform handler arg (arm deadline) s = time_arm [] deadline s
perform handler arg disarm s = time_disarm s

unfoldable pub perform_all : Ptr → Ptr → List PortCall → TimeState → TimeState
perform_all handler arg [] s = s
perform_all handler arg (c ∷ cs) s = perform_all handler arg cs (perform handler arg c s)
