-- ===== src/Time/Port.antt =====
-- The calls that a time driver makes of the port layer, src/port/public_headers/port.h.
use co_rtos.Base.{ℕ}

pub data PortCall : Type 0 where
  register_isr_handler : PortCall
  setup : ℕ → PortCall
  irq_enable irq_disable : PortCall
  arm : ℕ → PortCall
  disarm : PortCall
