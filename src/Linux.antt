-- ===== src/Linux.antt =====
-- The Linux port, src/port/linux_boost/port_linux_boost.cpp. A core is an operating-system thread.
pub mod Interrupts
pub mod Clock
pub mod Cores
pub mod Idle
pub mod Panic
pub mod Shutdown
