-- ===== src/Time.antt =====
-- The time subsystem of src/time: the types of time.hpp and three drivers behind one interface.
pub mod Types
pub mod Slots
pub mod Port
pub mod Periodic
pub mod Tickless
pub mod Simulation
