-- ===== src/Wait.antt =====
-- The wait subsystem: src/kernel/wait_subsystem.hpp and src/kernel/waitable.cpp.
pub mod Nodes
pub mod Pool
pub mod Group
pub mod Waitable
pub mod Refs
pub mod Block
pub mod Visit
pub mod Until
