-- ===== src/Tests.antt =====
-- Runs of the definitions on concrete states, and the theorems at concrete inputs.
mod World
mod Queues
mod Rings
mod Cores
mod Waits
mod Blocks
mod Drivers
mod Buffers
mod Functions
mod Locks
mod Host
