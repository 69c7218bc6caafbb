-- ===== src/Ready.antt =====
-- The ready queues of src/kernel/threading_subsystem.cpp: one FIFO of threads for each priority, and
-- a word with a bit for each FIFO that is not empty.
pub mod Queue
pub mod Matrix
