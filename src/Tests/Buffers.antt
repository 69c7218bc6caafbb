-- ===== src/Tests/Buffers.antt =====
-- The layout of a thread's buffer.
use co_rtos.Base.{some, ◌≡◌, arith}
use co_rtos.Layout.{Target, StackLayout, carve}
use co_rtos.Layout.Laws.{Carved, carve-Carved}

abbrev target : Target
target = record { tcb_size = 1024; tcb_align = 64; max_align = 16 }

carve-Carved_example :
    (r : StackLayout) × (carve target 4096 4096 100 ≡ some r) × Carved target 4096 4096 100 r
carve-Carved_example =
    carve-Carved 1024 6 4 4096 4096 100 (omega arith) (omega arith) (omega arith) (omega arith)
