-- ===== src/Tests/Rings.antt =====
-- The ring buffer.
use co_rtos.Base.{
  ℕ, ◌+◌, ◌<◌, ◌≤◌, ◌^◌, ◌⊎◌, none, some, true, false, ◌≡◌, refl, List, [], ◌∷◌, arith,
}
use co_rtos.Mpsc.{Ring, fresh, publish, push, pop}
use co_rtos.Mpsc.Fifo.{
  put, take, Call, accepted, taken, ring_run, fifo_run, fifo_push, fifo_pop, ring_run-eq-fifo_run,
  fresh-Holds, capacity_one_loses,
}
use co_rtos.Mpsc.Refine.{publish-Holds}
use co_rtos.Mpsc.Window.{Holds}
use co_rtos.Mpsc
use co_rtos.Mpsc.Shared
use co_rtos.Mpsc.Shared.{start, later}
use co_rtos.Mpsc.Shared.Invariant.{Published, flies_at}
use co_rtos.Mpsc.Shared.Safety.{shared_ring_is_fifo}

-- Two cells, and one call too many.
abbrev calls : List (Call ℕ)
calls = put 5 ∷ put 6 ∷ put 7 ∷ take ∷ put 8 ∷ take ∷ take ∷ take ∷ []

replies :
    fifo_run 2 [] calls
    ≡ accepted true
      ∷ accepted true
      ∷ accepted false
      ∷ taken (some 5)
      ∷ accepted true
      ∷ taken (some 6)
      ∷ taken (some 8)
      ∷ taken none
      ∷ []
unfolding fifo_run fifo_push fifo_pop
replies = refl

ring_run-eq-fifo_run_example : ring_run 1 3 (fresh 1) calls ≡ some (fifo_run 2 [] calls)
ring_run-eq-fifo_run_example =
    ring_run-eq-fifo_run 1 calls 3 [] (omega arith) (fresh-Holds 1) (omega arith)

abbrev full_cell : Ring ℕ
full_cell = publish 0 (fresh 0) 0 5

full_cell-Holds : Holds 0 full_cell (5 ∷ [])
full_cell-Holds = publish-Holds 0 [] (fresh-Holds 0) (omega arith) 5 (omega arith)

capacity_one_loses_example :
    (r : Ring ℕ) × (push 0 (true ∷ []) full_cell 6 ≡ some (r, true)) × (pop 0 r ≡ (r, none))
capacity_one_loses_example = capacity_one_loses 5 6 [] full_cell-Holds (omega arith)

-- On a ring of two cells, producer 1 has claimed the cell behind that of producer 0, has published, and
-- the consumer takes the item of producer 0.
popped_one : (s : Shared.System) × Shared.Reach 1 s × (s.popped 0 ≡ some 7) × (s.ring.head ≡ 2)
unfolding Mpsc.diff
popped_one =
    let r1 : Shared.Reach 1 _ = later start (Shared.push 0 (omega arith) (Shared.load 7)) in
    let r2 : Shared.Reach 1 _ = later r1 (Shared.push 0 (omega arith) (Shared.match_free refl)) in
    let r3 : Shared.Reach 1 _ = later r2 (Shared.push 0 (omega arith) (Shared.claim refl)) in
    let r4 : Shared.Reach 1 _ = later r3 (Shared.push 1 (omega arith) (Shared.load 8)) in
    let r5 : Shared.Reach 1 _ = later r4 (Shared.push 1 (omega arith) (Shared.match_free refl)) in
    let r6 : Shared.Reach 1 _ = later r5 (Shared.push 1 (omega arith) (Shared.claim refl)) in
    let r7 : Shared.Reach 1 _ = later r6 (Shared.push 1 (omega arith) Shared.build) in
    let r8 : Shared.Reach 1 _ = later r7 (Shared.push 1 (omega arith) Shared.publish) in
    let r9 : Shared.Reach 1 _ = later r8 (Shared.push 0 (omega arith) Shared.build) in
    let r10 : Shared.Reach 1 _ = later r9 (Shared.push 0 (omega arith) Shared.publish) in
    let r11 : Shared.Reach 1 _ = later r10 (Shared.pop (Shared.find refl)) in
    (_, later r11 (Shared.pop Shared.take), refl, refl)

shared_ring_is_fifo_example :
    let s = popped_one.0 in
    ((p : ℕ) → p < s.ring.tail → s.popped p ≡ some (s.log p))
    × (s.ring.tail ≤ s.ring.head)
    × (s.ring.head ≤ s.ring.tail + 2 ^ 1)
    × ((p : ℕ)
        → s.ring.tail ≤ p
        → p < s.ring.head
        → Published 1 s.ring.cells s.log p ⊎ ((i : ℕ) × (flies_at p (s.producers i) ≡ true)))
    × ((i j p : ℕ) → flies_at p (s.producers i) ≡ true → flies_at p (s.producers j) ≡ true → i ≡ j)
shared_ring_is_fifo_example = shared_ring_is_fifo {k = 1} (omega arith) (omega arith) popped_one.1
