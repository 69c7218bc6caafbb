-- ===== src/Mpsc/Shared.antt =====
-- `push` and `pop` of src/kernel/mpsc_ring_buffer.hpp, of any number of producers and one consumer,
-- interleaved in any order. A step is one access of the head or of a sequence, or a stretch of code
-- on what no other thread accesses meanwhile. Items are numbers.
pub mod Invariant
pub mod Producers
pub mod Pushes
pub mod Pops
pub mod Safety
use co_rtos.Base.{ℕ, ◌+◌, ◌≤◌, ◌<◌, ◌^◌, Option, none, some, update, ◌≡◌, ◌≢◌}
use co_rtos.Mpsc.{Cell, Ring, fresh, slot, add_size, diff, Sign, zero_diff, negative, positive}

-- A producer, with its local `position` and its item: outside, before it loads the sequence, before
-- the compare-exchange, before the item is built in the cell, and before the sequence is stored.
pub data Producer : Type 0 where
  outside : Producer
  loaded matched claimed built : ℕ → ℕ → Producer

-- The consumer: outside, with an item found at its position, and before the cell is marked free.
pub data Consumer : Type 0 where
  resting : Consumer
  found taken : ℕ → Consumer

abbrev pub put_cell : (k : ℕ) → Ring ℕ → ℕ → Cell ℕ → Ring ℕ
put_cell k r position c = record r { cells = update r.cells (slot k position) c }

-- A step of a producer: the ring, and the producer.
pub data Push (k : ℕ) (r : Ring ℕ) : Producer → Ring ℕ → Producer → Type 0 where
  load : (x : ℕ) → Push k r outside r (loaded r.head x)
  match_free :
      {position x : ℕ}
      → diff (r.cells (slot k position)).sequence position ≡ zero_diff
      → Push k r (loaded position x) r (matched position x)
  full :
      {position x : ℕ}
      → diff (r.cells (slot k position)).sequence position ≡ negative
      → Push k r (loaded position x) r outside
  reload :
      {position x : ℕ}
      → diff (r.cells (slot k position)).sequence position ≡ positive
      → Push k r (loaded position x) r (loaded r.head x)
  lose : {position x : ℕ} → Push k r (matched position x) r (loaded r.head x)
  claim :
      {position x : ℕ}
      → r.head ≡ position
      → Push k r (matched position x) (record r { head = add_size position 1 }) (claimed position x)
  build :
      {position x : ℕ}
      → Push k r
          (claimed position x)
          (put_cell k r position (record (r.cells (slot k position)) { item = some x }))
          (built position x)
  publish :
      {position x : ℕ}
      → Push k r
          (built position x)
          (put_cell k r position
            (record (r.cells (slot k position)) { sequence = add_size position 1 }))
          outside

-- A step of the consumer; the last component is what it takes.
pub data Pop (k : ℕ) (r : Ring ℕ) : Consumer → Ring ℕ → Consumer → Option ℕ → Type 0 where
  find :
      diff (r.cells (slot k r.tail)).sequence (add_size r.tail 1) ≡ zero_diff
      → Pop k r resting r (found r.tail) none
  miss :
      diff (r.cells (slot k r.tail)).sequence (add_size r.tail 1) ≢ zero_diff
      → Pop k r resting r resting none
  take :
      {position : ℕ}
      → Pop k r
          (found position)
          (put_cell k
            (record r { tail = add_size position 1 })
            position
            (record (r.cells (slot k position)) { item = none }))
          (taken position)
          (r.cells (slot k position)).item
  release :
      {position : ℕ}
      → Pop k r
          (taken position)
          (put_cell k r position
            (record (r.cells (slot k position)) { sequence = add_size position (2 ^ k) }))
          resting
          none

-- `log p` is the item of the push that claimed position `p`, and `popped p` what the pop of that
-- position took; the code keeps neither.
pub record System : Type 0 where
  pub ring : Ring ℕ
  pub producers : ℕ → Producer
  pub consumer : Consumer
  pub log : ℕ → ℕ
  pub popped : ℕ → Option ℕ

-- The log after a step from one producer's state to another.
abbrev pub logged : Producer → (ℕ → ℕ) → ℕ → ℕ
logged (claimed position x) log = update log position x
logged _ log = log

abbrev pub taken_at : Consumer → Option ℕ → (ℕ → Option ℕ) → ℕ → Option ℕ
taken_at (taken position) x popped = update popped position x
taken_at _ x popped = popped

-- The counters stay so far below the sign bit that no sequence reaches it.
pub data Step (k : ℕ) (s : System) : System → Type 0 where
  push :
      (i : ℕ) {r : Ring ℕ} {p : Producer}
      → s.ring.head + 2 ^ k < 2 ^ 63
      → Push k s.ring (s.producers i) r p
      → Step k s (record s { ring = r; producers = update s.producers i p; log = logged p s.log })
  pop :
      {r : Ring ℕ} {c : Consumer} {x : Option ℕ}
      → Pop k s.ring s.consumer r c x
      → Step k s (record s { ring = r; consumer = c; popped = taken_at c x s.popped })

abbrev pub begin : (k : ℕ) → System
begin k = record {
  ring = fresh k;
  producers = λ i. outside;
  consumer = resting;
  log = λ p. 0;
  popped = λ p. none;
}

pub data Reach (k : ℕ) : System → Type 0 where
  start : Reach k (begin k)
  later : {s t : System} → Reach k s → Step k s t → Reach k t
