-- ===== src/Mpsc.antt =====
-- `MpscRingBuffer` of src/kernel/mpsc_ring_buffer.hpp, for a capacity of `2 ^ k`.
pub mod Window
pub mod Refine
pub mod Pop
pub mod Fifo
pub mod Shared
use co_rtos.Base.{
  ℕ, zero, suc, ◌+◌, ◌-◌, ◌%◌, ◌^◌, Option, none, some, Bool, true, false, ◌&&◌, List, [], ◌∷◌, ltb,
  leb, ◌==◌, if◌then◌else◌, update, bit_and,
}

-- `struct Cell`; raw storage is `none`.
pub record Cell (T : Type 0) : Type 0 where
  pub sequence : ℕ
  pub item : Option T

pub record Ring (T : Type 0) : Type 0 where
  pub head : ℕ
  pub tail : ℕ
  pub cells : ℕ → Cell T

-- `size_t` addition.
abbrev pub add_size : ℕ → ℕ → ℕ
add_size a b = (a + b) % 2 ^ 64

-- The sign of `static_cast<intptr_t>(a) - static_cast<intptr_t>(b)`. Two words compare as signed
-- numbers as they do after the sign bit is flipped.
pub data Sign : Type 0 where
  zero_diff negative positive : Sign

abbrev pub biased : ℕ → ℕ
biased a = (a + 2 ^ 63) % 2 ^ 64

unfoldable pub diff : ℕ → ℕ → Sign
diff a b = if a == b then zero_diff else if ltb (biased a) (biased b) then negative else positive

module _ (k : ℕ) where
  -- `position & mask`, with `mask = N - 1`.
  abbrev pub slot : ℕ → ℕ
  slot position = bit_and position (2 ^ k - 1)

  module _ {T : Type 0} where
    -- Cell `i` starts with sequence `i`.
    abbrev pub fresh : Ring T
    fresh = record { head = 0; tail = 0; cells = λ i. record { sequence = i; item = none } }

    unfoldable pub approx_size : Ring T → ℕ
    approx_size r = if leb r.tail r.head then r.head - r.tail else 0

    -- The claim of `position` and the publication of the item.
    abbrev pub publish : Ring T → ℕ → T → Ring T
    publish r position x = record r {
      head = add_size position 1;
      cells =
          update r.cells (slot position) (record { sequence = add_size position 1; item = some x });
    }

    -- The loop of `push`, run alone. Each entry of the list is one round, and `false` a round in
    -- which `compare_exchange_weak` fails for no reason; `none` is a push that still retries.
    unfoldable pub push_from : List Bool → ℕ → Ring T → T → Option (Ring T × Bool)
    push_from [] position r x = none
    push_from (strong ∷ rounds) position r x =
        let retry = push_from rounds r.head r x in
        elim (diff (r.cells (slot position)).sequence position) [
          | zero_diff ↦
              if r.head == position && strong then some (publish r position x, true) else retry
          | negative ↦ some (r, false)
          | positive ↦ retry
        ]

    unfoldable pub push : List Bool → Ring T → T → Option (Ring T × Bool)
    push rounds r x = push_from rounds r.head r x

    -- `out` is `none` where the call leaves it alone.
    unfoldable pub pop : Ring T → Ring T × Option T
    pop r =
        let position = r.tail in
        let cell = r.cells (slot position) in
        elim (diff cell.sequence (add_size position 1)) [
          | zero_diff ↦ (
            record r {
              tail = add_size position 1;
              cells =
                  update r.cells (slot position)
                    (record { sequence = add_size position (2 ^ k); item = none });
            },
            cell.item,
          )
          | _ ↦ (r, none)
        ]

    -- The loop of the destructor, with fuel for its rounds.
    unfoldable pub discard : ℕ → Ring T → Option (Ring T)
    discard zero r = none
    discard (suc fuel) r =
        let popped = pop r in
        let rest = discard fuel popped.0 in elim popped.1 [ none ↦ some popped.0 | some x ↦ rest ]
