-- ===== src/Mpsc/Shared/Safety.antt =====
-- What holds of the items in every reachable state.
use native.Mathlib.Nat.{mod-eq_of_lt}
use co_rtos.Base.Bits.{bit_and_mask}
use co_rtos.Base.{ℕ, ◌+◌, ◌≤◌, ◌<◌, ◌^◌, none, some, true, ◌⊎◌, ◌≡◌, refl, ◌∙◌, arith}
use co_rtos.Mpsc.Shared.{outside, resting, System, push, pop, Reach, start, later}
use co_rtos.Mpsc.Shared.Invariant.{flies_at, Published, Inv, low-le}
use co_rtos.Mpsc.Shared.Pushes.{Push-Inv}
use co_rtos.Mpsc.Shared.Pops.{Pop-Inv}

module _ {k : ℕ} (wide : 2 ≤ 2 ^ k) (small : 2 ^ k ≤ 2 ^ 63) where
  begin-Inv :
      Inv k 0 0
        (λ i. record { sequence = i; item = none })
        (λ i. outside)
        resting
        (λ p. 0)
        (λ p. none)
  begin-Inv = record {
    behind = omega arith;
    ahead = omega arith;
    young = omega arith;
    full = λ p lo hi. absurd (omega arith);
    free = λ p lo hi. bit_and_mask k p ∙ mod-eq_of_lt {n = p} {m = 2 ^ k} (omega arith);
    relies = λ i. tt;
    apart = λ i j p h. cc;
    takes = tt;
    got = λ p lt. absurd (omega arith);
  }

  Reach-Inv :
      {s : System}
      → Reach k s
      → Inv k s.ring.head s.ring.tail s.ring.cells s.producers s.consumer s.log s.popped
  Reach-Inv start = begin-Inv
  Reach-Inv (later {s} r (push i room mv)) =
      Push-Inv wide (Reach-Inv r) i (s.producers i) room refl mv
  Reach-Inv (later r (pop mv)) = Pop-Inv (Reach-Inv r) mv

  -- With two cells or more, any number of producers and one consumer, interleaved in any order,
  -- as long as the counters stay below the sign bit: in every reachable state each position that
  -- has been popped gave the item of the push that claimed it, so that no item is lost, taken
  -- twice, or taken out of the order of the claims; at most as many positions are claimed and not
  -- popped as there are cells; each of these is published or a producer is about to write it; and
  -- no two producers write to the same position.
  pub shared_ring_is_fifo :
      {s : System}
      → Reach k s
      → ((p : ℕ) → p < s.ring.tail → s.popped p ≡ some (s.log p))
        × (s.ring.tail ≤ s.ring.head)
        × (s.ring.head ≤ s.ring.tail + 2 ^ k)
        × ((p : ℕ)
            → s.ring.tail ≤ p
            → p < s.ring.head
            → Published k s.ring.cells s.log p ⊎ ((i : ℕ) × (flies_at p (s.producers i) ≡ true)))
        × ((i j p : ℕ)
            → flies_at p (s.producers i) ≡ true
            → flies_at p (s.producers j) ≡ true
            → i ≡ j)
  shared_ring_is_fifo {s} reach =
      let inv = Reach-Inv reach in
      (
        inv.got,
        inv.behind,
        omega (
          arith,
          inv.ahead,
          low-le k s.ring.head s.ring.tail s.ring.cells s.log s.consumer inv.takes,
        ),
        inv.full,
        inv.apart,
      )
