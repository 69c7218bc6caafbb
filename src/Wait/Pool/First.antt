-- ===== src/Wait/Pool/First.antt =====
-- Which node an allocation takes, the first that is not active, and what freeing a node leaves.
use co_rtos.Base.{
  ℕ, ◌+◌, ◌-◌, ◌^◌, ◌<◌, leb, ltb, ◌&&◌, bit_or, some, Bool, true, false, ◌==◌, ==_iff, bit_and,
  ◌≡◌, refl, ap, ◌∙◌, subst, inl, inr, Bool-cases, arith,
}
use co_rtos.Base.Bits.{bit_not, countr_zero, test_bit, test_bit-zero, countr_zero-Lowest}
use co_rtos.Config.{max_wait_nodes}
use co_rtos.Wait.Nodes.{WaitNodes, invalid_index, reset}
use co_rtos.Wait.Pool.{Pool, taken, alloc, free}
use co_rtos.Wait.Pool.Laws.{
  IsValid, Lowest-node, clear-IsValid, taken_out, raise-IsValid, below_byte, active_of_bit,
}

-- What an allocation of node `k` leaves.
pub record Took (p p' : Pool) (ns : WaitNodes) (group waitable index k : ℕ) : Type 0 where
  pub gives :
      alloc p ns group waitable index
      ≡ some (p', taken ns (p.nodes + k) group waitable index, some (p.nodes + k))
  pub same : p'.nodes ≡ p.nodes
  pub valid : IsValid p' (taken ns (p.nodes + k) group waitable index)

clash : (b : Bool) → b ≡ true → b ≡ false → ⊥
clash b e f = cc

-- Two first idle nodes are one.
first_unique :
    (f : ℕ → Bool) (i k : ℕ)
    → f i ≡ false
    → ((j : ℕ) → j < i → f j ≡ true)
    → f k ≡ false
    → ((j : ℕ) → j < k → f j ≡ true)
    → i ≡ k
first_unique f i k idle below idle' below' = ground (arith, below k, below' i)

-- With a valid mask and an index other than the invalid one, an allocation takes the first node that is
-- not active.
pub alloc-Took :
    (p : Pool) (ns : WaitNodes) (group waitable index k : ℕ)
    → IsValid p ns
    → index < invalid_index
    → k < max_wait_nodes
    → ns.active (p.nodes + k) ≡ false
    → ((j : ℕ) → j < k → ns.active (p.nodes + j) ≡ true)
    → (p' : Pool) × Took p p' ns group waitable index k
alloc-Took p ns group waitable index k v small lt idle below =
    let some_bit : (p.free_mask == 0) ≡ false = elim (Bool-cases (p.free_mask == 0)) [
      | inr h ↦ h
      | inl zero_mask ↦ absurd (
          clash _
            (active_of_bit p.free_mask k _ false
              (ap (λ m. test_bit m k) ((==_iff p.free_mask 0).0 zero_mask) ∙ test_bit-zero k)
              (v.bits k lt))
            idle)
    ] in
    let low = countr_zero-Lowest 32 p.free_mask (below_byte p.free_mask v.bound) (ground arith) in
    let (inside, at, before) = Lowest-node p ns _ v low in
    let e : countr_zero 32 p.free_mask ≡ k =
      first_unique (λ j. ns.active (p.nodes + j)) (countr_zero 32 p.free_mask) k at before idle
        below in
    subst (λ i. (p' : Pool) × Took p p' ns group waitable index i) e
      (
        record p { free_mask = bit_and p.free_mask (bit_not 32 (2 ^ countr_zero 32 p.free_mask)) },
        record {
          gives = taken_out p ns group waitable index small some_bit at;
          same = refl;
          valid = clear-IsValid p ns _ group waitable index v inside;
        },
      )

-- What freeing node `k` leaves.
pub record Freed (p p' : Pool) (ns : WaitNodes) (k : ℕ) : Type 0 where
  pub gives : free p ns (p.nodes + k) ≡ some (p', reset ns (p.nodes + k))
  pub same : p'.nodes ≡ p.nodes
  pub valid : IsValid p' (reset ns (p.nodes + k))

pub free-Freed :
    (p : Pool) (ns : WaitNodes) (k : ℕ)
    → IsValid p ns
    → k < max_wait_nodes
    → ns.active (p.nodes + k) ≡ true
    → (p' : Pool) × Freed p p' ns k
unfolding free
free-Freed p ns k v lt act = (
  record p { free_mask = bit_or p.free_mask (2 ^ k) },
  record {
    gives = rw (offset, inside, act, own) refl;
    same = refl;
    valid = raise-IsValid p ns k v lt;
  },
)
  where
    offset : p.nodes + k - p.nodes ≡ k
    offset = omega arith

    inside : (leb p.nodes (p.nodes + k) && ltb k max_wait_nodes) ≡ true
    inside = ground arith

    own : (ns.slot (p.nodes + k) == k) ≡ true
    own = (==_iff _ k).1 (v.slots k lt)
