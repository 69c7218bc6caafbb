-- ===== src/Wait/Pool/Laws.antt =====
-- What the pool promises: the mask names the free nodes, and an allocation takes the first.
use native.Mathlib.Nat.{pow-suc, one-le-pow}
use co_rtos.Base.{
  ℕ, zero, suc, ◌/◌, ◌+◌, ◌-◌, ◌^◌, ◌≤◌, ◌<◌, Ptr, Option, none, some, Bool, true, false, not, ltb,
  leb, ◌==◌, ==_iff, ◌&&◌, ◌||◌, bit_and, bit_or, ◌≡◌, refl, sym, ap, ◌∙◌, inl, inr, Bool-cases,
  arith, subst,
}
use co_rtos.Base.Bits.{
  bit_not, countr_zero, test_bit, test_bit-and, test_bit-or, test_bit-not, test_bit-pow,
  test_bit-zero, or_bound, and-le, pow_mono, Lowest, countr_zero-Lowest,
}
use co_rtos.Config.{max_wait_nodes}
use co_rtos.Wait.Nodes.{WaitNodes, invalid_index, reset}
use co_rtos.Wait.Pool.{Pool, taken, alloc, free}

-- The mask holds the free ones of the pool's nodes and nothing else.
pub record IsValid (p : Pool) (ns : WaitNodes) : Type 0 where
  pub bound : p.free_mask < 2 ^ max_wait_nodes
  pub bits : (i : ℕ) → i < max_wait_nodes → test_bit p.free_mask i ≡ not (ns.active (p.nodes + i))
  pub slots : (i : ℕ) → i < max_wait_nodes → ns.slot (p.nodes + i) ≡ i

no_bit_above : (w n i : ℕ) → n < 2 ^ w → w ≤ i → test_bit n i ≡ false
no_bit_above zero n i h le = ap (λ m. test_bit m i) (omega arith) ∙ test_bit-zero i
no_bit_above (suc w) n zero h le = absurd (omega arith)
no_bit_above (suc w) n (suc i) h le =
    no_bit_above w (n / 2) i (omega (arith, pow-suc 2 w)) (omega arith)

bit_fits : (k w : ℕ) → k < w → 2 ^ k < 2 ^ w
bit_fits k w lt = omega (arith, pow_mono (suc k) w lt, pow-suc 2 k, one-le-pow k 2)

clears :
    (m k i : ℕ)
    → k < 32
    → i < 32
    → test_bit (bit_and m (bit_not 32 (2 ^ k))) i ≡ (test_bit m i && not (i == k))
clears m k i kl il =
    test_bit-and i m (bit_not 32 (2 ^ k))
    ∙ ap (λ b. test_bit m i && b)
        (test_bit-not 32 i (2 ^ k) (bit_fits k 32 kl) il ∙ ap not (test_bit-pow i k))

raises : (m k i : ℕ) → test_bit (bit_or m (2 ^ k)) i ≡ (test_bit m i || (i == k))
raises m k i = test_bit-or i m (2 ^ k) ∙ ap (λ b. test_bit m i || b) (test_bit-pow i k)

at_node : (n i k : ℕ) → (n + i == (n + k)) ≡ (i == k)
at_node n i k = ground arith

taken-active :
    (ns : WaitNodes) (n i k group waitable index : ℕ)
    → (taken ns (n + k) group waitable index).active (n + i) ≡ (ns.active (n + i) || (i == k))
unfolding taken reset
taken-active ns n i k group waitable index = ground (arith, at_node n i k)

reset-active :
    (ns : WaitNodes) (n i k : ℕ)
    → (reset ns (n + k)).active (n + i) ≡ (ns.active (n + i) && not (i == k))
unfolding reset
reset-active ns n i k = ground (arith, at_node n i k)

pub below_byte : (m : ℕ) → m < 2 ^ max_wait_nodes → m < 2 ^ 32
below_byte m h = omega arith

pub active_of_bit : (m i : ℕ) (a b : Bool) → test_bit m i ≡ b → test_bit m i ≡ not a → a ≡ not b
active_of_bit m i true true e f = absurd (cc)
active_of_bit m i true false e f = refl
active_of_bit m i false true e f = refl
active_of_bit m i false false e f = absurd (cc)

-- The node that the mask's lowest bit names.
pub Lowest-node :
    (p : Pool) (ns : WaitNodes) (k : ℕ)
    → IsValid p ns
    → Lowest 32 p.free_mask k
    → (k < max_wait_nodes)
      × (ns.active (p.nodes + k) ≡ false)
      × ((j : ℕ) → j < k → ns.active (p.nodes + j) ≡ true)
Lowest-node p ns k v low = (
  inside,
  active_of_bit p.free_mask k _ true low.is_set (v.bits k inside),
  λ j lt.
      active_of_bit p.free_mask j _ false (low.clear_below j lt) (v.bits j (omega (arith, inside))),
)
  where
    inside : k < max_wait_nodes
    inside = elim (Bool-cases (ltb k max_wait_nodes)) [
      | inl lt ↦ ground arith
      | inr ge ↦
          absurd
            (clash _ low.is_set (no_bit_above max_wait_nodes p.free_mask k v.bound (ground arith)))
    ]
      where
        clash : (b : Bool) → b ≡ true → b ≡ false → ⊥
        clash b e f = cc

-- Masking a node out when it becomes active, and in when it becomes free.
pub clear-IsValid :
    (p : Pool) (ns : WaitNodes) (k group waitable index : ℕ)
    → IsValid p ns
    → k < max_wait_nodes
    → IsValid
        (record p { free_mask = bit_and p.free_mask (bit_not 32 (2 ^ k)) })
        (taken ns (p.nodes + k) group waitable index)
clear-IsValid p ns k group waitable index v lt = record {
  bound =
      omega (
        arith,
        and-le 32 p.free_mask (bit_not 32 (2 ^ k)) (below_byte p.free_mask v.bound),
        v.bound,
      );
  bits = λ i il.
      clears p.free_mask k i (omega (arith, lt)) (omega (arith, il))
      ∙ swap _ _ _ (v.bits i il)
      ∙ ap not (sym (taken-active ns p.nodes i k group waitable index));
  slots = unfold taken reset in v.slots;
}
  where
    swap : (b a e : Bool) → b ≡ not a → (b && not e) ≡ not (a || e)
    swap b true e h = rw h refl
    swap b false e h = rw h refl

pub raise-IsValid :
    (p : Pool) (ns : WaitNodes) (k : ℕ)
    → IsValid p ns
    → k < max_wait_nodes
    → IsValid (record p { free_mask = bit_or p.free_mask (2 ^ k) }) (reset ns (p.nodes + k))
raise-IsValid p ns k v lt = record {
  bound = or_bound max_wait_nodes p.free_mask (2 ^ k) v.bound (bit_fits k max_wait_nodes lt);
  bits = λ i il.
      raises p.free_mask k i
      ∙ swap _ _ _ (v.bits i il)
      ∙ ap not (sym (reset-active ns p.nodes i k));
  slots = unfold reset in v.slots;
}
  where
    swap : (b a e : Bool) → b ≡ not a → (b || e) ≡ not (a && not e)
    swap b true true h = rw h refl
    swap b true false h = rw h refl
    swap b false e h = rw h refl

-- What an allocation gives.
pub data Allocated (p : Pool) (ns : WaitNodes) (group waitable index : ℕ)
    : Option (Pool × WaitNodes × Ptr) → Type 0 where
  exhausted :
      ((i : ℕ) → i < max_wait_nodes → ns.active (p.nodes + i) ≡ true)
      → Allocated p ns group waitable index (some (p, ns, none))
  allocated :
      (i : ℕ) (p' : Pool)
      → i < max_wait_nodes
      → ns.active (p.nodes + i) ≡ false
      → ((j : ℕ) → j < i → ns.active (p.nodes + j) ≡ true)
      → IsValid p' (taken ns (p.nodes + i) group waitable index)
      → Allocated p ns group waitable index
          (some (p', taken ns (p.nodes + i) group waitable index, some (p.nodes + i)))

pub taken_out :
    (p : Pool) (ns : WaitNodes) (group waitable index : ℕ)
    → index < invalid_index
    → (p.free_mask == 0) ≡ false
    → ns.active (p.nodes + countr_zero 32 p.free_mask) ≡ false
    → alloc p ns group waitable index
      ≡ some (
        record p { free_mask = bit_and p.free_mask (bit_not 32 (2 ^ countr_zero 32 p.free_mask)) },
        taken ns (p.nodes + countr_zero 32 p.free_mask) group waitable index,
        some (p.nodes + countr_zero 32 p.free_mask),
      )
unfolding alloc
taken_out p ns group waitable index small some_bit idle =
    let ok : (index == invalid_index) ≡ false = ground arith in rw (ok, some_bit, idle) refl

alloc-empty :
    (p : Pool) (ns : WaitNodes) (group waitable index : ℕ)
    → index < invalid_index
    → (p.free_mask == 0) ≡ true
    → alloc p ns group waitable index ≡ some (p, ns, none)
unfolding alloc
alloc-empty p ns group waitable index small zero_mask =
    let ok : (index == invalid_index) ≡ false = ground arith in rw (ok, zero_mask) refl

-- With a valid mask and an index other than the invalid one, `alloc` does not fault. It gives the
-- first node that is not active, made active for the group, and the pool stays valid; or it gives
-- a null pointer and changes nothing, and then every node is active.
alloc-Allocated :
    (p : Pool) (ns : WaitNodes) (group waitable index : ℕ)
    → IsValid p ns
    → index < invalid_index
    → Allocated p ns group waitable index (alloc p ns group waitable index)
alloc-Allocated p ns group waitable index v small = elim (Bool-cases (p.free_mask == 0)) [
  | inl zero_mask ↦
      subst (Allocated p ns group waitable index)
        (sym (alloc-empty p ns group waitable index small zero_mask))
        (exhausted (λ i lt.
          active_of_bit p.free_mask i _ false
            (ap (λ m. test_bit m i) ((==_iff p.free_mask 0).0 zero_mask) ∙ test_bit-zero i)
            (v.bits i lt)))
  | inr some_bit ↦
      let low = countr_zero-Lowest 32 p.free_mask (below_byte p.free_mask v.bound) (ground arith) in
      let (inside, idle, below) = Lowest-node p ns _ v low in
      subst (Allocated p ns group waitable index)
        (sym (taken_out p ns group waitable index small some_bit idle))
        (allocated _ _ inside idle below (clear-IsValid p ns _ group waitable index v inside))
]

-- Freeing an active node of a valid pool does not fault, resets the node, and keeps the pool
-- valid.
free-IsValid :
    (p : Pool) (ns : WaitNodes) (i : ℕ)
    → IsValid p ns
    → i < max_wait_nodes
    → ns.active (p.nodes + i) ≡ true
    → (p' : Pool) × (free p ns (p.nodes + i) ≡ some (p', reset ns (p.nodes + i)))
      × IsValid p' (reset ns (p.nodes + i))
unfolding free
free-IsValid p ns i v lt act =
    (record p { free_mask = bit_or p.free_mask (2 ^ i) }, freed, raise-IsValid p ns i v lt)
  where
    offset : p.nodes + i - p.nodes ≡ i
    offset = omega arith

    inside : (leb p.nodes (p.nodes + i) && ltb i max_wait_nodes) ≡ true
    inside = ground arith

    own : (ns.slot (p.nodes + i) == i) ≡ true
    own = (==_iff _ i).1 (v.slots i lt)

    freed :
        free p ns (p.nodes + i)
        ≡ some (record p { free_mask = bit_or p.free_mask (2 ^ i) }, reset ns (p.nodes + i))
    freed = rw (offset, inside, act, own) refl
