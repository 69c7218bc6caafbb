-- ===== src/Kernel/Affinity.antt =====
-- `CoreAffinity` of src/kernel/public_headers/thread.hpp: a word with a bit for each core.
use native.Mathlib.Nat.{pow-suc, pow-le-pow_right, one-le-pow, mod-eq_of_lt}
use co_rtos.Base.Bits.{test_bit-or, test_bit-and, test_bit-pow}
use co_rtos.Base.{
  ℕ, ◌<◌, ◌%◌, ◌*◌, ◌≤◌, suc, subst, ◌^◌, bit_and, bit_or, ◌&&◌, ◌||◌, ◌==◌, ◌≡◌, ◌∙◌, ap, arith,
}
use co_rtos.Base.Bits.{test_bit}
use co_rtos.Kernel.{allows}

-- `operator|` and `operator&`
abbrev either_affinity : ℕ → ℕ → ℕ
either_affinity a b = bit_or a b

abbrev both_affinity : ℕ → ℕ → ℕ
both_affinity a b = bit_and a b

abbrev from_id : ℕ → ℕ
from_id core_id = 2 ^ core_id % 2 ^ 32

abbrev any_core : ℕ
any_core = 4294967295

below : (id : ℕ) → id < 32 → 2 ^ id % 2 ^ 32 ≡ 2 ^ id
below id lt = mod-eq_of_lt (
    double (2 ^ id)
      (subst (λ n. n ≤ 2 ^ 32) (pow-suc 2 id)
        (pow-le-pow_right (omega arith) {i = suc id} {j = 32} (omega arith)))
      (one-le-pow id 2 (omega arith)))
  where
    double : (n : ℕ) → n * 2 ≤ 2 ^ 32 → 1 ≤ n → n < 2 ^ 32
    double n h one = omega arith

-- A union allows the cores that one of the two masks allows, an intersection those that both allow;
-- and the mask of one of the 32 cores allows that core only.
allows-affinity :
    (a b core id : ℕ)
    → id < 32
    → (allows (either_affinity a b) core ≡ (allows a core || allows b core))
      × (allows (both_affinity a b) core ≡ (allows a core && allows b core))
      × (allows (from_id id) core ≡ (core == id))
allows-affinity a b core id lt = (
  test_bit-or core a b,
  test_bit-and core a b,
  ap (λ m. test_bit m core) (below id lt) ∙ test_bit-pow core id,
)
