-- ===== src/Base/Sums.antt =====
-- Sums over the first members of a family.
use Prim.Native.Nat.{ℕ, zero, suc, ◌+◌, ◌*◌, ◌≤◌, ◌<◌}
use mathlib.Core.Path.{◌≡◌, refl}
use mathlib.Core.Logic.{inl, inr}
use native.Mathlib.Omega.{arith}
use co_rtos.Base.Tests.{◌==◌, update, Bool-cases}

module _ {ℓ} {A : Type ℓ} (weight : A → ℕ) where
  pub sum_below : ℕ → (ℕ → A) → ℕ
  sum_below zero f = 0
  sum_below (suc n) f = weight (f n) + sum_below n f

  sum_below-outside :
      (n i : ℕ) (f : ℕ → A) (a : A) → n ≤ i → sum_below n (update f i a) ≡ sum_below n f
  unfolding sum_below
  sum_below-outside zero i f a h = refl
  sum_below-outside (suc n) i f a h = ground (arith, sum_below-outside n i f a)

  -- Lowering the weight of one member lowers the sum.
  pub sum_below-lt :
      (n i : ℕ) (f : ℕ → A) (a : A)
      → i < n
      → weight a < weight (f i)
      → sum_below n (update f i a) < sum_below n f
  unfolding sum_below
  sum_below-lt zero i f a lt h = absurd (omega arith)
  sum_below-lt (suc n) i f a lt h = elim (Bool-cases (n == i)) [
    | inl last ↦ ground (arith, sum_below-outside n i f a)
    | inr below ↦ ground (arith, sum_below-lt n i f a)
  ]

  -- A bound on each weight bounds the sum.
  pub sum_below-le :
      (bound : ℕ) → ((a : A) → weight a ≤ bound) → (n : ℕ) (f : ℕ → A) → sum_below n f ≤ n * bound
  unfolding sum_below
  sum_below-le bound small zero f = omega arith
  sum_below-le bound small (suc n) f = grind (arith, sum_below-le bound small n f, small (f n))
