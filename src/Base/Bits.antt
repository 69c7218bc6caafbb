-- ===== src/Base/Bits.antt =====
-- Bits of native numbers: the laws of `|`, `&`, `~` and `std::countr_zero` at variables.
use Prim.Native.Nat.{
  ℕ, zero, suc, ◌+◌, ◌-◌, ◌*◌, ◌/◌, ◌%◌, ◌^◌, ◌≤◌, ◌<◌, min, max, bit_and, bit_or, digits,
  bit_and-bitwise, bit_or-bitwise,
}
use mathlib.Core.Path.{◌≡◌, refl, ap, ◌∙◌}
use mathlib.Core.Bool.{Bool, true, false, not, ◌&&◌, ◌||◌}
use native.Mathlib.Omega.{arith}
use native.Mathlib.Nat.{
  le_refl, pow-suc, one-le-pow, mod-lt, mod-eq_of_lt, div-add-mod, mul-add-mod_self_right,
}
use mathlib.Core.Logic.{inl, inr}
use co_rtos.Base.Tests.{◌==◌, if◌then◌else◌, Bool-cases}

-- The fuel of the digit recursion does not matter once it reaches the first operand.
enough_digits :
    (z : ℕ → ℕ) (f : ℕ → ℕ → ℕ) (n m a b : ℕ) → a ≤ n → a ≤ m → digits z f n a b ≡ digits z f m a b
enough_digits z f zero zero zero b p q = refl
enough_digits z f zero zero (suc a) b p q = absurd (omega arith)
enough_digits z f zero (suc m) zero b p q = refl
enough_digits z f zero (suc m) (suc a) b p q = absurd (omega arith)
enough_digits z f (suc n) zero zero b p q = refl
enough_digits z f (suc n) zero (suc a) b p q = absurd (omega arith)
enough_digits z f (suc n) (suc m) zero b p q = refl
enough_digits z f (suc n) (suc m) (suc a) b p q =
    ap (λ (t : ℕ). t * 2 + f (suc a % 2) (b % 2))
      (enough_digits z f n m (suc a / 2) (b / 2) (omega arith) (omega arith))

bit_or_digit : (a b : ℕ) → bit_or a b ≡ bit_or (a / 2) (b / 2) * 2 + max (a % 2) (b % 2)
bit_or_digit zero b = simp bit_or-bitwise (omega arith)
bit_or_digit (suc a) b = simp bit_or-bitwise (
    omega (
      arith,
      enough_digits (λ y. y) max a (suc a / 2) (suc a / 2) (b / 2) (omega arith) (le_refl _),
    ))

bit_and_digit : (a b : ℕ) → bit_and a b ≡ bit_and (a / 2) (b / 2) * 2 + min (a % 2) (b % 2)
bit_and_digit zero b = simp bit_and-bitwise (omega arith)
bit_and_digit (suc a) b = simp bit_and-bitwise (
    omega (
      arith,
      enough_digits (λ y. 0) min a (suc a / 2) (suc a / 2) (b / 2) (omega arith) (le_refl _),
    ))

-- Bit `i` of `n`.
abbrev pub test_bit : ℕ → ℕ → Bool
test_bit n zero = n % 2 == 1
test_bit n (suc i) = test_bit (n / 2) i

-- `~x` on a word of `w` bits.
abbrev pub bit_not : ℕ → ℕ → ℕ
bit_not w x = 2 ^ w - 1 - x

-- `std::countr_zero` on a word of `w` bits.
unfoldable pub countr_zero : ℕ → ℕ → ℕ
countr_zero zero n = 0
countr_zero (suc w) n = if n % 2 == 1 then 0 else suc (countr_zero w (n / 2))

-- `std::popcount` on a word of `w` bits.
unfoldable pub popcount : ℕ → ℕ → ℕ
popcount zero n = 0
popcount (suc w) n = n % 2 + popcount w (n / 2)

half-or : (a b : ℕ) → bit_or a b / 2 ≡ bit_or (a / 2) (b / 2)
half-or a b = omega (arith, bit_or_digit a b)

half-and : (a b : ℕ) → bit_and a b / 2 ≡ bit_and (a / 2) (b / 2)
half-and a b = omega (arith, bit_and_digit a b)

pub test_bit-or : (i a b : ℕ) → test_bit (bit_or a b) i ≡ (test_bit a i || test_bit b i)
test_bit-or zero a b = ground (arith, bit_or_digit a b)
test_bit-or (suc i) a b = rw (half-or a b) (test_bit-or i (a / 2) (b / 2))

pub test_bit-and : (i a b : ℕ) → test_bit (bit_and a b) i ≡ (test_bit a i && test_bit b i)
test_bit-and zero a b = ground (arith, bit_and_digit a b)
test_bit-and (suc i) a b = rw (half-and a b) (test_bit-and i (a / 2) (b / 2))

pub test_bit-zero : (i : ℕ) → test_bit 0 i ≡ false
test_bit-zero zero = refl
test_bit-zero (suc i) = test_bit-zero i

half-pow : (p : ℕ) → 2 ^ suc p / 2 ≡ 2 ^ p
half-pow p = omega (arith, pow-suc 2 p)

pub test_bit-pow : (i p : ℕ) → test_bit (2 ^ p) i ≡ (i == p)
test_bit-pow zero zero = refl
test_bit-pow (suc i) zero = test_bit-zero i ∙ ground arith
test_bit-pow zero (suc p) = ground (arith, pow-suc 2 p)
test_bit-pow (suc i) (suc p) = rw (half-pow p) (test_bit-pow i p ∙ ground arith)

half-not : (w x : ℕ) → x < 2 ^ suc w → bit_not (suc w) x / 2 ≡ bit_not w (x / 2)
half-not w x h = omega (arith, pow-suc 2 w)

pub test_bit-not : (w i x : ℕ) → x < 2 ^ w → i < w → test_bit (bit_not w x) i ≡ not (test_bit x i)
test_bit-not zero i x h lt = elim lt [ ]
test_bit-not (suc w) zero x h lt = ground (arith, pow-suc 2 w)
test_bit-not (suc w) (suc i) x h lt =
    rw (half-not w x h) (test_bit-not w i (x / 2) (omega (arith, pow-suc 2 w)) (omega arith))

pub or_bound : (w a b : ℕ) → a < 2 ^ w → b < 2 ^ w → bit_or a b < 2 ^ w
or_bound zero zero zero h k = omega arith
or_bound zero zero (suc b) h k = absurd (omega arith)
or_bound zero (suc a) b h k = absurd (omega arith)
or_bound (suc w) a b h k = omega (
  arith,
  bit_or_digit a b,
  pow-suc 2 w,
  or_bound w (a / 2) (b / 2) (omega (arith, pow-suc 2 w)) (omega (arith, pow-suc 2 w)),
)

pub and-le : (w a b : ℕ) → a < 2 ^ w → bit_and a b ≤ a
and-le zero zero b h = omega (arith, bit_and-bitwise 0 b)
and-le zero (suc a) b h = absurd (omega arith)
and-le (suc w) a b h =
    omega (arith, bit_and_digit a b, and-le w (a / 2) (b / 2) (omega (arith, pow-suc 2 w)))

-- The lowest set bit of a word that is not zero.
pub record Lowest (w n k : ℕ) : Type 0 where
  pub inside : k < w
  pub is_set : test_bit n k ≡ true
  pub clear_below : (j : ℕ) → j < k → test_bit n j ≡ false

pub countr_zero-Lowest : (w n : ℕ) → n < 2 ^ w → 0 < n → Lowest w n (countr_zero w n)
unfolding countr_zero
countr_zero-Lowest zero n h p = absurd (omega arith)
countr_zero-Lowest (suc w) n h p = elim (Bool-cases (n % 2 == 1)) [
  | inl odd ↦
      rw odd (record { inside = omega arith; is_set = odd; clear_below = λ j l. elim l [ ] })
  | inr even ↦
      rw even (step even (countr_zero-Lowest w (n / 2) (omega (arith, pow-suc 2 w)) (ground arith)))
]
  where
    step :
        (n % 2 == 1) ≡ false
        → Lowest w (n / 2) (countr_zero w (n / 2))
        → Lowest (suc w) n (suc (countr_zero w (n / 2)))
    step even r = record { inside = omega arith; is_set = r.is_set; clear_below = below }
      where
        below : (j : ℕ) → j < suc (countr_zero w (n / 2)) → test_bit n j ≡ false
        below zero l = even
        below (suc j) l = r.clear_below j (omega arith)

and-zero : (n a : ℕ) → a ≤ n → bit_and a 0 ≡ 0
and-zero zero zero h = refl
and-zero zero (suc a) h = absurd (omega arith)
and-zero (suc n) zero h = refl
and-zero (suc n) (suc a) h =
    omega (arith, bit_and_digit (suc a) 0, and-zero n (suc a / 2) (omega arith))

half-mod : (k a : ℕ) → a % 2 ^ suc k ≡ a / 2 % 2 ^ k * 2 + a % 2
half-mod k a =
    ap (λ (t : ℕ). t % 2 ^ suc k) split
    ∙ mul-add-mod_self_right q (2 ^ suc k) s
    ∙ mod-eq_of_lt
        (omega (arith, pow-suc 2 k, one-le-pow k 2, mod-lt (a / 2) (one-le-pow k 2 (omega arith))))
  where
    q : ℕ
    q = a / 2 / 2 ^ k

    s : ℕ
    s = a / 2 % 2 ^ k * 2 + a % 2

    split : a ≡ q * 2 ^ suc k + s
    split = omega (arith, div-add-mod (a / 2) (2 ^ k), ap (λ (t : ℕ). q * t) (pow-suc 2 k))

pub pow_mono : (k w : ℕ) → k ≤ w → 2 ^ k ≤ 2 ^ w
pow_mono zero w h = omega (arith, one-le-pow w 2)
pow_mono (suc k) zero h = absurd (omega arith)
pow_mono (suc k) (suc w) h = omega (arith, pow_mono k w (omega arith), pow-suc 2 k, pow-suc 2 w)

half-mask : (k : ℕ) → (2 ^ suc k - 1) / 2 ≡ 2 ^ k - 1
half-mask k = omega (arith, pow-suc 2 k)

-- `a & (2^k - 1)` is the remainder.
pub bit_and_mask : (k a : ℕ) → bit_and a (2 ^ k - 1) ≡ a % 2 ^ k
bit_and_mask zero a = omega (arith, and-zero a a (le_refl a))
bit_and_mask (suc k) a =
    bit_and_digit a (2 ^ suc k - 1)
    ∙ rw (half-mask k, bit_and_mask k (a / 2))
        (omega (arith, half-mod k a, pow-suc 2 k, one-le-pow k 2))

not-zero : (w : ℕ) → bit_not w (2 ^ 0 - 1) ≡ 2 ^ w - 1
not-zero w = omega arith

-- `a & ~(2^k - 1)` on a word of `w` bits clears the remainder.
pub bit_and_not_mask :
    (k w a : ℕ) → k ≤ w → a < 2 ^ w → bit_and a (bit_not w (2 ^ k - 1)) ≡ a - a % 2 ^ k
bit_and_not_mask zero w a le h =
    ap (bit_and a) (not-zero w) ∙ bit_and_mask w a ∙ mod-eq_of_lt h ∙ omega arith
bit_and_not_mask (suc k) zero a le h = absurd (omega arith)
bit_and_not_mask (suc k) (suc w) a le h =
    bit_and_digit a (bit_not (suc w) (2 ^ suc k - 1))
    ∙ rw
        (
          half-not w (2 ^ suc k - 1) fits,
          half-mask k,
          bit_and_not_mask k w (a / 2) (omega arith) (omega (arith, pow-suc 2 w)),
        )
        (omega
          (arith, half-mod k a, pow-suc 2 k, pow-suc 2 w, one-le-pow k 2, one-le-pow w 2, fits))
  where
    fits : 2 ^ suc k - 1 < 2 ^ suc w
    fits = omega (arith, pow_mono k w (omega arith), pow-suc 2 k, pow-suc 2 w)
