-- ===== src/Mpsc/Window.antt =====
-- What a ring holds: items from the tail on, and free cells from the head on.
use native.Mathlib.Decide.{dec_lt}
use native.Mathlib.Nat.{
  mod-lt, add-mod_right, mod-add-mod, mod-eq-sub-mod, mod-eq_of_lt, one-le-pow,
}
use co_rtos.Base.Bits.{bit_and_mask}
use co_rtos.Base.{
  ℕ, zero, suc, ◌+◌, ◌-◌, ◌%◌, ◌^◌, ◌≤◌, ◌<◌, some, ◌≡◌, sym, ◌∙◌, ap, subst, ◌≢◌, List, [], ◌∷◌,
  ◌++◌, length, update, arith,
}
use co_rtos.Mpsc.{Cell, Ring, slot}

module _ (k : ℕ) {T : Type 0} where
  -- The cells from `position` on hold the items, each with its sequence one past its position.
  abbrev pub Filled : (ℕ → Cell T) → ℕ → List T → Type 0
  Filled cells position [] = Unit
  Filled cells position (x ∷ xs) =
      (cells (slot k position) ≡ record { sequence = suc position; item = some x })
      × Filled cells (suc position) xs

  -- The `n` cells from `position` on wait for a producer.
  abbrev pub Free : (ℕ → Cell T) → ℕ → ℕ → Type 0
  Free cells position zero = Unit
  Free cells position (suc n) =
      ((cells (slot k position)).sequence ≡ position) × Free cells (suc position) n

  pub record Holds (r : Ring T) (xs : List T) : Type 0 where
    pub count : r.head ≡ r.tail + length xs
    pub fits : length xs ≤ 2 ^ k
    pub filled : Filled r.cells r.tail xs
    pub free : Free r.cells r.head (2 ^ k - length xs)

shift-mod-ne : (n r d : ℕ) → r < n → 0 < d → d < n → (r + d) % n ≢ r
shift-mod-ne n r d small pos lt = elim (dec_lt (r + d) n) [
  | yes below ↦ omega (arith, mod-eq_of_lt below)
  | no above ↦ omega (
    arith,
    mod-eq-sub-mod {n = r + d} {m = n} (omega arith),
    mod-eq_of_lt {n = r + d - n} {m = n} (omega arith),
  )
]

-- Two positions less than a capacity apart have different cells.
pub slot-ne : (k a d : ℕ) → 0 < d → d < 2 ^ k → slot k (a + d) ≢ slot k a
slot-ne k a d pos lt e =
    shift-mod-ne (2 ^ k) (a % 2 ^ k) d (mod-lt a (one-le-pow k 2 (omega arith))) pos lt
      (mod-add-mod a (2 ^ k) d ∙ sym (bit_and_mask k (a + d)) ∙ e ∙ bit_and_mask k a)

shift : (a d : ℕ) → a + suc d ≡ suc (a + d)
shift a d = omega arith

pub update-other : {A : Type 0} (f : ℕ → A) (i j : ℕ) (v : A) → j ≢ i → update f i v j ≡ f j
update-other f i j v ne = ground arith

module _ (k : ℕ) {T : Type 0} where
  -- A write to the cell of position `a` leaves those of `n` later positions alone, if that does not
  -- go round to `a`.
  pub Filled-update :
      (cells : ℕ → Cell T) (a : ℕ) (c : Cell T) (d : ℕ) (xs : List T)
      → 0 < d
      → d + length xs ≤ 2 ^ k
      → Filled k cells (a + d) xs
      → Filled k (update cells (slot k a) c) (a + d) xs
  Filled-update cells a c d [] pos le f = tt
  Filled-update cells a c d (x ∷ xs) pos le f = (
    rw (update-other cells (slot k a) (slot k (a + d)) c (slot-ne k a d pos (omega arith))) f.0,
    subst (λ n. Filled k (update cells (slot k a) c) n xs) (shift a d)
        (Filled-update cells a c (suc d) xs (omega arith) (omega arith)
          (subst (λ n. Filled k cells n xs) (sym (shift a d)) f.1)),
  )

  -- So does a write to the cell of a position behind the items, less than a capacity further on.
  pub Filled-update_behind :
      (cells : ℕ → Cell T) (a : ℕ) (c : Cell T) (p : ℕ) (xs : List T)
      → p + length xs ≤ a
      → a < p + 2 ^ k
      → Filled k cells p xs
      → Filled k (update cells (slot k a) c) p xs
  Filled-update_behind cells a c p [] le lt f = tt
  Filled-update_behind cells a c p (x ∷ xs) le lt f =
      let ne : slot k p ≢ slot k a =
        λ e. slot-ne k p (a - p) (omega arith) (omega arith) (ap (slot k) (omega arith) ∙ sym e) in
      (
        rw (update-other cells (slot k a) (slot k p) c ne) f.0,
        Filled-update_behind cells a c (suc p) xs (omega arith) (omega arith) f.1,
      )

  pub Free-update :
      (cells : ℕ → Cell T) (a : ℕ) (c : Cell T) (d n : ℕ)
      → 0 < d
      → d + n ≤ 2 ^ k
      → Free k cells (a + d) n
      → Free k (update cells (slot k a) c) (a + d) n
  Free-update cells a c d zero pos le f = tt
  Free-update cells a c d (suc n) pos le f = (
    rw (update-other cells (slot k a) (slot k (a + d)) c (slot-ne k a d pos (omega arith))) f.0,
    subst (λ p. Free k (update cells (slot k a) c) p n) (shift a d)
        (Free-update cells a c (suc d) n (omega arith) (omega arith)
          (subst (λ p. Free k cells p n) (sym (shift a d)) f.1)),
  )

  pub Filled-snoc :
      (cells : ℕ → Cell T) (a : ℕ) (xs : List T) (x : T)
      → Filled k cells a xs
      → cells (slot k (a + length xs)) ≡ record { sequence = suc (a + length xs); item = some x }
      → Filled k cells a (xs ++ x ∷ [])
  Filled-snoc cells a [] x f e = (
    subst (λ n. cells (slot k n) ≡ record { sequence = suc n; item = some x }) (omega arith) e,
    tt,
  )
  Filled-snoc cells a (y ∷ xs) x f e = (
    f.0,
    Filled-snoc cells (suc a) xs x f.1 (
        subst (λ n. cells (slot k n) ≡ record { sequence = suc n; item = some x }) (omega arith) e),
  )

  pub Free-snoc :
      (cells : ℕ → Cell T) (a n : ℕ)
      → Free k cells a n
      → (cells (slot k (a + n))).sequence ≡ a + n
      → Free k cells a (suc n)
  Free-snoc cells a zero f e = (subst (λ n. (cells (slot k n)).sequence ≡ n) (omega arith) e, tt)
  Free-snoc cells a (suc n) f e = (
    f.0,
    Free-snoc cells (suc a) n f.1 (subst (λ m. (cells (slot k m)).sequence ≡ m) (omega arith) e),
  )

pub slot-round : (k a : ℕ) → slot k (a + 2 ^ k) ≡ slot k a
slot-round k a = bit_and_mask k (a + 2 ^ k) ∙ add-mod_right a (2 ^ k) ∙ sym (bit_and_mask k a)

pub update_self : {A : Type 0} (f : ℕ → A) (i : ℕ) (v : A) → update f i v i ≡ v
update_self f i v = ground arith
