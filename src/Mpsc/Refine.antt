-- ===== src/Mpsc/Refine.antt =====
-- What a push does with the cells, while one thread runs at a time.
use native.Mathlib.Nat.{one-le-pow}
use co_rtos.Base.Bits.{pow_mono}
use co_rtos.Base.{
  ℕ, zero, suc, ◌+◌, ◌-◌, ◌≤◌, ◌<◌, ◌^◌, some, Bool, true, false, update, ◌≡◌, ◌∙◌, ap, subst, List,
  [], ◌∷◌, ◌++◌, length, replicate, length-append, arith,
}
use co_rtos.Mpsc.{
  Cell, Ring, add_size, zero_diff, negative, positive, diff, slot, publish, push_from, push,
}
use co_rtos.Mpsc.Window.{
  Filled, Free, Holds, Filled-update_behind, Free-update, Filled-snoc, slot-round,
}

pub diff_self : (a : ℕ) → diff a a ≡ zero_diff
unfolding diff
diff_self a = ground arith

pub diff-lt : (a b : ℕ) → a < b → b < 2 ^ 63 → diff a b ≡ negative
unfolding diff
diff-lt a b h k = ground arith

pub diff-gt : (a b : ℕ) → b < a → a < 2 ^ 63 → diff a b ≡ positive
unfolding diff
diff-gt a b h k = ground arith

module _ (k : ℕ) {T : Type 0} {r : Ring T} (xs : List T) (h : Holds k r xs)
    (young : r.head + 2 ^ k < 2 ^ 63) where
  next_position : add_size r.head 1 ≡ suc r.head
  next_position = omega arith

  free_cells : length xs < 2 ^ k → Free k r.cells r.head (suc (2 ^ k - suc (length xs)))
  free_cells lt =
      let e : 2 ^ k - length xs ≡ suc (2 ^ k - suc (length xs)) = omega arith in
      subst (λ n. Free k r.cells r.head n) e h.free

  free_diff : length xs < 2 ^ k → diff (r.cells (slot k r.head)).sequence r.head ≡ zero_diff
  free_diff lt = ap (λ s. diff s r.head) (free_cells lt).0 ∙ diff_self r.head

  -- Where a cell is free, the item goes behind the others, however often the weak
  -- compare-exchange fails before it succeeds.
  pub push-room :
      (x : T) (n : ℕ) (rest : List Bool)
      → length xs < 2 ^ k
      → push k (replicate n false ++ true ∷ rest) r x ≡ some (publish k r r.head x, true)
  unfolding push push_from
  push-room x zero rest lt = ground (arith, free_diff lt)
  push-room x (suc n) rest lt = ground (arith, free_diff lt, push-room x n rest lt)

  pub publish-Holds : (x : T) → length xs < 2 ^ k → Holds k (publish k r r.head x) (xs ++ x ∷ [])
  publish-Holds x lt = record {
    count = omega (arith, next_position, h.count, length-append xs (x ∷ []));
    fits = omega (arith, length-append xs (x ∷ []));
    filled = Filled-snoc k cells' r.tail xs x kept here;
    free =
        subst (λ n. Free k cells' (add_size r.head 1) n) rest_count
          (subst (λ p. Free k cells' p (2 ^ k - suc (length xs))) rest_head rest);
  }
    where
      c : Cell T
      c = record { sequence = add_size r.head 1; item = some x }

      cells' : ℕ → Cell T
      cells' = update r.cells (slot k r.head) c

      kept : Filled k cells' r.tail xs
      kept =
          Filled-update_behind k r.cells r.head c r.tail xs (omega (arith, h.count))
            (omega (arith, h.count)) h.filled

      here :
          cells' (slot k (r.tail + length xs))
          ≡ record { sequence = suc (r.tail + length xs); item = some x }
      here = ground (arith, h.count, next_position)

      one_more : suc r.head ≡ r.head + 1
      one_more = omega arith

      rest : Free k cells' (r.head + 1) (2 ^ k - suc (length xs))
      rest =
          Free-update k r.cells r.head c 1 (2 ^ k - suc (length xs)) (omega arith) (omega arith)
            (subst (λ p. Free k r.cells p (2 ^ k - suc (length xs))) one_more (free_cells lt).1)

      rest_head : r.head + 1 ≡ add_size r.head 1
      rest_head = omega (arith, next_position)

      rest_count : 2 ^ k - suc (length xs) ≡ 2 ^ k - length (xs ++ x ∷ [])
      rest_count = omega (arith, length-append xs (x ∷ []))

  full_diff : 1 ≤ k → length xs ≡ 2 ^ k → diff (r.cells (slot k r.head)).sequence r.head ≡ negative
  full_diff one full =
      ap (λ s. diff s r.head)
        (ap (λ j. (r.cells j).sequence) same_slot ∙ first_sequence xs full h.filled)
      ∙ diff-lt (suc r.tail) r.head (omega (arith, h.count, pow_mono 1 k one)) (omega arith)
    where
      same_slot : slot k r.head ≡ slot k r.tail
      same_slot = ap (slot k) (h.count ∙ ap (λ (n : ℕ). r.tail + n) full) ∙ slot-round k r.tail

      first_sequence :
          (ys : List T)
          → length ys ≡ 2 ^ k
          → Filled k r.cells r.tail ys
          → (r.cells (slot k r.tail)).sequence ≡ suc r.tail
      first_sequence [] e f = absurd (omega (arith, one-le-pow k 2))
      first_sequence (y ∷ ys) e f = ap (λ (c : Cell T). c.sequence) f.0

  -- A full ring refuses the item and does not change.
  pub push-full :
      (x : T) (b : Bool) (rounds : List Bool)
      → 1 ≤ k
      → length xs ≡ 2 ^ k
      → push k (b ∷ rounds) r x ≡ some (r, false)
  unfolding push push_from
  push-full x b rounds one full = ground (arith, full_diff one full)
