-- ===== src/Mpsc/Pop.antt =====
-- `pop` of the ring buffer: the oldest item, or nothing from an empty ring.
use native.Mathlib.Nat.{one-le-pow}
use co_rtos.Base.{
  ℕ, suc, ◌+◌, ◌-◌, ◌<◌, ◌^◌, none, some, update, ◌≡◌, sym, ◌∙◌, ap, subst, List, [], ◌∷◌, length,
  arith,
}
use co_rtos.Mpsc.{Cell, Ring, add_size, zero_diff, negative, diff, slot, pop}
use co_rtos.Mpsc.Refine.{diff_self, diff-lt}
use co_rtos.Mpsc.Window.{
  Filled, Free, Holds, Filled-update, Free-update, Free-snoc, slot-round, update_self,
}

module _ (k : ℕ) {T : Type 0} {r : Ring T} (young : r.head + 2 ^ k < 2 ^ 63) where
  pub pop-nil : Holds k r [] → pop k r ≡ (r, none)
  unfolding pop
  pop-nil h = ground (arith, not_yet)
    where
      tail_free : (r.cells (slot k r.tail)).sequence ≡ r.tail
      tail_free =
          let e : 2 ^ k - 0 ≡ suc (2 ^ k - 1) = omega (arith, one-le-pow k 2) in
          let same : r.head ≡ r.tail = omega (arith, h.count) in
          (subst (λ p. Free k r.cells p (suc (2 ^ k - 1))) same
            (subst (λ n. Free k r.cells r.head n) e h.free)).0

      not_yet : diff (r.cells (slot k r.tail)).sequence (add_size r.tail 1) ≡ negative
      not_yet =
          ap (λ s. diff s (add_size r.tail 1)) tail_free
          ∙ diff-lt r.tail (add_size r.tail 1) (omega (arith, h.count))
              (omega (arith, h.count, one-le-pow k 2))

  module _ (x : T) (xs : List T) (h : Holds k r (x ∷ xs)) where
    freed : Cell T
    freed = record { sequence = add_size r.tail (2 ^ k); item = none }

    abbrev pub after_pop : Ring T
    after_pop = record r {
      tail = add_size r.tail 1;
      cells =
          update r.cells (slot k r.tail)
            (record { sequence = add_size r.tail (2 ^ k); item = none });
    }

    pub pop-cons : pop k r ≡ (after_pop, some x)
    unfolding pop
    pop-cons = ground (arith, ready, h.filled.0)
      where
        next : suc r.tail ≡ add_size r.tail 1
        next = omega (arith, h.count)

        ready : diff (r.cells (slot k r.tail)).sequence (add_size r.tail 1) ≡ zero_diff
        ready =
            ap (λ (c : Cell T). diff c.sequence (add_size r.tail 1)) h.filled.0
            ∙ ap (λ s. diff s (add_size r.tail 1)) next
            ∙ diff_self (add_size r.tail 1)

    pub after_pop-Holds : Holds k after_pop xs
    unfolding freed
    after_pop-Holds = record {
      count = omega (arith, h.count);
      fits = omega (arith, h.fits);
      filled =
          subst (λ p. Filled k after_pop.cells p xs) next
            (Filled-update k r.cells r.tail freed 1 xs (omega arith) (omega (arith, h.fits))
              (subst (λ p. Filled k r.cells p xs) one_on h.filled.1));
      free =
          subst (λ n. Free k after_pop.cells r.head n) one_more
            (Free-snoc k after_pop.cells r.head (2 ^ k - suc (length xs)) old last_free);
    }
      where
        one_on : suc r.tail ≡ r.tail + 1
        one_on = omega arith

        next : r.tail + 1 ≡ add_size r.tail 1
        next = omega (arith, h.count)

        one_more : suc (2 ^ k - suc (length xs)) ≡ 2 ^ k - length xs
        one_more = omega (arith, h.fits)

        old : Free k after_pop.cells r.head (2 ^ k - suc (length xs))
        old =
            subst (λ p. Free k after_pop.cells p (2 ^ k - suc (length xs))) (sym h.count)
              (Free-update k r.cells r.tail freed (suc (length xs)) (2 ^ k - suc (length xs))
                (omega arith) (omega (arith, h.fits))
                (subst (λ p. Free k r.cells p (2 ^ k - suc (length xs))) h.count h.free))

        round : r.head + (2 ^ k - suc (length xs)) ≡ r.tail + 2 ^ k
        round = omega (arith, h.count, h.fits)

        whole : add_size r.tail (2 ^ k) ≡ r.tail + 2 ^ k
        whole = omega (arith, h.count)

        last_free :
            (after_pop.cells (slot k (r.head + (2 ^ k - suc (length xs))))).sequence
            ≡ r.head + (2 ^ k - suc (length xs))
        last_free =
            ap (λ j. (after_pop.cells j).sequence) (ap (slot k) round ∙ slot-round k r.tail)
            ∙ ap (λ (c : Cell T). c.sequence) (update_self r.cells (slot k r.tail) freed)
            ∙ whole
            ∙ sym round
