-- ===== src/Mpsc/Shared/Producers.antt =====
-- What the kinds of steps of a producer do to the invariant.
use co_rtos.Base.{
  ℕ, ◌+◌, ◌≤◌, ◌<◌, ◌^◌, ◌==◌, ==_iff, Option, some, Bool, true, false, ◌⊎◌, inl, inr, update, ◌≡◌,
  ◌≢◌, refl, sym, ◌∙◌, ap, subst, ℕ_discrete, arith,
}
use co_rtos.Mpsc.Shared.{Producer, matched, claimed, Consumer}
use co_rtos.Mpsc.Shared.Invariant.{
  Cells, flies_at, holds_at, Relies, Published, low, Inv, cell_kept, all_updated, apart_updated,
  takes_kept, Relies-kept, Flight, Flight-of, Held, held_of, low-le, clash,
}
use co_rtos.Mpsc.Window.{update-other, update_self}
use co_rtos.Mpsc.{Cell, slot}

module _ {k head tail : ℕ} {cells : Cells} {producers : ℕ → Producer} {consumer : Consumer}
    {log : ℕ → ℕ} {popped : ℕ → Option ℕ}
    (inv : Inv k head tail cells producers consumer log popped) (i : ℕ) where
  flies_kept :
      (q : Producer) (p j : ℕ)
      → j ≢ i
      → flies_at p (producers j) ≡ true
      → flies_at p (update producers i q j) ≡ true
  flies_kept q p j ne h = subst (λ a. flies_at p a ≡ true) (sym (update-other producers i j q ne)) h

  other : (p j : ℕ) → flies_at p (producers i) ≡ false → flies_at p (producers j) ≡ true → j ≢ i
  other p j off h e = clash _ (subst (λ n. flies_at p (producers n) ≡ true) e h) off

  flight : (p j : ℕ) → flies_at p (producers j) ≡ true → Flight k head tail cells p
  flight p j h =
      Flight-of k head tail (low consumer tail + 2 ^ k) cells log p (producers j) (inv.relies j) h

  -- A step that writes nothing, of a producer that is not in flight.
  pub quiet :
      (q : Producer)
      → ((p : ℕ) → flies_at p (producers i) ≡ false)
      → ((p : ℕ) → flies_at p q ≡ false)
      → Relies k head tail (low consumer tail + 2 ^ k) cells log q
      → Inv k head tail cells (update producers i q) consumer log popped
  quiet q off off' own = record {
    behind = inv.behind;
    ahead = inv.ahead;
    young = inv.young;
    full = λ p lo hi. elim (inv.full p lo hi) [
      | inl done ↦ inl done
      | inr (j, h) ↦ inr (j, flies_kept q p j (other p j (off p) h) h)
    ];
    free = inv.free;
    relies =
        all_updated (λ j a. Relies k head tail (low consumer tail + 2 ^ k) cells log a) producers i
          q own (λ j ne. inv.relies j);
    apart = apart_updated producers i q inv.apart (λ j p ne h. absurd (clash _ h (off' p)));
    takes = inv.takes;
    got = inv.got;
  }

  log_kept : (x p : ℕ) → p < head → update log head x p ≡ log p
  log_kept x p lt = update-other log head p x (λ e. omega (arith, e))

  held : (p : ℕ) → holds_at p consumer ≡ true → Held k head tail cells (low consumer tail) p
  held p h = held_of k head tail cells log p consumer inv.behind inv.takes h

  first-le : low consumer tail ≤ tail
  first-le = low-le k head tail cells log consumer inv.takes

  le_refl : (n : ℕ) → n ≤ n
  le_refl n = omega arith

  absent : (b : Bool) → (b ≡ true → ⊥) → b ≡ false
  absent true h = absurd (h refl)
  absent false h = refl

  pub claimed-Inv :
      (x : ℕ)
      → producers i ≡ matched head x
      → head + 2 ^ k < 2 ^ 63
      → Inv k
          (head + 1)
          tail
          cells
          (update producers i (claimed head x))
          consumer
          (update log head x)
          popped
  claimed-Inv x at room =
      let limit = low consumer tail + 2 ^ k in
      let off : (p : ℕ) → flies_at p (producers i) ≡ false = λ p. ap (flies_at p) at in
      let mine : (head ≤ head) × (head ≡ head → head < limit) =
        subst (Relies k head tail limit cells log) at (inv.relies i) in
      record {
        behind = omega (arith, inv.behind);
        ahead = omega (arith, mine.1 refl);
        young = omega arith;
        full = λ p lo hi. elim (ℕ_discrete p head) [
          | yes e ↦ inr (
            i,
            subst (λ a. flies_at p a ≡ true) (sym (update_self producers i (claimed head x)))
                ((==_iff p head).1 e),
          )
          | no ne ↦ elim (inv.full p lo (omega (arith, ne))) [
            | inl done ↦ inl (
                done
                ∙ ap (λ y. record { sequence = p + 1; item = some y })
                    (sym (log_kept x p (omega (arith, ne)))))
            | inr (j, h) ↦ inr (j, flies_kept (claimed head x) p j (other p j (off p) h) h)
          ]
        ];
        free = λ p lo hi. inv.free p (omega arith) hi;
        relies =
            all_updated (λ j a. Relies k (head + 1) tail limit cells (update log head x) a)
              producers i (claimed head x)
              (
                inv.behind,
                omega arith,
                inv.free head (omega arith) (mine.1 refl),
                update_self log head x,
              )
              (λ j ne.
                Relies-kept k head tail limit (head + 1) tail limit cells cells log
                  (update log head x) (producers j) (omega arith) (omega arith)
                  (λ p h lo hi. (lo, refl, log_kept x p hi)) (inv.relies j));
        apart = apart_updated producers i (claimed head x) inv.apart (λ j p ne h.
            absent (flies_at p (producers j))
              (λ g. omega (arith, (==_iff p head).0 h, (flight p j g).below)));
        takes =
            takes_kept k head tail (head + 1) cells cells log (update log head x) consumer
              (omega arith) (λ p h. (refl, log_kept x p (held p h).within)) inv.takes;
        got = λ p lt. inv.got p lt ∙ ap some (sym (log_kept x p (omega (arith, inv.behind))));
      }

  -- A write to the cell of a position in flight.
  pub written-Inv :
      (p : ℕ) (c : Cell ℕ) (q : Producer)
      → ((r : ℕ) → flies_at r (producers i) ≡ (r == p))
      → ((r : ℕ) → flies_at r q ≡ true → r ≡ p)
      → Relies k head tail (low consumer tail + 2 ^ k) (update cells (slot k p) c) log q
      → Published k (update cells (slot k p) c) log p ⊎ (flies_at p q ≡ true)
      → Inv k head tail (update cells (slot k p) c) (update producers i q) consumer log popped
  written-Inv p c q at at' own done =
      let f = flight p i (at p ∙ (==_iff p p).1 refl) in
      let cells' = update cells (slot k p) c in
      let limit = low consumer tail + 2 ^ k in
      let same : (r j : ℕ) → j ≡ i → flies_at r (producers j) ≡ true → r ≡ p =
        λ r j e h. (==_iff r p).0 (sym (at r) ∙ subst (λ n. flies_at r (producers n) ≡ true) e h) in
      let one : (r j : ℕ) → r ≡ p → flies_at r (producers j) ≡ true → j ≡ i =
        λ r j e h. inv.apart j i r h (at r ∙ (==_iff r p).1 e) in
      let kept : (r : ℕ)
          → r ≢ p
          → low consumer tail ≤ r
          → r < limit
          → cells' (slot k r) ≡ cells (slot k r) =
        λ r ne lo hi.
          cell_kept k cells p r c (λ e. ne (sym e)) (omega (arith, f.below, inv.ahead, lo))
            (omega (arith, f.above, first-le, hi)) in
      record {
        behind = inv.behind;
        ahead = inv.ahead;
        young = inv.young;
        full = λ r lo hi. elim (ℕ_discrete r p) [
          | yes e ↦ elim done [
            | inl d ↦ inl (subst (Published k cells' log) (sym e) d)
            | inr g ↦ inr (
              i,
              subst (λ a. flies_at r a ≡ true) (sym (update_self producers i q))
                  (subst (λ n. flies_at n q ≡ true) (sym e) g),
            )
          ]
          | no ne ↦ elim (inv.full r lo hi) [
            | inl d ↦ inl (kept r ne (omega (arith, first-le)) (omega (arith, inv.ahead)) ∙ d)
            | inr (j, h) ↦ inr (j, flies_kept q r j (λ e. ne (same r j e h)) h)
          ]
        ];
        free = λ r lo hi.
            ap (λ d. d.sequence)
              (kept r (λ e. omega (arith, e, f.below)) (omega (arith, first-le, inv.behind)) hi)
            ∙ inv.free r lo hi;
        relies =
            all_updated (λ j a. Relies k head tail limit cells' log a) producers i q own
              (λ j ne.
                Relies-kept k head tail limit head tail limit cells cells' log log (producers j)
                  (le_refl head) (le_refl limit)
                  (λ r h lo hi. (
                    lo,
                    kept r (λ e. ne (one r j e h)) (omega (arith, first-le))
                        (omega (arith, inv.ahead)),
                    refl,
                  ))
                  (inv.relies j));
        apart =
            apart_updated producers i q inv.apart
              (λ j r ne h. absent (flies_at r (producers j)) (λ g. ne (one r j (at' r h) g)));
        takes =
            takes_kept k head tail head cells cells' log log consumer (le_refl head)
              (λ r h. (
                kept r
                    (λ e. omega (
                      arith,
                      (held r h).filled,
                      f.unpublished,
                      ap (λ n. (cells (slot k n)).sequence) e,
                    ))
                    (omega (arith, (held r h).at_first))
                    (omega (arith, (held r h).within, inv.ahead)),
                refl,
              ))
              inv.takes;
        got = inv.got;
      }
