-- ===== src/Mpsc/Shared/Pops.antt =====
-- Every step of the consumer keeps the invariant.
use native.Mathlib.Decide.{dec_lt}
use native.Mathlib.Nat.{one-le-pow}
use co_rtos.Base.{
  ℕ, ◌+◌, ◌≤◌, ◌<◌, ◌^◌, Option, none, some, inl, inr, update, ◌≡◌, ◌≢◌, refl, sym, ◌∙◌, ap, subst,
  ℕ_discrete, arith,
}
use co_rtos.Mpsc.Shared.{
  Producer, Consumer, resting, found, taken, Pop, find, miss, take, release, taken_at,
}
use co_rtos.Mpsc.Shared.Invariant.{
  Relies, Published, low, Inv, cell_kept, Relies-kept, Flight-of, low-le,
}
use co_rtos.Mpsc.Window.{update-other, update_self, slot-round}
use co_rtos.Mpsc.{Cell, Ring, slot, add_size}
use co_rtos.Mpsc.Shared.Pushes.{zero_diff-eq}

module _ {k : ℕ} {r : Ring ℕ} {producers : ℕ → Producer} {log : ℕ → ℕ} {popped : ℕ → Option ℕ} where
  -- What all producers rely on, after a write to a cell that is behind the window.
  Relies-after :
      (c c' : Consumer) (p tail' : ℕ) (cell : Cell ℕ)
      → Inv k r.head r.tail r.cells producers c log popped
      → low c r.tail + 2 ^ k ≤ low c' tail' + 2 ^ k
      → low c r.tail ≡ p
      → ((q : ℕ) → r.tail ≤ q → (r.cells (slot k q)).sequence ≡ q → (tail' ≤ q) × (p ≢ q))
      → (i : ℕ)
      → Relies k r.head tail'
          (low c' tail' + 2 ^ k)
          (update r.cells (slot k p) cell)
          log
          (producers i)
  Relies-after c c' p tail' cell inv more at beyond i =
      Relies-kept k r.head r.tail (low c r.tail + 2 ^ k) r.head tail' (low c' tail' + 2 ^ k) r.cells
        (update r.cells (slot k p) cell) log log (producers i) (omega arith) more
        (λ q h lo hi.
          let f =
            Flight-of k r.head r.tail (low c r.tail + 2 ^ k) r.cells log q (producers i)
              (inv.relies i) h in
          let (above, ne) = beyond q lo f.unpublished in
          (
            above,
            cell_kept k r.cells p q cell ne
                (omega (
                  arith,
                  at,
                  lo,
                  one-le-pow k 2 (omega arith),
                  low-le k r.head r.tail r.cells log c inv.takes,
                ))
                (omega (arith, at, inv.ahead)),
            refl,
          ))
        (inv.relies i)

  take-Inv :
      (p : ℕ)
      → Inv k r.head r.tail r.cells producers (found p) log popped
      → Inv k r.head
          (add_size p 1)
          (update r.cells (slot k p) (record (r.cells (slot k p)) { item = none }))
          producers
          (taken p)
          log
          (update popped p (r.cells (slot k p)).item)
  take-Inv p inv =
      let (at, lt, done) = inv.takes in
      let next : add_size p 1 ≡ p + 1 = omega (arith, inv.young) in
      let cell : Cell ℕ = record (r.cells (slot k p)) { item = none } in
      let cells' = update r.cells (slot k p) cell in
      subst
        (λ n.
          Inv k r.head n cells' producers (taken p) log (update popped p (r.cells (slot k p)).item))
        (sym next)
        (record {
          behind = omega arith;
          ahead = omega (arith, inv.ahead);
          young = inv.young;
          full = λ q lo hi. elim (inv.full q (omega arith) hi) [
            | inl d ↦ inl (
                cell_kept k r.cells p q cell (λ e. omega (arith, e)) (omega arith)
                  (omega (arith, inv.ahead))
                ∙ d)
            | inr f ↦ inr f
          ];
          free = λ q lo hi.
              ap (λ d. d.sequence)
                (cell_kept k r.cells p q cell (λ e. omega (arith, e)) (omega arith) hi)
              ∙ inv.free q lo (omega arith);
          relies =
              Relies-after (found p) (taken p) p (p + 1) cell inv (omega arith) (sym at)
                (λ q lo seq.
                  let ne : p ≢ q = λ e. omega (
                    arith,
                    seq,
                    ap (λ d. d.sequence) done,
                    ap (λ n. (r.cells (slot k n)).sequence) e,
                  ) in
                  (omega (arith, ne), ne));
          apart = inv.apart;
          takes = (
            refl,
            ap (λ d. d.sequence) (update_self r.cells (slot k p) cell) ∙ ap (λ d. d.sequence) done,
          );
          got = λ q lo. elim (ℕ_discrete q p) [
            | yes e ↦
                subst (λ n. update popped p (r.cells (slot k p)).item n ≡ some (log n)) (sym e)
                  (update_self popped p (r.cells (slot k p)).item ∙ ap (λ d. d.item) done)
            | no ne ↦
                update-other popped p q (r.cells (slot k p)).item ne ∙ inv.got q (omega (arith, ne))
          ];
        })

  release-Inv :
      (p : ℕ)
      → Inv k r.head r.tail r.cells producers (taken p) log popped
      → Inv k r.head r.tail
          (update r.cells
            (slot k p)
            (record (r.cells (slot k p)) { sequence = add_size p (2 ^ k) }))
          producers
          resting
          log
          popped
  release-Inv p inv =
      let (at, seq) = inv.takes in
      let cell : Cell ℕ = record (r.cells (slot k p)) { sequence = add_size p (2 ^ k) } in
      let round : add_size p (2 ^ k) ≡ p + 2 ^ k = omega (arith, inv.young, inv.behind) in
      let cells' = update r.cells (slot k p) cell in
      record {
        behind = inv.behind;
        ahead = omega (arith, inv.ahead);
        young = inv.young;
        full = λ q lo hi. elim (inv.full q lo hi) [
          | inl d ↦ inl (
              cell_kept k r.cells p q cell (λ e. omega (arith, e)) (omega arith)
                (omega (arith, inv.ahead))
              ∙ d)
          | inr f ↦ inr f
        ];
        free = λ q lo hi. elim (ℕ_discrete q (p + 2 ^ k)) [
          | yes e ↦
              subst (λ n. (cells' (slot k n)).sequence ≡ n) (sym e)
                (ap (λ n. (cells' n).sequence) (slot-round k p)
                  ∙ ap (λ d. d.sequence) (update_self r.cells (slot k p) cell)
                  ∙ round)
          | no ne ↦
              ap (λ d. d.sequence)
                (cell_kept k r.cells p q cell (λ e. omega (arith, e, inv.behind))
                  (omega (arith, inv.behind)) (omega (arith, ne)))
              ∙ inv.free q lo (omega (arith, ne))
        ];
        relies =
            Relies-after (taken p) resting p r.tail cell inv (omega arith) refl
              (λ q lo s. (lo, λ e. omega (arith, e)));
        apart = inv.apart;
        takes = tt;
        got = inv.got;
      }

  find-Inv :
      Inv k r.head r.tail r.cells producers resting log popped
      → (r.cells (slot k r.tail)).sequence ≡ add_size r.tail 1
      → Inv k r.head r.tail r.cells producers (found r.tail) log popped
  find-Inv inv seq =
      let next : add_size r.tail 1 ≡ r.tail + 1 =
        omega (arith, inv.young, inv.behind, one-le-pow k 2 (omega arith)) in
      let some_claimed : r.tail < r.head = elim (dec_lt r.tail r.head) [
        | yes lt ↦ lt
        | no ge ↦ absurd (
            omega (
              arith,
              seq,
              next,
              inv.free r.tail (omega arith) (omega (arith, one-le-pow k 2 (omega arith))),
            ))
      ] in
      let done : Published k r.cells log r.tail =
        elim (inv.full r.tail (omega arith) some_claimed) [
          | inl d ↦ d
          | inr (j, h) ↦ absurd (
              omega (
                arith,
                seq,
                next,
                (Flight-of k r.head r.tail (r.tail + 2 ^ k) r.cells log r.tail (producers j)
                    (inv.relies j) h).unpublished,
              ))
        ] in
      record {
        behind = inv.behind;
        ahead = inv.ahead;
        young = inv.young;
        full = inv.full;
        free = inv.free;
        relies = inv.relies;
        apart = inv.apart;
        takes = (refl, some_claimed, done);
        got = inv.got;
      }

  pub Pop-Inv :
      {c : Consumer} {r' : Ring ℕ} {c' : Consumer} {x : Option ℕ}
      → Inv k r.head r.tail r.cells producers c log popped
      → Pop k r c r' c' x
      → Inv k r'.head r'.tail r'.cells producers c' log (taken_at c' x popped)
  Pop-Inv inv (find d) = find-Inv inv (zero_diff-eq _ _ d)
  Pop-Inv inv (miss d) = inv
  Pop-Inv inv (take {position}) = take-Inv position inv
  Pop-Inv inv (release {position}) = release-Inv position inv
