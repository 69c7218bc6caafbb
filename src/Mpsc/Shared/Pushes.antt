-- ===== src/Mpsc/Shared/Pushes.antt =====
-- Every step of a producer keeps the invariant.
use native.Mathlib.Decide.{dec_lt}
use co_rtos.Base.{
  ℕ, ◌+◌, ◌≤◌, ◌<◌, ◌^◌, ==_iff, Option, some, inl, inr, update, ◌≡◌, refl, sym, ◌∙◌, ap, subst,
  arith,
}
use co_rtos.Mpsc.Shared.{
  Producer, outside, loaded, matched, claimed, built, Consumer, resting, found, taken, Push, load,
  match_free, full, reload, lose, claim, build, publish, logged,
}
use co_rtos.Mpsc.Shared.Invariant.{Cells, flies_at, Relies, low, Inv, Flight-of}
use co_rtos.Mpsc.Shared.Producers.{quiet, claimed-Inv, written-Inv}
use co_rtos.Mpsc.Window.{update_self, slot-round}
use co_rtos.Mpsc.{Cell, Ring, slot, diff, zero_diff, add_size}

pub zero_diff-eq : (a b : ℕ) → diff a b ≡ zero_diff → a ≡ b
unfolding diff
zero_diff-eq a b e = ground (arith, e)

tail_sequence :
    (k head tail : ℕ) (cells : Cells) (producers : ℕ → Producer) (log : ℕ → ℕ)
    (popped : ℕ → Option ℕ) (c : Consumer)
    → Inv k head tail cells producers c log popped
    → tail < head
    → (cells (slot k tail)).sequence ≤ tail + 1
tail_sequence k head tail cells producers log popped c inv lt =
    elim (inv.full tail (omega arith) lt) [
      | inl done ↦ omega (arith, ap (λ d. d.sequence) done)
      | inr (j, h) ↦ omega (
        arith,
        (Flight-of k head tail (low c tail + 2 ^ k) cells log tail (producers j) (inv.relies j)
            h).unpublished,
      )
    ]

-- The sequence of the first cell that is not free again is too small for a producer of the next round.
first_sequence :
    (k head tail : ℕ) (cells : Cells) (producers : ℕ → Producer) (log : ℕ → ℕ)
    (popped : ℕ → Option ℕ) (c : Consumer)
    → Inv k head tail cells producers c log popped
    → low c tail < head
    → (cells (slot k (low c tail))).sequence ≤ low c tail + 1
first_sequence k head tail cells producers log popped (taken p) inv lt = omega (arith, inv.takes.1)
first_sequence k head tail cells producers log popped resting inv lt =
    tail_sequence k head tail cells producers log popped resting inv lt
first_sequence k head tail cells producers log popped (found p) inv lt =
    tail_sequence k head tail cells producers log popped (found p) inv lt

free_head :
    (k head tail : ℕ) (cells : Cells) (producers : ℕ → Producer) (log : ℕ → ℕ)
    (popped : ℕ → Option ℕ) (c : Consumer)
    → 2 ≤ 2 ^ k
    → Inv k head tail cells producers c log popped
    → (cells (slot k head)).sequence ≡ head
    → head < low c tail + 2 ^ k
free_head k head tail cells producers log popped c wide inv seq =
    elim (dec_lt head (low c tail + 2 ^ k)) [
      | yes lt ↦ lt
      | no ge ↦
          let e : low c tail + 2 ^ k ≡ head = omega (arith, ge, inv.ahead) in
          let same : (cells (slot k head)).sequence ≡ (cells (slot k (low c tail))).sequence =
            ap (λ n. (cells (slot k n)).sequence) (sym e)
            ∙ ap (λ n. (cells n).sequence) (slot-round k (low c tail)) in
          absurd (
            omega (
              arith,
              same,
              seq,
              e,
              first_sequence k head tail cells producers log popped c inv (omega arith),
            ))
    ]

module _ {k : ℕ} {r : Ring ℕ} {producers : ℕ → Producer} {c : Consumer} {log : ℕ → ℕ}
    {popped : ℕ → Option ℕ} (wide : 2 ≤ 2 ^ k)
    (inv : Inv k r.head r.tail r.cells producers c log popped) where
  pub Push-Inv :
      (i : ℕ) (a : Producer) {r' : Ring ℕ} {b : Producer}
      → r.head + 2 ^ k < 2 ^ 63
      → producers i ≡ a
      → Push k r a r' b
      → Inv k r'.head r'.tail r'.cells (update producers i b) c (logged b log) popped
  Push-Inv i _ room e (load x) =
      quiet inv i (loaded r.head x) (λ p. ap (flies_at p) e) (λ p. refl) (omega arith)
  Push-Inv i _ room e (match_free {position} {x} d) =
      let before : position ≤ r.head =
        subst (Relies k r.head r.tail (low c r.tail + 2 ^ k) r.cells log) e (inv.relies i) in
      quiet inv i (matched position x) (λ p. ap (flies_at p) e) (λ p. refl)
        (
          before,
          λ same.
              free_head k r.head r.tail r.cells producers log popped c wide inv
                (subst (λ n. (r.cells (slot k n)).sequence ≡ n) same (zero_diff-eq _ _ d)),
        )
  Push-Inv i _ room e (full d) = quiet inv i outside (λ p. ap (flies_at p) e) (λ p. refl) tt
  Push-Inv i _ room e (reload {position} {x} d) =
      quiet inv i (loaded r.head x) (λ p. ap (flies_at p) e) (λ p. refl) (omega arith)
  Push-Inv i _ room e (lose {position} {x}) =
      quiet inv i (loaded r.head x) (λ p. ap (flies_at p) e) (λ p. refl) (omega arith)
  Push-Inv i _ room e (claim {position} {x} at) =
      subst
        (λ n.
          Inv k (add_size n 1) r.tail r.cells (update producers i (claimed n x)) c (update log n x)
            popped)
        at
        (subst
          (λ h.
            Inv k h r.tail r.cells (update producers i (claimed r.head x)) c (update log r.head x)
              popped)
          (omega arith) (claimed-Inv inv i x (e ∙ ap (λ n. matched n x) (sym at)) room))
  Push-Inv i _ room e (build {position} {x}) =
      let (lo, hi, seq, has) =
        subst (Relies k r.head r.tail (low c r.tail + 2 ^ k) r.cells log) e (inv.relies i) in
      let cell : Cell ℕ = record (r.cells (slot k position)) { item = some x } in
      written-Inv inv i position cell (built position x) (λ p. ap (flies_at p) e)
        (λ p h. (==_iff p position).0 h)
        (
          lo,
          hi,
          update_self r.cells (slot k position) cell
              ∙ ap (λ n. record { sequence = n; item = some x }) seq,
          has,
        )
        (inr ((==_iff position position).1 refl))
  Push-Inv i _ room e (publish {position} {x}) =
      let (lo, hi, full_cell, has) =
        subst (Relies k r.head r.tail (low c r.tail + 2 ^ k) r.cells log) e (inv.relies i) in
      let cell : Cell ℕ = record (r.cells (slot k position)) { sequence = add_size position 1 } in
      let next : add_size position 1 ≡ position + 1 = omega arith in
      written-Inv inv i position cell outside (λ p. ap (flies_at p) e) (λ p h. cc) tt
        (inl (
          update_self r.cells (slot k position) cell
          ∙ ap (λ d. record { sequence = add_size position 1; item = d.item }) full_cell
          ∙ ap (λ n. record { sequence = n; item = some x }) next
          ∙ ap (λ y. record { sequence = position + 1; item = some y }) (sym has)))
