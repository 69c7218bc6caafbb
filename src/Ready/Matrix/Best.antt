-- ===== src/Ready/Matrix/Best.antt =====
-- `pop_best_thread`, `peek_best_thread`, `best_priority` and `remove_thread` on the lists that a
-- ready matrix stands for.
use native.Mathlib.Decide.{dec_lt}
use co_rtos.Base.Bits.{test_bit, Lowest, countr_zero-Lowest, test_bit-zero}
use co_rtos.Base.{
  ℕ, ◌<◌, Ptr, none, some, true, false, ◌==◌, ==_iff, update, ◌≡◌, refl, sym, ◌∙◌, ap, subst, ◌≢◌,
  ◌⊎◌, inl, inr, List, [], ◌∷◌, ◌++◌, Bool-cases, arith,
}
use co_rtos.Config.{max_priorities}
use co_rtos.Intrusive.{Links, is_enqueued, unlink}
use co_rtos.Intrusive.Chain.{Holds, first}
use co_rtos.Intrusive.Ops.{unlink-Holds}
use co_rtos.Ready.Matrix.{
  ReadyMatrix, lowest, pop_at, pop_best_thread, peek_best_thread, best_priority, remove_thread,
}
use co_rtos.Ready.Matrix.Invariant.{nonempty, Represents}
use co_rtos.Ready.Matrix.Laws.{taken_out}
use co_rtos.Ready.Queue.Laws.{pop_front-Holds, remove-Holds}
use co_rtos.Threads.{Threads}

-- `t` is the head of the first list in use, that of priority `p`.
pub record Best (ls : ℕ → List ℕ) (p t : ℕ) (rest : List ℕ) : Type 0 where
  pub at_head : ls p ≡ t ∷ rest
  pub first_used : (q : ℕ) → q < p → ls q ≡ []

-- No list holds a thread.
abbrev pub AllEmpty : (ℕ → List ℕ) → Type 0
AllEmpty ls = (p : ℕ) → ls p ≡ []

nonempty-cons : (xs : List ℕ) → nonempty xs ≡ true → (t : ℕ) × (rest : List ℕ) × (xs ≡ t ∷ rest)
nonempty-cons [] h = cc
nonempty-cons (x ∷ xs) h = (x, xs, refl)

nonempty-nil : (xs : List ℕ) → nonempty xs ≡ false → xs ≡ []
nonempty-nil [] h = refl
nonempty-nil (x ∷ xs) h = cc

-- What a pop gives: nothing and no change where every list is empty, and else the best thread, cut
-- off from its list with its links cleared.
pub data Popped (c : ℕ) (th : Threads) (m : ReadyMatrix) (ls : ℕ → List ℕ)
    : Threads × ReadyMatrix × Ptr → Type 0 where
  nothing : AllEmpty ls → Popped c th m ls (th, m, none)
  popped :
      (p t : ℕ) (rest : List ℕ) (l : Links) (m' : ReadyMatrix)
      → Best ls p t rest
      → p < max_priorities
      → is_enqueued l t ≡ false
      → Represents c (record th { links = l }) m' (update ls p rest)
      → Popped c th m ls (record th { links = l }, m', some t)

module _ {c : ℕ} {th : Threads} {m : ReadyMatrix} {ls : ℕ → List ℕ} (r : Represents c th m ls) where
  empty_of_zero : m.bitmap ≡ 0 → AllEmpty ls
  empty_of_zero z p = elim (dec_lt p 32) [
    | yes lt ↦
        nonempty-nil (ls p)
          (sym (r.bits p lt) ∙ subst (λ b. test_bit b p ≡ false) (sym z) (test_bit-zero p))
    | no ge ↦ r.high p (omega arith)
  ]

  -- The lowest set bit names the first list in use.
  first_used_of_lowest : m.bitmap ≢ 0 → (t : ℕ) × (rest : List ℕ) × Best ls (lowest m.bitmap) t rest
  first_used_of_lowest nz =
      let low = countr_zero-Lowest 32 m.bitmap r.word (omega arith) in
      let p = lowest m.bitmap in
      let (t, rest, e) = nonempty-cons (ls p) (sym (r.bits p low.inside) ∙ low.is_set) in
      (
        t,
        rest,
        record {
          at_head = e;
          first_used =
              λ q lt. nonempty-nil (ls q) (sym (r.bits q (below q lt low)) ∙ low.clear_below q lt);
        },
      )
    where
      below : (q : ℕ) → q < lowest m.bitmap → Lowest 32 m.bitmap (lowest m.bitmap) → q < 32
      below q lt low = omega (arith, low.inside)

  Best-below : (p t : ℕ) (rest : List ℕ) → Best ls p t rest → p < max_priorities
  Best-below p t rest b = elim (dec_lt p max_priorities) [
    | yes lt ↦ lt
    | no ge ↦ ground (arith, r.high p, b.at_head)
  ]

  pop_at-Best : (p t : ℕ) (rest : List ℕ) → Best ls p t rest → Popped c th m ls (pop_at p th m)
  pop_at-Best p t rest b =
      let q = m.queues p in
      let held : Holds th.links q (t ∷ rest) =
        subst (λ xs. Holds th.links q xs) b.at_head (r.holds p) in
      rw (pop_front-Holds {th = th} {q = q} t rest held) (
        popped p t rest (unlink th.links q t).0 _ b (Best-below p t rest b)
          (unlink-Holds [] t rest held).1 (taken_out r [] t rest b.at_head))

  -- On a matrix that represents lists of threads, a pop takes the head of the first list in use,
  -- clears its links, and leaves a matrix that represents the lists without it; where no list is
  -- in use, it gives null and changes nothing.
  pub pop_best_thread-Popped : Popped c th m ls (pop_best_thread th m)
  unfolding pop_best_thread
  pop_best_thread-Popped = elim (Bool-cases (m.bitmap == 0)) [
    | inl z ↦ rw z (nothing (empty_of_zero ((==_iff _ 0).0 z)))
    | inr nz ↦ rw nz (
        let (t, rest, b) = first_used_of_lowest (ground arith) in
        pop_at-Best (lowest m.bitmap) t rest b)
  ]

  -- On a matrix that represents lists of threads, `best_priority` is -1 and `peek_best_thread`
  -- null where every list is empty, and else they name the first list in use and its head.
  observers-Best :
      ((best_priority m ≡ none) × (peek_best_thread m ≡ none) × AllEmpty ls)
      ⊎ ((p : ℕ) × (t : ℕ) × (rest : List ℕ) × (best_priority m ≡ some p)
          × (peek_best_thread m ≡ some t)
          × Best ls p t rest)
  unfolding best_priority peek_best_thread
  observers-Best = elim (Bool-cases (m.bitmap == 0)) [
    | inl z ↦ inl (rw z, rw z, empty_of_zero ((==_iff _ 0).0 z))
    | inr nz ↦
        let (t, rest, b) = first_used_of_lowest (ground arith) in
        inr (
          lowest m.bitmap,
          t,
          rest,
          rw nz,
          rw nz ((r.holds (lowest m.bitmap)).starts ∙ ap (λ xs. first xs none) b.at_head),
          b,
        )
  ]

  -- Removing a thread that a matrix's list of its priority holds takes it out of that list,
  -- clears its links, and leaves a matrix that represents the lists that are left. No assertion
  -- fails.
  pub remove_thread-Represents :
      (us : List ℕ) (t : ℕ) (vs : List ℕ)
      → ls (th.effective_priority t) ≡ us ++ t ∷ vs
      → let p = th.effective_priority t in
        (l : Links) × (m' : ReadyMatrix) × (remove_thread th m t
          ≡ some (record th { links = l }, m'))
        × Represents c (record th { links = l }) m' (update ls p (us ++ vs))
        × (is_enqueued l t ≡ false)
  unfolding remove_thread
  remove_thread-Represents us t vs eq =
      let q = m.queues (th.effective_priority t) in
      let held : Holds th.links q (us ++ t ∷ vs) =
        subst (λ xs. Holds th.links q xs) eq (r.holds (th.effective_priority t)) in
      (
        (unlink th.links q t).0,
        _,
        rw (remove-Holds {th = th} {q = q} us t vs held) refl,
        taken_out r us t vs eq,
        (unlink-Holds us t vs held).1,
      )
