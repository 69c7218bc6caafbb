-- ===== src/Ready/Matrix/Laws.antt =====
-- The operations of the ready matrix, on the lists that it stands for: enqueueing appends to the
-- list of the thread's priority, and the best thread is the head of the first list in use.
use co_rtos.Base.Bits.{
  test_bit, bit_not, test_bit-or, test_bit-and, test_bit-not, test_bit-pow, pow_mono, or_bound,
  and-le,
}
use native.Mathlib.Decide.{dec_lt, ℕ_discrete}
use native.Mathlib.Nat.{pow-suc, one-le-pow}
use co_rtos.Base.Members.{Lacks-append, Lacks-split, All-split}
use co_rtos.Base.{
  ℕ, suc, ◌<◌, ◌^◌, some, true, false, ◌==◌, ==_iff, lt→ltb, if◌then◌else◌, update, ◌≡◌, refl, sym,
  ◌∙◌, subst, ◌⊎◌, inl, inr, List, [], ◌∷◌, ◌++◌, All, All-append, Lacks, Bool-cases, arith,
}
use co_rtos.Config.{max_priorities}
use co_rtos.Intrusive.{Links, Ends, link_back, unlink}
use co_rtos.Intrusive.Chain.{Holds, Apart}
use co_rtos.Intrusive.Ops.{unlink-Holds, unlink-frame}
use co_rtos.Intrusive.Appending.{link_back-Holds, link_back-frame}
use co_rtos.Ready.Matrix.{ReadyMatrix, clear_bit, raise_bit, clear_if_empty, enqueue_thread}
use co_rtos.Ready.Matrix.Invariant.{nonempty, Member, Represents, Change, change-Represents}
use co_rtos.Ready.Queue.Laws.{push_back-Holds}
use co_rtos.Threads.{Threads, State}

bit_fits : (p : ℕ) → p < 32 → 2 ^ p < 2 ^ 32
bit_fits p lt = omega (arith, pow_mono (suc p) 32 lt, pow-suc 2 p, one-le-pow p 2)

raise_bit-bit : (b p q : ℕ) → test_bit (raise_bit b p) q ≡ (if q == p then true else test_bit b q)
raise_bit-bit b p q = test_bit-or q b (2 ^ p) ∙ ground (arith, test_bit-pow q p)

clear_bit-bit :
    (b p q : ℕ)
    → p < 32
    → q < 32
    → test_bit (clear_bit b p) q ≡ (if q == p then false else test_bit b q)
clear_bit-bit b p q lp lq =
    test_bit-and q b (bit_not 32 (2 ^ p))
    ∙ ground (arith, test_bit-not 32 q (2 ^ p) (bit_fits p lp) lq, test_bit-pow q p)

-- The word after the queue of priority `p` has become one that holds `xs`.
clear_if_empty-bit :
    (l : Links) (e : Ends) (xs : List ℕ) (b p q : ℕ)
    → Holds l e xs
    → test_bit b p ≡ true
    → p < 32
    → q < 32
    → test_bit (clear_if_empty e b p) q ≡ (if q == p then nonempty xs else test_bit b q)
clear_if_empty-bit l e [] b p q h old lp lq = rw h.starts (clear_bit-bit b p q lp lq)
clear_if_empty-bit l e (x ∷ xs) b p q h old lp lq = rw h.starts (keep (Bool-cases (q == p)))
  where
    keep :
        ((q == p) ≡ true) ⊎ ((q == p) ≡ false)
        → test_bit b q ≡ (if q == p then true else test_bit b q)
    keep (inl eq) = rw eq (subst (λ s. test_bit b s ≡ true) (sym ((==_iff q p).0 eq)) old)
    keep (inr ne) = rw ne

clear_if_empty-word : (e : Ends) (b p : ℕ) → b < 2 ^ 32 → clear_if_empty e b p < 2 ^ 32
clear_if_empty-word e b p h = ground (arith, and-le 32 b (bit_not 32 (2 ^ p)) h)

nonempty-snoc : (xs : List ℕ) (t : ℕ) → nonempty (xs ++ t ∷ []) ≡ true
nonempty-snoc [] t = refl
nonempty-snoc (x ∷ xs) t = refl

Apart-snoc : (ys xs : List ℕ) (t : ℕ) → Apart ys (xs ++ t ∷ []) → Apart ys xs × Lacks t ys
Apart-snoc [] xs t h = (tt, tt)
Apart-snoc (y ∷ ys) xs t h =
    let s = Lacks-split y xs (t ∷ []) h.0 in
    let r = Apart-snoc ys xs t h.1 in ((s.0, r.0), ((λ e. s.1.0 (ground arith)), r.1))

nonempty-middle : (us : List ℕ) (t : ℕ) (vs : List ℕ) → nonempty (us ++ t ∷ vs) ≡ true
nonempty-middle [] t vs = refl
nonempty-middle (u ∷ us) t vs = refl

module _ {c : ℕ} {th : Threads} {m : ReadyMatrix} {ls : ℕ → List ℕ} (r : Represents c th m ls) where
  -- A ready thread of this core with a priority in range that no list holds goes to the end of
  -- the list of its priority. No assertion fails, only links change in the thread store, and the
  -- matrix represents the new lists.
  pub enqueue_thread-Represents :
      (t : ℕ)
      → th.effective_priority t < max_priorities
      → th.state t ≡ State.ready
      → th.pinned_core t ≡ c
      → Lacks t (ls (th.effective_priority t))
      → let p = th.effective_priority t in
        (l : Links) × (m' : ReadyMatrix) × (enqueue_thread th m t
          ≡ some (record th { links = l }, m'))
        × Represents c (record th { links = l }) m' (update ls p (ls p ++ t ∷ []))
  unfolding enqueue_thread
  enqueue_thread-Represents t lt rdy pin out =
      let p = th.effective_priority t in
      let q = m.queues p in
      (
        (link_back th.links q t).0,
        record {
          queues = update m.queues p (link_back th.links q t).1;
          bitmap = raise_bit m.bitmap p;
        },
        rw (
          lt→ltb p max_priorities lt,
          rdy,
          push_back-Holds {th = th} {q = q} t (ls p) (r.holds p) out (r.unlinked t pin out) rdy,
        ),
        change-Represents r change,
      )
    where
      p : ℕ
      p = th.effective_priority t

      both : All (Member th c p) (ls p ++ t ∷ [])
      both = All-append (Member th c p) (ls p) (t ∷ []) (r.members p) ((rdy, refl, pin), tt)

      change :
          Change c p th m
            (ls p)
            (ls p ++ t ∷ [])
            (ls p ++ t ∷ [])
            (link_back th.links (m.queues p) t).0
            (link_back th.links (m.queues p) t).1
            (raise_bit m.bitmap p)
      change = record {
        now = link_back-Holds t (ls p) (r.holds p) out;
        spares = λ ys apart.
            let a = Apart-snoc ys (ls p) t apart in link_back-frame t ys (r.holds p) a.1 a.0;
        touched = both;
        keeps = both;
        covers = λ a o. (Lacks-split a (ls p) (t ∷ []) o).0;
        leaves = λ a o. inl o;
        bit = λ s lt'. raise_bit-bit m.bitmap p s ∙ rw (nonempty-snoc (ls p) t);
        small = or_bound 32 m.bitmap (2 ^ p) r.word (bit_fits p (omega arith));
        below = lt;
      }

  -- What leaves the list of priority `p`, and what stays of it.
  pub taken_out :
      {p : ℕ} (us : List ℕ) (t : ℕ) (vs : List ℕ)
      → ls p ≡ us ++ t ∷ vs
      → let q = m.queues p in
        let (l, e) = unlink th.links q t in
        Represents c
          (record th { links = l })
          (record { queues = update m.queues p e; bitmap = clear_if_empty e m.bitmap p })
          (update ls p (us ++ vs))
  taken_out {p} us t vs eq = change-Represents r change
    where
      l : Links
      l = (unlink th.links (m.queues p) t).0

      e : Ends
      e = (unlink th.links (m.queues p) t).1

      held : Holds th.links (m.queues p) (us ++ t ∷ vs)
      held = subst (λ xs. Holds th.links (m.queues p) xs) eq (r.holds p)

      old : All (Member th c p) (us ++ t ∷ vs)
      old = subst (λ xs. All (Member th c p) xs) eq (r.members p)

      parts : All (Member th c p) us × All (Member th c p) (t ∷ vs)
      parts = All-split (Member th c p) us (t ∷ vs) old

      was_set : nonempty (ls p) ≡ true
      was_set = rw eq (nonempty-middle us t vs)

      below : p < max_priorities
      below = elim (dec_lt p max_priorities) [
        | yes lt ↦ lt
        | no ge ↦ ground (arith, r.high p, was_set)
      ]

      change : Change c p th m (ls p) (us ++ t ∷ vs) (us ++ vs) l e (clear_if_empty e m.bitmap p)
      change = record {
        now = (unlink-Holds us t vs held).0;
        spares = λ ys apart. unlink-frame us t vs ys held apart;
        touched = old;
        keeps = All-append (Member th c p) us vs parts.0 parts.1.1;
        covers = λ a o. subst (λ xs. Lacks a xs) (sym eq) o;
        leaves = λ a o. elim (ℕ_discrete a t) [
          | yes same ↦ inr (rw same ((unlink-Holds us t vs held).1))
          | no other ↦
              let s = Lacks-split a us vs o in inl (Lacks-append a us (t ∷ vs) s.0 (other, s.1))
        ];
        bit = λ s lt.
            clear_if_empty-bit l e (us ++ vs) m.bitmap p s (unlink-Holds us t vs held).0
              (r.bits p (omega (arith, below)) ∙ was_set) (omega (arith, below)) lt;
        small = clear_if_empty-word e m.bitmap p r.word;
        below = below;
      }
