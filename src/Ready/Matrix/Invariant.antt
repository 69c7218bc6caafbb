-- ===== src/Ready/Matrix/Invariant.antt =====
-- What a ready matrix stands for: a list of threads for each priority.
use co_rtos.Base.Bits.{test_bit}
use co_rtos.Base.{
  ℕ, ◌≤◌, ◌<◌, ◌^◌, Bool, true, false, ◌==◌, ==_iff, subst, sym, if◌then◌else◌, update, ◌≡◌, ◌≢◌,
  ◌⊎◌, inl, inr, List, [], ◌∷◌, All, Lacks, Bool-cases, arith,
}
use co_rtos.Config.{max_priorities}
use co_rtos.Intrusive.{Links, Ends, is_enqueued}
use co_rtos.Intrusive.Chain.{Holds, SameLinks, Apart, Chain-frame}
use co_rtos.Ready.Matrix.{ReadyMatrix}
use co_rtos.Threads.{Threads, State}

abbrev pub nonempty : List ℕ → Bool
nonempty [] = false
nonempty (x ∷ xs) = true

-- A thread in the list of priority `p` of core `c`.
abbrev pub Member : Threads → ℕ → ℕ → ℕ → Type 0
Member th c p t =
    (th.state t ≡ State.ready) × (th.effective_priority t ≡ p) × (th.pinned_core t ≡ c)

-- The matrix of core `c` holds, for each priority `p`, the threads `ls p` in order.
pub record Represents (c : ℕ) (th : Threads) (m : ReadyMatrix) (ls : ℕ → List ℕ) : Type 0 where
  pub holds : (p : ℕ) → Holds th.links (m.queues p) (ls p)
  pub bits : (p : ℕ) → p < 32 → test_bit m.bitmap p ≡ nonempty (ls p)
  pub word : m.bitmap < 2 ^ 32
  pub high : (p : ℕ) → max_priorities ≤ p → ls p ≡ []
  pub members : (p : ℕ) → All (Member th c p) (ls p)
  pub unlinked :
      (t : ℕ)
      → th.pinned_core t ≡ c
      → Lacks t (ls (th.effective_priority t))
      → is_enqueued th.links t ≡ false

Holds-frame :
    (l l' : Links) (e : Ends) (xs : List ℕ) → All (SameLinks l l') xs → Holds l e xs → Holds l' e xs
Holds-frame l l' e xs same h = record {
  starts = h.starts;
  ends = h.ends;
  chain = Chain-frame l l' _ xs _ same h.chain;
  distinct = h.distinct;
}

module _ (th : Threads) (c : ℕ) where
  -- A thread of another priority or core is in none of the lists of this one.
  pub Lacks-of_Member :
      {p : ℕ} (t : ℕ) (xs : List ℕ)
      → (th.effective_priority t ≢ p) ⊎ (th.pinned_core t ≢ c)
      → All (Member th c p) xs
      → Lacks t xs
  Lacks-of_Member t [] ne h = tt
  Lacks-of_Member {p} t (x ∷ xs) ne h = (apart ne, Lacks-of_Member t xs ne h.1)
    where
      apart : (th.effective_priority t ≢ p) ⊎ (th.pinned_core t ≢ c) → t ≢ x
      apart (inl f) e = f (rw e h.0.1)
      apart (inr f) e = f (rw e h.0.2)

  Apart-of_Members :
      {p q c' : ℕ} (ys xs : List ℕ)
      → (q ≢ p) ⊎ (c' ≢ c)
      → All (Member th c' q) ys
      → All (Member th c p) xs
      → Apart ys xs
  Apart-of_Members [] xs ne hy hx = tt
  Apart-of_Members {p} {q} {c'} (y ∷ ys) xs ne hy hx =
      (Lacks-of_Member y xs (other ne) hx, Apart-of_Members ys xs ne hy.1 hx)
    where
      other : (q ≢ p) ⊎ (c' ≢ c) → (th.effective_priority y ≢ p) ⊎ (th.pinned_core y ≢ c)
      other (inl f) = inl (λ e. f (ground arith))
      other (inr f) = inr (λ e. f (ground arith))

-- A change of links that touches no node outside `zs`.
abbrev pub Spares : Links → Links → List ℕ → Type 0
Spares l l' zs = (ys : List ℕ) → Apart ys zs → All (SameLinks l l') ys

same-enqueued :
    (l l' : Links) (a : ℕ) → SameLinks l l' a → is_enqueued l a ≡ false → is_enqueued l' a ≡ false
same-enqueued l l' a same h = rw (same.0, same.1) h

-- A change of the list of one priority: its queue and bit are written, the links of the threads
-- `zs` are touched, and what leaves the list is left with no links.
pub record Change (c p : ℕ) (th : Threads) (m : ReadyMatrix) (xs zs xs' : List ℕ) (l : Links)
    (e : Ends) (b : ℕ) : Type 0 where
  pub now : Holds l e xs'
  pub spares : Spares th.links l zs
  pub touched : All (Member th c p) zs
  pub keeps : All (Member th c p) xs'
  pub covers : (a : ℕ) → Lacks a zs → Lacks a xs
  pub leaves : (a : ℕ) → Lacks a xs' → (Lacks a zs) ⊎ (is_enqueued l a ≡ false)
  pub bit : (q : ℕ) → q < 32 → test_bit b q ≡ (if q == p then nonempty xs' else test_bit m.bitmap q)
  pub small : b < 2 ^ 32
  pub below : p < max_priorities

module _ {c p : ℕ} {th : Threads} {m : ReadyMatrix} {ls : ℕ → List ℕ} {zs xs' : List ℕ} {l : Links}
    {e : Ends} {b : ℕ} (r : Represents c th m ls) (k : Change c p th m (ls p) zs xs' l e b) where
  abbrev th' : Threads
  th' = record th { links = l }

  change_holds : (q : ℕ) → Holds l (update m.queues p e q) (update ls p xs' q)
  change_holds q = elim (Bool-cases (q == p)) [
    | inl eq ↦ rw eq k.now
    | inr ne ↦ rw ne (
        Holds-frame th.links l (m.queues q) (ls q)
          (k.spares (ls q)
            (Apart-of_Members th c (ls q) zs (inl (ground arith)) (r.members q) k.touched))
          (r.holds q))
  ]

  change_members : (q : ℕ) → All (Member th' c q) (update ls p xs' q)
  change_members q = elim (Bool-cases (q == p)) [
    | inl eq ↦ rw eq (subst (λ s. All (Member th' c s) xs') (sym ((==_iff q p).0 eq)) k.keeps)
    | inr ne ↦ rw ne (r.members q)
  ]

  change_unlinked :
      (t : ℕ)
      → th.pinned_core t ≡ c
      → Lacks t (update ls p xs' (th.effective_priority t))
      → is_enqueued l t ≡ false
  change_unlinked t pin out = elim (Bool-cases (th.effective_priority t == p)) [
    | inl eq ↦ at_p ((==_iff _ p).0 eq) (k.leaves t (rw eq at out))
    | inr ne ↦
        let o : Lacks t (ls (th.effective_priority t)) = rw ne at out in
        same-enqueued th.links l t (k.spares (t ∷ []) (away ne, tt)).0 (r.unlinked t pin o)
  ]
    where
      away : (th.effective_priority t == p) ≡ false → Lacks t zs
      away ne = Lacks-of_Member th c t zs (inl (ground arith)) k.touched

      at_p :
          th.effective_priority t ≡ p
          → (Lacks t zs) ⊎ (is_enqueued l t ≡ false)
          → is_enqueued l t ≡ false
      at_p eq (inr free) = free
      at_p eq (inl o) =
          same-enqueued th.links l t (k.spares (t ∷ []) (o, tt)).0
            (r.unlinked t pin (subst (λ s. Lacks t (ls s)) (sym eq) (k.covers t o)))

  pub change-Represents :
      Represents c th' (record { queues = update m.queues p e; bitmap = b }) (update ls p xs')
  change-Represents = record {
    holds = change_holds;
    bits = λ q lt. ground (arith, k.bit q lt, r.bits q lt);
    word = k.small;
    high = λ q le. ground (arith, k.below, r.high q le);
    members = change_members;
    unlinked = change_unlinked;
  }
