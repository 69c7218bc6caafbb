-- ===== src/Wait/Waitable/Pick.antt =====
-- What a pick from the wait queue promises: the first of the best live nodes.
use mathlib.Core.List.{append_assoc, append-nil}
use co_rtos.Base.{
  ℕ, zero, suc, ◌≤◌, ◌<◌, Ptr, none, some, Bool, true, false, not, ltb, ◌&&◌, if◌then◌else◌, List,
  [], ◌∷◌, ◌++◌, length, All, All-append, ptr_eq, ◌≡◌, refl, sym, ap, ◌∙◌, subst, inl, inr,
  Bool-cases, arith,
}
use co_rtos.Base.Members.{All-map}
use co_rtos.Intrusive.Chain.{Chain, first}
use co_rtos.Threads.{Threads}
use co_rtos.Wait.Nodes.{WaitNodes}
use co_rtos.Wait.Waitable.{Waitable, is_done, beats, pick_from, pick_best}
use co_rtos.Wait.Waitable.Laws.{Queues}

abbrev pub level : WaitNodes → Threads → ℕ → ℕ
level ns th a = th.effective_priority (ns.tcb a)

-- The pick `r` among the nodes `xs`.
pub data Picked (ns : WaitNodes) (th : Threads) (done : ℕ → Bool) (xs : List ℕ) : Ptr → Type 0 where
  nobody : All (λ b. is_done done (ns.group b) ≡ true) xs → Picked ns th done xs none
  somebody :
      (us : List ℕ) (a : ℕ) (vs : List ℕ)
      → xs ≡ us ++ a ∷ vs
      → is_done done (ns.group a) ≡ false
      → All (λ b. is_done done (ns.group b) ≡ false → level ns th a < level ns th b) us
      → All (λ b. is_done done (ns.group b) ≡ false → level ns th a ≤ level ns th b) vs
      → Picked ns th done xs (some a)

-- The best of the nodes so far and its level, as the loop keeps them.
abbrev Kept : WaitNodes → Threads → Ptr → ℕ → Type 0
Kept ns th none priority = Unit
Kept ns th (some b) priority = priority ≡ level ns th b

takes : WaitNodes → Threads → (ℕ → Bool) → ℕ → Ptr → ℕ → Bool
takes ns th done a best priority =
    not (is_done done (ns.group a)) && beats th (ns.tcb a) best priority

below-All :
    (ns : WaitNodes) (th : Threads) (done : ℕ → Bool) (a b : ℕ) (xs : List ℕ)
    → level ns th a < level ns th b
    → All (λ c. is_done done (ns.group c) ≡ false → level ns th b ≤ level ns th c) xs
    → All (λ c. is_done done (ns.group c) ≡ false → level ns th a < level ns th c) xs
below-All ns th done a b xs lt = All-map (λ c h l. omega (arith, h l)) xs

none_live :
    (ns : WaitNodes) (th : Threads) (done : ℕ → Bool) (a : ℕ) (xs : List ℕ)
    → All (λ c. is_done done (ns.group c) ≡ true) xs
    → All (λ c. is_done done (ns.group c) ≡ false → level ns th a < level ns th c) xs
none_live ns th done a xs = All-map (λ c h l. absurd (cc)) xs

stays-Picked :
    (ns : WaitNodes) (th : Threads) (done : ℕ → Bool) (us : List ℕ) (b : ℕ) (vs : List ℕ) (a : ℕ)
    (xs : List ℕ)
    → xs ≡ us ++ b ∷ vs
    → is_done done (ns.group b) ≡ false
    → All (λ c. is_done done (ns.group c) ≡ false → level ns th b < level ns th c) us
    → All (λ c. is_done done (ns.group c) ≡ false → level ns th b ≤ level ns th c) vs
    → (is_done done (ns.group a) ≡ false → level ns th b ≤ level ns th a)
    → Picked ns th done (xs ++ a ∷ []) (some b)
stays-Picked ns th done us b vs a xs e alive less leq new =
    somebody us b (vs ++ a ∷ []) (ap (λ l. l ++ a ∷ []) e ∙ append_assoc us (b ∷ vs) (a ∷ [])) alive
      less (All-append _ vs (a ∷ []) leq (new, tt))

leads-Picked :
    (ns : WaitNodes) (th : Threads) (done : ℕ → Bool) (us : List ℕ) (b : ℕ) (vs : List ℕ) (a : ℕ)
    (xs : List ℕ)
    → xs ≡ us ++ b ∷ vs
    → All (λ c. is_done done (ns.group c) ≡ false → level ns th b < level ns th c) us
    → All (λ c. is_done done (ns.group c) ≡ false → level ns th b ≤ level ns th c) vs
    → is_done done (ns.group a) ≡ false
    → level ns th a < level ns th b
    → Picked ns th done (xs ++ a ∷ []) (some a)
leads-Picked ns th done us b vs a xs e less leq here lt =
    somebody xs a [] refl here (subst (All _) (sym e) behind) tt
  where
    behind :
        All (λ c. is_done done (ns.group c) ≡ false → level ns th a < level ns th c) (us ++ b ∷ vs)
    behind =
        All-append _ us (b ∷ vs) (All-map (λ c h l. omega (arith, h l, lt)) us less)
          ((λ l. lt), below-All ns th done a b vs lt leq)

step-Picked :
    (ns : WaitNodes) (th : Threads) (done : ℕ → Bool) (xs : List ℕ) (a : ℕ) (best : Ptr)
    (priority : ℕ)
    → Kept ns th best priority
    → Picked ns th done xs best
    → Picked ns th done (xs ++ a ∷ []) (if takes ns th done a best priority then some a else best)
unfolding takes beats
step-Picked ns th done xs a none priority k (nobody all) =
    elim (Bool-cases (is_done done (ns.group a))) [
      | inl gone ↦ rw gone (nobody (All-append _ xs (a ∷ []) all (gone, tt)))
      | inr here ↦ rw here (somebody xs a [] refl here (none_live ns th done a xs all) tt)
    ]
step-Picked ns th done xs a (some b) priority k (somebody us _ vs e alive less leq) =
    elim (Bool-cases (is_done done (ns.group a))) [
      | inl gone ↦
          rw gone (stays-Picked ns th done us b vs a xs e alive less leq (λ here. absurd (cc)))
      | inr here ↦ elim (Bool-cases (ltb (level ns th a) priority)) [
        | inl lt ↦
            rw (here, lt) (leads-Picked ns th done us b vs a xs e less leq here (ground (arith, k)))
        | inr ge ↦
            rw (here, ge)
              (stays-Picked ns th done us b vs a xs e alive less leq (λ l. ground (arith, k)))
      ]
    ]

step-Kept :
    (ns : WaitNodes) (th : Threads) (t : Bool) (a : ℕ) (best : Ptr) (priority : ℕ)
    → Kept ns th best priority
    → Kept ns th (if t then some a else best) (if t then level ns th a else priority)
step-Kept ns th true a best priority k = refl
step-Kept ns th false a best priority k = k

pick_from-Picked :
    (w : Waitable) (ns : WaitNodes) (th : Threads) (done : ℕ → Bool)
    → (fuel : ℕ) (p : Ptr) (xs ys : List ℕ) (best : Ptr) (priority : ℕ) → Chain ns.links p ys none
    → All (λ a. ns.waitable a ≡ some w.self) ys
    → All (λ a. ns.active a ≡ true) ys
    → length ys < fuel
    → Kept ns th best priority
    → Picked ns th done xs best
    → (r : Ptr) × (pick_from w ns th done fuel (first ys none) best priority ≡ some r)
      × Picked ns th done (xs ++ ys) r
unfolding pick_from takes
pick_from-Picked w ns th done zero p xs ys best priority c named act enough k h = elim enough [ ]
pick_from-Picked w ns th done (suc fuel) p xs [] best priority c named act enough k h =
    (best, refl, subst (λ l. Picked ns th done l best) (sym (append-nil xs)) h)
pick_from-Picked w ns th done (suc fuel) p xs (a ∷ ys) best priority c named act enough k h =
    let t = takes ns th done a best priority in
    let (r, e, picked) =
      pick_from-Picked w ns th done fuel (some a) (xs ++ a ∷ []) ys (if t then some a else best)
        (if t then level ns th a else priority) c.2 named.1 act.1 (omega arith)
        (step-Kept ns th t a best priority k) (step-Picked ns th done xs a best priority k h) in
    let mine : ptr_eq (ns.waitable a) (some w.self) ≡ true = ground (arith, named.0) in
    (
      r,
      rw (act.0, mine, c.1) e,
      subst (λ l. Picked ns th done l r) (append_assoc xs (a ∷ []) ys) picked,
    )

-- On a queue whose nodes are active and name it, a pick with fuel above their number passes its
-- assertions and ends. It gives the first node of the least priority number among those whose
-- group is not done, or null if every group is done.
pub pick_best-Picked :
    (w : Waitable) (ns : WaitNodes) (th : Threads) (done : ℕ → Bool) (xs : List ℕ) (fuel : ℕ)
    → Queues w ns xs
    → All (λ a. ns.active a ≡ true) xs
    → length xs < fuel
    → (r : Ptr) × (pick_best w ns th done fuel ≡ some r) × Picked ns th done xs r
unfolding pick_best
pick_best-Picked w ns th done xs fuel q act enough =
    subst
      (λ h. (r : Ptr) × (pick_from w ns th done fuel h none 255 ≡ some r) × Picked ns th done xs r)
      (sym q.holds.starts)
      (pick_from-Picked w ns th done fuel none [] xs none 255 q.holds.chain q.named act enough tt
        (nobody tt))
