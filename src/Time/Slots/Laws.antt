-- ===== src/Time/Slots/Laws.antt =====
-- What a pass over the slots fires, and the slots that it leaves.
use mathlib.Core.List.{append_assoc}
use co_rtos.Base.{
  ℕ, zero, suc, ◌+◌, Ptr, none, some, true, false, if◌then◌else◌, List, [], ◌∷◌, ◌++◌, length,
  length-append, get_or, set, All, ◌≡◌, refl, sym, ◌∙◌, ap, subst, inl, inr, Bool-cases, arith,
}
use co_rtos.Time.Slots.{Slot, free_slot, is_due, invoke, fire_from}

abbrev pub due_slots : ℕ → List Slot → List Slot
due_slots now [] = []
due_slots now (s ∷ ss) = if is_due now s then s ∷ due_slots now ss else due_slots now ss

abbrev pub freed_if_due : ℕ → List Slot → List Slot
freed_if_due now [] = []
freed_if_due now (s ∷ ss) = (if is_due now s then free_slot else s) ∷ freed_if_due now ss

-- None of the first `i` slots is due.
abbrev pub NoneDue : ℕ → ℕ → List Slot → Type 0
NoneDue now zero ss = Unit
NoneDue now (suc i) [] = Unit
NoneDue now (suc i) (s ∷ ss) = (is_due now s ≡ false) × NoneDue now i ss

get_or-middle :
    (us : List Slot) (x : Slot) (vs : List Slot) → get_or (us ++ x ∷ vs) (length us) free_slot ≡ x
get_or-middle [] x vs = refl
get_or-middle (u ∷ us) x vs = get_or-middle us x vs

set-middle :
    (us : List Slot) (x y : Slot) (vs : List Slot) → set (us ++ x ∷ vs) (length us) y ≡ us ++ y ∷ vs
set-middle [] x y vs = refl
set-middle (u ∷ us) x y vs = ap (λ l. u ∷ l) (set-middle us x y vs)

one_on : (i : ℕ) → suc i ≡ i + 1
one_on i = omega arith

one_round : (i n : ℕ) → i + 1 + n ≡ i + suc n
one_round i n = omega arith

NoneDue-snoc :
    (now i : ℕ) (ss : List Slot)
    → NoneDue now i ss
    → is_due now (get_or ss i free_slot) ≡ false
    → NoneDue now (suc i) ss
NoneDue-snoc now zero [] h k = tt
NoneDue-snoc now (suc i) [] h k = tt
NoneDue-snoc now zero (s ∷ ss) h k = (k, tt)
NoneDue-snoc now (suc i) (s ∷ ss) h k = (h.0, NoneDue-snoc now i ss h.1 k)

NoneDue-freed :
    (now i : ℕ) (ss : List Slot) → NoneDue now i ss → NoneDue now (suc i) (set ss i free_slot)
NoneDue-freed now zero [] h = tt
NoneDue-freed now (suc i) [] h = tt
NoneDue-freed now zero (s ∷ ss) h = (refl, tt)
NoneDue-freed now (suc i) (s ∷ ss) h = (h.0, NoneDue-freed now i ss h.1)

module _ {D : Type 0} (slots : D → List Slot) (with_slots : D → List Slot → D)
    (lens : (d : D) (ss : List Slot) → slots (with_slots d ss) ≡ ss) (run : ℕ → ℕ → D → D)
    (now : ℕ) where
  -- Only due slots fire, whatever the callbacks do.
  pub fire_from-due :
      (n i : ℕ) (d : D)
      → All (λ s. is_due now s ≡ true) (fire_from slots with_slots run now n i d).1
  unfolding fire_from
  fire_from-due zero i d = tt
  fire_from-due (suc n) i d = elim (Bool-cases (is_due now (get_or (slots d) i free_slot))) [
    | inl due ↦ rw due (due, fire_from-due n (i + 1) _)
    | inr later ↦ rw later (fire_from-due n (i + 1) d)
  ]

  -- A pass leaves no slot due, if no callback makes due a slot that the pass is past.
  pub fire_from-NoneDue :
      ((f a i : ℕ) (d : D) → NoneDue now i (slots d) → NoneDue now i (slots (run f a d)))
      → (n i : ℕ) (d : D) → NoneDue now i (slots d)
      → NoneDue now (i + n) (slots (fire_from slots with_slots run now n i d).0)
  unfolding fire_from invoke
  fire_from-NoneDue keep zero i d h = subst (λ k. NoneDue now k (slots d)) (omega arith) h
  fire_from-NoneDue keep (suc n) i d h =
      elim (Bool-cases (is_due now (get_or (slots d) i free_slot))) [
        | inl due ↦ rw due (shift _ (fire_from-NoneDue keep n (i + 1) _ (after _)))
        | inr later ↦ rw later (
            shift _ (
              fire_from-NoneDue keep n (i + 1) d (onward _ (NoneDue-snoc now i (slots d) h later))))
      ]
    where
      shift : (ss : List Slot) → NoneDue now (i + 1 + n) ss → NoneDue now (i + suc n) ss
      shift ss = subst (λ k. NoneDue now k ss) (one_round i n)

      onward : (ss : List Slot) → NoneDue now (suc i) ss → NoneDue now (i + 1) ss
      onward ss = subst (λ k. NoneDue now k ss) (one_on i)

      freed : D
      freed = with_slots d (set (slots d) i free_slot)

      clean : NoneDue now (i + 1) (slots freed)
      clean = onward _ (rw (lens d (set (slots d) i free_slot)) (NoneDue-freed now i (slots d) h))

      after :
          (c : Ptr)
          → NoneDue now (i + 1) (slots (invoke run c (get_or (slots d) i free_slot).arg freed))
      after none = clean
      after (some f) = keep f _ (i + 1) freed clean

module _ {D : Type 0} (slots : D → List Slot) (with_slots : D → List Slot → D)
    (lens : (d : D) (ss : List Slot) → slots (with_slots d ss) ≡ ss) (now : ℕ) where
  quiet : ℕ → ℕ → D → D
  quiet f a d = d

  invoke-quiet : (c : Ptr) (a : ℕ) (d : D) → invoke quiet c a d ≡ d
  unfolding invoke quiet
  invoke-quiet none a d = refl
  invoke-quiet (some f) a d = refl

  step_due :
      (n i : ℕ) (d : D) (s : Slot)
      → get_or (slots d) i free_slot ≡ s
      → is_due now s ≡ true
      → let r =
          fire_from slots with_slots quiet now n
            (i + 1)
            (with_slots d (set (slots d) i free_slot)) in
        fire_from slots with_slots quiet now (suc n) i d ≡ (r.0, s ∷ r.1)
  unfolding fire_from
  step_due n i d s e due = rw (e, due, invoke-quiet)

  step_later :
      (n i : ℕ) (d : D) (s : Slot)
      → get_or (slots d) i free_slot ≡ s
      → is_due now s ≡ false
      → fire_from slots with_slots quiet now (suc n) i d
        ≡ fire_from slots with_slots quiet now n (i + 1) d
  unfolding fire_from
  step_later n i d s e later = rw (e, later)

  -- With callbacks that leave the driver alone, a pass fires the due slots, each once and in slot
  -- order, and frees exactly those.
  pub fire_from-quiet :
      (us ss : List Slot) (i : ℕ) (d : D)
      → i ≡ length us
      → slots d ≡ us ++ ss
      → let r = fire_from slots with_slots (λ f a e. e) now (length ss) i d in
        (r.1 ≡ due_slots now ss) × (slots r.0 ≡ us ++ freed_if_due now ss)
  unfolding quiet
  fire_from-quiet us [] i d k e = unfold fire_from in (refl, e)
  fire_from-quiet us (s ∷ ss) i d k e = elim (Bool-cases (is_due now s)) [
    | inl due ↦
        let ih = fire_from-quiet (us ++ free_slot ∷ []) ss (i + 1) freed (next free_slot) cleared in
        rw (step_due (length ss) i d s here due, due)
          (ap (λ l. s ∷ l) ih.0, ih.1 ∙ append_assoc us (free_slot ∷ []) (freed_if_due now ss))
    | inr later ↦
        let ih =
          fire_from-quiet (us ++ s ∷ []) ss (i + 1) d (next s)
            (e ∙ sym (append_assoc us (s ∷ []) ss)) in
        rw (step_later (length ss) i d s here later, later)
          (ih.0, ih.1 ∙ append_assoc us (s ∷ []) (freed_if_due now ss))
  ]
    where
      freed : D
      freed = with_slots d (set (slots d) i free_slot)

      here : get_or (slots d) i free_slot ≡ s
      here =
          ap (λ l. get_or l i free_slot) e
          ∙ ap (λ j. get_or (us ++ s ∷ ss) j free_slot) k
          ∙ get_or-middle us s ss

      next : (x : Slot) → i + 1 ≡ length (us ++ x ∷ [])
      next x = omega (arith, k, length-append us (x ∷ []))

      cleared : slots freed ≡ (us ++ free_slot ∷ []) ++ ss
      cleared =
          lens d (set (slots d) i free_slot)
          ∙ ap (λ l. set l i free_slot) e
          ∙ ap (λ j. set (us ++ s ∷ ss) j free_slot) k
          ∙ set-middle us s free_slot ss
          ∙ sym (append_assoc us (free_slot ∷ []) ss)
