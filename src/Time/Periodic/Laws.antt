-- ===== src/Time/Periodic/Laws.antt =====
-- What the periodic driver promises of scheduling, cancelling and firing.
use co_rtos.Base.{
  ℕ, ◌<◌, ◌^◌, none, some, true, ◌==◌, ==_iff, List, [], ◌∷◌, ◌++◌, length, All, ◌≡◌, refl, sym, ap,
  subst, ◌≢◌, inl, inr, Bool-cases, Option-cases,
}
use co_rtos.Time.Slots.{Slot, max_scheduled_callbacks, take_id, fill, release, is_due}
use co_rtos.Time.Slots.Laws.{
  due_slots, freed_if_due, NoneDue, fire_from-due, fire_from-NoneDue, fire_from-quiet,
}
use co_rtos.Time.Slots.Filling.{IsClean, NoId, take_id_ne, fill-none_iff, fill-place, release-fill}
use co_rtos.Time.Periodic.{DriverState, with_slots, schedule_at, cancel, on_timer_isr}

pub record IsValid (d : DriverState) : Type 0 where
  pub count : length d.slots ≡ max_scheduled_callbacks
  pub counter : d.next_id < 2 ^ 32
  pub clean : IsClean d.slots

new_slot : DriverState → ℕ → ℕ → ℕ → Slot
new_slot d when cb arg = record { id = (take_id d.next_id).0; when = when; cb = some cb; arg = arg }

filled : DriverState → List Slot → DriverState
filled d ss = record d { next_id = (take_id d.next_id).1; slots = ss }

schedule_at-full :
    (d : DriverState) (when cb arg : ℕ)
    → fill (new_slot d when cb arg) d.slots ≡ none
    → schedule_at d when (some cb) arg ≡ (d, 0)
unfolding new_slot schedule_at
schedule_at-full d when cb arg e = rw (e, schedule_at) refl

schedule_at-room :
    (d : DriverState) (when cb arg : ℕ) (ss : List Slot)
    → fill (new_slot d when cb arg) d.slots ≡ some ss
    → schedule_at d when (some cb) arg ≡ (filled d ss, (take_id d.next_id).0)
unfolding new_slot filled schedule_at take_id
schedule_at-room d when cb arg ss e = rw (e, schedule_at) refl

-- What a schedule that gave `r` has done.
pub data Placed (d : DriverState) (when cb arg : ℕ) (r : DriverState × ℕ) : Type 0 where
  refused : r ≡ (d, 0) → All (λ s. s.id ≢ 0) d.slots → Placed d when cb arg r
  placed :
      (us vs : List Slot) (x : Slot)
      → d.slots ≡ us ++ x ∷ vs
      → x.id ≡ 0
      → All (λ s. s.id ≢ 0) us
      → r.1 ≢ 0
      → r.0.slots ≡ us ++ record { id = r.1; when = when; cb = some cb; arg = arg } ∷ vs
      → Placed d when cb arg r

-- On a valid driver, a callback is scheduled if some slot is free: then the handle is not 0 and
-- the slot that was the first free one holds it, the others as before. Else every slot is in use,
-- the handle is 0 and the driver unchanged.
schedule_at-Placed :
    (d : DriverState) (when cb arg : ℕ)
    → IsValid d
    → Placed d when cb arg (schedule_at d when (some cb) arg)
schedule_at-Placed d when cb arg v = elim (Option-cases (fill (new_slot d when cb arg) d.slots)) [
  | inl full ↦ refused (schedule_at-full d when cb arg full) ((fill-none_iff _ d.slots).0 full)
  | inr (ss, e) ↦
      let (us, x, vs, a, b, z, all) = fill-place _ d.slots ss e in
      subst (Placed d when cb arg) (sym (schedule_at-room d when cb arg ss e))
        (unfold new_slot filled in placed us vs x a z all (take_id_ne d.next_id v.counter).0 b)
]

cancel-found :
    (c : DriverState) (id : ℕ) (ss : List Slot)
    → id ≢ 0
    → release id c.slots ≡ some ss
    → ((cancel c id).1 ≡ true) × ((cancel c id).0.slots ≡ ss)
unfolding cancel
cancel-found c id ss nz e = elim (Bool-cases (id == 0)) [
  | inl zero_id ↦ absurd (nz ((==_iff id 0).0 zero_id))
  | inr other ↦ rw (other, e) (refl, refl)
]

Restores : DriverState → DriverState × ℕ → Type 0
Restores d r = ((cancel r.0 r.1).1 ≡ true) × ((cancel r.0 r.1).0.slots ≡ d.slots)

-- Cancelling a handle straight after a valid driver gave it reports success and restores the
-- slots, if no slot had the id that the counter was to give.
pub cancel-schedule_at :
    (d : DriverState) (when cb arg : ℕ)
    → IsValid d
    → NoId (take_id d.next_id).0 d.slots
    → (schedule_at d when (some cb) arg).1 ≢ 0
    → let r = schedule_at d when (some cb) arg in
      ((cancel r.0 r.1).1 ≡ true) × ((cancel r.0 r.1).0.slots ≡ d.slots)
unfolding Restores
cancel-schedule_at d when cb arg v unused given =
    elim (Option-cases (fill (new_slot d when cb arg) d.slots)) [
      | inl full ↦ absurd (given (ap (λ r. r.1) (schedule_at-full d when cb arg full)))
      | inr (ss, e) ↦ subst (Restores d) (sym (schedule_at-room d when cb arg ss e)) (
          cancel-found (filled d ss) (take_id d.next_id).0 d.slots
            (take_id_ne d.next_id v.counter).0
            (unfold new_slot filled in
              release-fill _ d.slots ss unused (take_id_ne d.next_id v.counter).0 v.clean e))
    ]

-- On a valid driver, with callbacks that leave it alone, an interrupt fires the due slots, each
-- once and in slot order, and frees exactly those.
on_timer_isr-fires :
    (now : ℕ) (d : DriverState)
    → IsValid d
    → let r = on_timer_isr (λ f a e. e) now d in
      (r.1 ≡ due_slots now d.slots) × (r.0.slots ≡ freed_if_due now d.slots)
unfolding on_timer_isr
on_timer_isr-fires now d v =
    rw (sym v.count)
      (fire_from-quiet (λ e. e.slots) with_slots (λ d' ss. refl) now [] d.slots 0 d refl refl)

-- If no callback makes due one of the slots that a pass has behind it where none of them was,
-- then an interrupt fires only due slots and leaves none of the 16 slots due.
on_timer_isr-NoneDue :
    (run : ℕ → ℕ → DriverState → DriverState) (now : ℕ) (d : DriverState)
    → ((f a i : ℕ) (e : DriverState) → NoneDue now i e.slots → NoneDue now i (run f a e).slots)
    → All (λ s. is_due now s ≡ true) (on_timer_isr run now d).1
      × NoneDue now max_scheduled_callbacks (on_timer_isr run now d).0.slots
unfolding on_timer_isr
on_timer_isr-NoneDue run now d keep = (
  fire_from-due (λ e. e.slots) with_slots (λ d' ss. refl) run now max_scheduled_callbacks 0 d,
  fire_from-NoneDue (λ e. e.slots) with_slots (λ d' ss. refl) run now keep max_scheduled_callbacks 0
      d tt,
)
