-- ===== src/Time/Tickless/Laws.antt =====
-- What the tickless driver arms.
use co_rtos.Base.{
  ℕ, ◌≤◌, ◌<◌, none, some, Bool, true, false, not, ◌&&◌, ltb, ◌==◌, ==_iff, if◌then◌else◌, List, [],
  ◌∷◌, length, All, ◌≡◌, refl, sym, ap, subst, ◌≢◌, ◌⊎◌, inl, inr, Bool-cases, Option-cases, arith,
}
use co_rtos.Time.Port.{PortCall, arm, disarm}
use co_rtos.Time.Slots.{
  Slot, free_slot, max_scheduled_callbacks, take_id, fill, release, is_due, fire_from,
}
use co_rtos.Time.Slots.Laws.{due_slots, freed_if_due, fire_from-quiet}
use co_rtos.Time.Types.{max_time}
use co_rtos.Time.Tickless.{
  DriverState, with_slots, earliest_from, rearm_locked, schedule_at, cancel, on_timer_isr,
}

-- No slot in use is due before `t`.
abbrev pub NotBefore : ℕ → List Slot → Type 0
NotBefore t ss = All (λ s. s.id ≢ 0 → t ≤ s.when) ss

-- Some slot in use is due at `t`.
abbrev pub DueAt : ℕ → List Slot → Type 0
DueAt t [] = ⊥
DueAt t (s ∷ ss) = ((s.id ≢ 0) × (s.when ≡ t)) ⊎ DueAt t ss

-- The call of the port that the slots ask for.
pub data Rearms (ss : List Slot) : PortCall → Type 0 where
  disarmed : NotBefore max_time ss → Rearms ss disarm
  armed : (t : ℕ) → t < max_time → DueAt t ss → NotBefore t ss → Rearms ss (arm t)

record Least (e t : ℕ) (ss : List Slot) : Type 0 where
  bound : t ≤ e
  below : NotBefore t ss
  attained : (t ≡ e) ⊎ DueAt t ss

earliest_from-Least : (e : ℕ) (ss : List Slot) → Least e (earliest_from e ss) ss
unfolding earliest_from
earliest_from-Least e [] = record { bound = omega arith; below = tt; attained = inl refl }
earliest_from-Least e (s ∷ ss) = elim (Bool-cases (not (s.id == 0) && ltb s.when e)) [
  | inl sooner ↦
      let h = earliest_from-Least s.when ss in
      let bound : earliest_from s.when ss ≤ e = ground (arith, h.bound) in
      rw sooner (record {
        bound = bound;
        below = ((λ used. h.bound), h.below);
        attained = elim h.attained [
          | inl this ↦ inr (inl (ground arith, sym this))
          | inr later ↦ inr (inr later)
        ];
      })
  | inr later ↦
      let h = earliest_from-Least e ss in
      rw later (record {
        bound = h.bound;
        below = ((λ used. ground (arith, h.bound)), h.below);
        attained = elim h.attained [ inl start ↦ inl start | inr at ↦ inr (inr at) ];
      })
]

==-ne : (a b : ℕ) → (a == b) ≡ false → a ≢ b
==-ne a b e same = ground arith

-- `rearm_locked` disarms if no slot in use is due before the end of time, and else arms the
-- deadline that is the earliest of the slots in use.
pub rearm_locked-Rearms : (d : DriverState) → Rearms d.slots (rearm_locked d)
unfolding rearm_locked
rearm_locked-Rearms d =
    let h = earliest_from-Least max_time d.slots in
    elim (Bool-cases (earliest_from max_time d.slots == max_time)) [
      | inl never ↦
          rw never
            (disarmed (subst (λ t. NotBefore t d.slots) ((==_iff _ max_time).0 never) h.below))
      | inr soon ↦
          let ne = ==-ne (earliest_from max_time d.slots) max_time soon in
          rw soon (
            armed _ (omega (arith, h.bound, ne))
              (elim h.attained [ inl at_end ↦ absurd (ne at_end) | inr at ↦ at ]) h.below)
    ]

-- The driver and the calls of an operation that has changed the slots.
pub record Rearmed (d : DriverState) (calls : List PortCall) : Type 0 where
  pub call : PortCall
  pub only : calls ≡ call ∷ []
  pub rearms : Rearms d.slots call

rearmed : (d : DriverState) → Rearmed d (rearm_locked d ∷ [])
rearmed d = record { call = rearm_locked d; only = refl; rearms = rearm_locked-Rearms d }

new_slot : DriverState → ℕ → ℕ → ℕ → Slot
new_slot d when cb arg = record { id = (take_id d.next_id).0; when = when; cb = some cb; arg = arg }

filled : DriverState → List Slot → DriverState
filled d ss = record d { next_id = (take_id d.next_id).1; slots = ss }

schedule_at-full :
    (d : DriverState) (when cb arg : ℕ)
    → fill (new_slot d when cb arg) d.slots ≡ none
    → schedule_at d when (some cb) arg ≡ (d, 0, [])
unfolding new_slot schedule_at
schedule_at-full d when cb arg e = rw (e, schedule_at) refl

schedule_at-room :
    (d : DriverState) (when cb arg : ℕ) (ss : List Slot)
    → fill (new_slot d when cb arg) d.slots ≡ some ss
    → schedule_at d when (some cb) arg
      ≡ (filled d ss, (take_id d.next_id).0, rearm_locked (filled d ss) ∷ [])
unfolding new_slot filled schedule_at take_id
schedule_at-room d when cb arg ss e = rw (e, schedule_at) refl

-- A schedule that gives a handle makes one call of the port: it arms the earliest deadline of the
-- slots in use, or disarms where none is due before the end of time.
schedule_at-Rearmed :
    (d : DriverState) (when cb arg : ℕ)
    → (schedule_at d when (some cb) arg).1 ≢ 0
    → let r = schedule_at d when (some cb) arg in Rearmed r.0 r.2
schedule_at-Rearmed d when cb arg given =
    elim (Option-cases (fill (new_slot d when cb arg) d.slots)) [
      | inl full ↦ absurd (given (ap (λ r. r.1) (schedule_at-full d when cb arg full)))
      | inr (ss, e) ↦
          subst (λ r. Rearmed r.0 r.2) (sym (schedule_at-room d when cb arg ss e))
            (rearmed (filled d ss))
    ]

-- A cancel that reports success makes one call of the port: it arms the earliest deadline of the
-- slots still in use, or disarms where none is due before the end of time.
cancel-Rearmed :
    (d : DriverState) (id : ℕ) → (cancel d id).1 ≡ true → let r = cancel d id in Rearmed r.0 r.2
unfolding cancel
cancel-Rearmed d id done = elim (Bool-cases (id == 0)) [
  | inl invalid ↦ absurd (ground arith)
  | inr valid ↦ elim (Option-cases (release id d.slots)) [
    | inl absent ↦ absurd (ground arith)
    | inr (ss, e) ↦ rw (valid, e) (rearmed (with_slots d ss))
  ]
]

-- No deadline up to `now` is armed.
pub data Ahead (now : ℕ) : PortCall → Type 0 where
  silent : Ahead now disarm
  later : (t : ℕ) → now < t → Ahead now (arm t)

freed_head-later :
    (now t : ℕ) (s : Slot) (b : Bool)
    → is_due now s ≡ b
    → (if b then free_slot else s).id ≢ 0
    → (if b then free_slot else s).when ≡ t
    → now < t
freed_head-later now t s true due used same = absurd (used refl)
freed_head-later now t s false waits used same = ground arith

freed-later : (now t : ℕ) (ss : List Slot) → DueAt t (freed_if_due now ss) → now < t
freed-later now t [] h = elim h [ ]
freed-later now t (s ∷ ss) h = elim h [
  | inl (used, same) ↦ freed_head-later now t s (is_due now s) refl used same
  | inr at ↦ freed-later now t ss at
]

Rearms-Ahead :
    (now : ℕ) (ss : List Slot) (c : PortCall) → Rearms (freed_if_due now ss) c → Ahead now c
Rearms-Ahead now ss _ (disarmed h) = silent
Rearms-Ahead now ss _ (armed t lt at h) = later t (freed-later now t ss at)

-- With its 16 slots and callbacks that leave the driver alone, an interrupt fires the due slots,
-- each once and in slot order, and frees exactly those. Its one call of the port arms the
-- earliest deadline left, which is later than the interrupt, or disarms where no slot in use is
-- due before the end of time.
pub on_timer_isr-Rearmed :
    (now : ℕ) (d : DriverState)
    → length d.slots ≡ max_scheduled_callbacks
    → let r = on_timer_isr (λ f a e. e) now d in
      (r.1 ≡ due_slots now d.slots)
      × (r.0.slots ≡ freed_if_due now d.slots)
      × ((c : PortCall) × (r.2 ≡ c ∷ []) × Rearms r.0.slots c × Ahead now c)
unfolding on_timer_isr
on_timer_isr-Rearmed now d count =
    let (fired, left) = pass in
    (
      fired,
      left,
      (
        rearm_locked after,
        refl,
        rearm_locked-Rearms after,
        Rearms-Ahead now d.slots _
            (subst (λ ss. Rearms ss (rearm_locked after)) left (rearm_locked-Rearms after)),
      ),
    )
  where
    after : DriverState
    after = (on_timer_isr (λ f a e. e) now d).0

    pass :
        ((on_timer_isr (λ f a e. e) now d).1 ≡ due_slots now d.slots)
        × (after.slots ≡ freed_if_due now d.slots)
    pass =
        subst
          (λ n.
            let r = fire_from (λ e. e.slots) with_slots (λ f a e. e) now n 0 d in
            (r.1 ≡ due_slots now d.slots) × (r.0.slots ≡ freed_if_due now d.slots))
          count
          (fire_from-quiet (λ e. e.slots) with_slots (λ d' ss. refl) now [] d.slots 0 d refl refl)
