-- ===== src/Time/Simulation/Laws.antt =====
-- What the simulation driver promises of virtual time, firing and cancelling.
use co_rtos.Base.{
  ℕ, ◌≤◌, some, Bool, true, false, not, ◌&&◌, leb, ◌==◌, if◌then◌else◌, List, [], ◌∷◌, ◌++◌, ◌↔◌,
  All, ◌≡◌, refl, ◌∙◌, ap, subst, ◌≢◌, ◌⊎◌, inl, inr, Bool-cases, Option-cases, arith,
}
use co_rtos.Time.Slots.{invoke}
use co_rtos.Time.Simulation.{
  Event, DriverState, is_virtual, mark, cancel, is_due, collect, run_all, fire_due_callbacks,
  on_timer_isr, time_now, advance_to,
}

-- The events of a list that pass a test, in order.
abbrev pub only : (Event → Bool) → List Event → List Event
only p [] = []
only p (e ∷ es) = if p e then e ∷ only p es else only p es

-- An event that a pass at `now` leaves in the list.
abbrev pub waits : ℕ → Event → Bool
waits now e = not (is_due now e) && not e.cancelled

collect-only :
    (now : ℕ) (es : List Event) → collect now es ≡ (only (is_due now) es, only (waits now) es)
unfolding collect
collect-only now [] = refl
collect-only now (e ∷ es) = elim (Bool-cases (is_due now e)) [
  | inl due ↦ rw (due, collect-only now es) refl
  | inr late ↦ elim (Bool-cases e.cancelled) [
    | inl gone ↦ rw (late, gone, collect-only now es) refl
    | inr live ↦ rw (late, live, collect-only now es) refl
  ]
]

later_of : ℕ → ℕ → ℕ
later_of cur tp = if leb cur tp then tp else cur

later_of-lem :
    (cur tp : ℕ)
    → (cur ≤ later_of cur tp)
      × (tp ≤ later_of cur tp)
      × ((later_of cur tp ≡ tp) ⊎ (later_of cur tp ≡ cur))
unfolding later_of
later_of-lem cur tp = elim (Bool-cases (leb cur tp)) [
  | inl up ↦ rw up (ground arith, omega arith, inl refl)
  | inr down ↦ rw down (omega arith, ground arith, inr refl)
]

at_time : DriverState → ℕ → DriverState
at_time d t = record d { virtual_now = t }

advance_to-at :
    (run : ℕ → ℕ → DriverState → DriverState) (clock tp : ℕ) (d : DriverState)
    → is_virtual d ≡ true
    → advance_to run clock tp d
      ≡ some (
          fire_due_callbacks run
            (later_of d.virtual_now tp)
            (at_time d (later_of d.virtual_now tp)))
unfolding advance_to on_timer_isr time_now later_of at_time
advance_to-at run clock tp d v = rw v refl

-- What is due at `now`.
abbrev pub Due : ℕ → Event → Type 0
Due now e = (e.id ≢ 0) × (e.cancelled ≡ false) × (e.when ≤ now)

is_due-Due : (now : ℕ) (e : Event) → (is_due now e ≡ true) ↔ Due now e
is_due-Due now e = (
  λ h. ((λ z. ground (arith, h, z)), ground (arith, h), ground (arith, h)),
  λ (p, q, r). due p q r,
)
  where
    due : (e.id ≢ 0) → e.cancelled ≡ false → e.when ≤ now → is_due now e ≡ true
    due p q r = elim (Bool-cases (e.id == 0)) [
      | inl z ↦ absurd (p (ground (arith, z)))
      | inr n ↦ rw (n, q) (ground (arith, r))
    ]

-- A callback runs on what those before it leave.
abbrev pub InOrder : (ℕ → ℕ → DriverState → DriverState) → Type 0
InOrder run =
    ((k : DriverState) → run_all run [] k ≡ k)
    × ((es : List Event) (e : Event) (f : ℕ) (k : DriverState)
        → e.cb ≡ some f
        → run_all run (es ++ e ∷ []) k ≡ run f e.arg (run_all run es k))

runs_last :
    (run : ℕ → ℕ → DriverState → DriverState) (es : List Event) (e : Event) (f : ℕ)
    (k : DriverState)
    → e.cb ≡ some f
    → run_all run (es ++ e ∷ []) k ≡ run f e.arg (run_all run es k)
unfolding run_all invoke
runs_last run [] e f k h = rw h refl
runs_last run (x ∷ es) e f k h = runs_last run es e f (invoke run x.cb x.arg k) h

run_all-InOrder : (run : ℕ → ℕ → DriverState → DriverState) → InOrder run
unfolding run_all
run_all-InOrder run = ((λ k. refl), runs_last run)

-- `advance_to` in virtual mode succeeds, at the later of the old time and `tp`. Whatever the
-- callbacks do, those of the events that are due then run, each once and in the order of
-- scheduling, on a driver that stands at that time and keeps the events that are neither due nor
-- cancelled. Due is what has an id other than 0, is not cancelled, and has a time that is not
-- later.
pub advance_to-eq :
    (run : ℕ → ℕ → DriverState → DriverState) (clock tp : ℕ) (d : DriverState)
    → is_virtual d ≡ true
    → (t : ℕ) × (d.virtual_now ≤ t)
      × (tp ≤ t)
      × ((t ≡ tp) ⊎ (t ≡ d.virtual_now))
      × (advance_to run clock tp d
          ≡ some (
            run_all run
                (only (is_due t) d.events)
                (record d { virtual_now = t; events = only (waits t) d.events }),
            only (is_due t) d.events,
          ))
      × ((e : Event) → (is_due t e ≡ true) ↔ Due t e)
      × InOrder run
unfolding fire_due_callbacks at_time
advance_to-eq run clock tp d v =
    let t = later_of d.virtual_now tp in
    let (cur, target, which) = later_of-lem d.virtual_now tp in
    (
      t,
      cur,
      target,
      which,
      advance_to-at run clock tp d v ∙ ap some (rw (collect-only t d.events) refl),
      is_due-Due t,
      run_all-InOrder run,
    )

-- No two events of the id that are not cancelled.
abbrev pub Once : ℕ → List Event → Type 0
Once id [] = Unit
Once id (e ∷ es) =
    (e.id ≡ id → e.cancelled ≡ false → All (λ f. f.id ≡ id → f.cancelled ≡ true) es) × Once id es

mark-cancelled :
    (id : ℕ) (es fs : List Event)
    → Once id es
    → mark id es ≡ some fs
    → All (λ f. f.id ≡ id → f.cancelled ≡ true) fs
unfolding mark
mark-cancelled id [] fs once e = absurd (cc)
mark-cancelled id (x ∷ es) fs once e = elim (Bool-cases ((x.id == id) && not x.cancelled)) [
  | inl hit ↦
      let same : record x { cancelled = true } ∷ es ≡ fs = ground arith in
      subst (All (λ f. f.id ≡ id → f.cancelled ≡ true)) same
        ((λ _. refl), once.0 (ground arith) (ground arith))
  | inr miss ↦ elim (Option-cases (mark id es)) [
    | inl absent ↦ absurd (ground arith)
    | inr (gs, q) ↦
        let same : x ∷ gs ≡ fs = ground arith in
        subst (All (λ f. f.id ≡ id → f.cancelled ≡ true)) same
          ((λ own. ground arith), mark-cancelled id es gs once.1 q)
  ]
]

only-due :
    (now id : ℕ) (es : List Event)
    → All (λ f. f.id ≡ id → f.cancelled ≡ true) es
    → All (λ f. f.id ≢ id) (only (is_due now) es)
only-due now id [] h = tt
only-due now id (e ∷ es) h = elim (Bool-cases (is_due now e)) [
  | inl due ↦ rw due ((λ same. ground (arith, h.0 same)), only-due now id es h.1)
  | inr late ↦ rw late (only-due now id es h.1)
]

-- If no two events not yet cancelled had its id, a callback that `cancel` reports cancelled does
-- not run in a pass that follows, whatever its time.
pub cancel-silent :
    (run : ℕ → ℕ → DriverState → DriverState) (now id : ℕ) (d : DriverState)
    → Once id d.events
    → (cancel d id).1 ≡ true
    → All (λ e. e.id ≢ id) (fire_due_callbacks run now (cancel d id).0).1
unfolding cancel fire_due_callbacks
cancel-silent run now id d once done = elim (Bool-cases (id == 0)) [
  | inl invalid ↦ absurd (ground arith)
  | inr valid ↦ elim (Option-cases (mark id d.events)) [
    | inl absent ↦ absurd (ground arith)
    | inr (es, e) ↦
        rw (valid, e, collect-only now es)
          (only-due now id es (mark-cancelled id d.events es once e))
  ]
]
