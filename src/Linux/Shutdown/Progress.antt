-- ===== src/Linux/Shutdown/Progress.antt =====
-- Once no thread is left, the cores shut down in a bounded number of steps, in whatever order.
use co_rtos.Base.{
  ℕ, zero, suc, ◌+◌, ◌-◌, ◌*◌, ◌<◌, ◌≤◌, ltb, Bool, true, false, update, ◌≡◌, refl, ◌⊎◌, inl, inr,
  Bool-cases, arith,
}
use co_rtos.Base.Sums.{sum_below, sum_below-lt, sum_below-le}
use co_rtos.Linux.Shutdown.{
  Shared, Pc, entering, running, idling, checking, quiescent, left, poking, Move, enter, idle, wake,
  quiesce, win, lose, poke, leave, System, Step, step, Reach, later,
}
use co_rtos.Linux.Shutdown.Invariant.{looks, pokes_from, Inv, guard, Reach-Inv}

-- The steps that a core has before it at most, if no thread is left.
steps_left : ℕ → Pc → ℕ
steps_left cores entering = cores + 6
steps_left cores running = cores + 5
steps_left cores idling = cores + 4
steps_left cores checking = cores + 3
steps_left cores quiescent = cores + 2
steps_left cores (poking k) = suc (cores - k)
steps_left cores left = 0

steps_left-le : (cores : ℕ) (p : Pc) → steps_left cores p ≤ cores + 6
unfolding steps_left
steps_left-le cores entering = omega arith
steps_left-le cores p = ground arith

-- With no thread left, a step keeps it so and has one less to come.
Move-steps_left :
    {cores i : ℕ} {m m' : Shared} {p p' : Pc}
    → Move cores m i p m' p'
    → m.active ≤ cores
    → (m'.active ≤ cores) × (steps_left cores p' < steps_left cores p)
unfolding steps_left
Move-steps_left enter h = omega arith
Move-steps_left mv h = ground (arith, guard mv)

-- The core can do nothing before another pokes it, or has left.
abbrev waits : Pc → Bool
waits idling = true
waits left = true
waits _ = false

next_move :
    (cores i : ℕ) (m : Shared) (p : Pc)
    → m.active ≤ cores
    → waits p ≡ false
    → (m' : Shared) × (p' : Pc) × Move cores m i p m' p'
next_move cores i m entering h w = (_, _, enter)
next_move cores i m running h w = (_, _, idle)
next_move cores i m idling h w = cc
next_move cores i m checking h w = (_, _, quiesce h)
next_move cores i m quiescent h w = elim (Bool-cases m.shutdown) [
  | inl on ↦ (_, _, lose on)
  | inr off ↦ (_, _, win off)
]
next_move cores i m left h w = cc
next_move cores i m (poking k) h w = elim (Bool-cases (ltb k cores)) [
  | inl more ↦ (_, _, poke (ground arith))
  | inr done ↦ (_, _, leave (ground arith))
]

-- Some core can move.
abbrev CanStep : ℕ → System → Type 0
CanStep cores s = (t : System) × Step cores s t

CanStep-of :
    (cores : ℕ) (s : System) (i : ℕ)
    → i < cores
    → s.mem.active ≤ cores
    → waits (s.pc i) ≡ false
    → CanStep cores s
CanStep-of cores s i lt h w =
    let (m, p, mv) = next_move cores i s.mem (s.pc i) h w in (_, step i lt mv)

looks-moves : (p : Pc) → looks p ≡ true → waits p ≡ false
looks-moves checking h = refl
looks-moves p h = ground arith

pokes-moves : (j : ℕ) (p : Pc) → pokes_from j p ≡ true → waits p ≡ false
pokes-moves j (poking k) h = refl
pokes-moves j p h = ground arith

looking_steps :
    {cores : ℕ} {s : System}
    → s.mem.active ≤ cores
    → (i : ℕ) × (i < cores) × (looks (s.pc i) ≡ true)
    → CanStep cores s
looking_steps {cores} {s} h (i, lt, l) = CanStep-of cores s i lt h (looks-moves (s.pc i) l)

woken :
    {cores i : ℕ} {m : Shared} (p : Pc)
    → p ≡ idling
    → m.pending i ≡ true
    → Move cores m i p (record m { pending = update m.pending i false }) checking
woken idling e set = wake set
woken p e set = cc

-- A core that waits has been poked, or another core can move.
idling_steps :
    {cores : ℕ} {s : System} (i : ℕ)
    → Inv cores s.mem s.pc
    → i < cores
    → s.mem.active ≤ cores
    → s.pc i ≡ idling
    → CanStep cores s
idling_steps {cores} {s} i v lt h e = elim (v.noticed h) [
  | inr looker ↦ looking_steps h looker
  | inl on ↦ elim (v.poked i lt on (ground arith)) [
    | inl set ↦ (_, step i lt (woken (s.pc i) e set))
    | inr (a, la, from) ↦ CanStep-of cores s a la h (pokes-moves i (s.pc a) from)
  ]
]

abbrev pub has_left : Pc → Bool
has_left left = true
has_left _ = false

stays : (p : Pc) → has_left p ≡ false → (waits p ≡ false) ⊎ (p ≡ idling)
stays idling h = inr refl
stays p h = inl (ground arith)

some_step :
    {cores : ℕ} {s : System} (i : ℕ)
    → Reach cores s
    → i < cores
    → s.mem.active ≤ cores
    → has_left (s.pc i) ≡ false
    → CanStep cores s
some_step {cores} {s} i r lt h stay = elim (stays (s.pc i) stay) [
  | inl moves ↦ CanStep-of cores s i lt h moves
  | inr waiting ↦ idling_steps i (Reach-Inv r) lt h waiting
]

-- A run of so many steps.
pub data Run (cores : ℕ) (s : System) : ℕ → System → Type 0 where
  none : Run cores s zero s
  more : {n : ℕ} {t u : System} → Run cores s n t → Step cores t u → Run cores s (suc n) u

-- What a run leaves of the steps to come.
record Spends (cores n : ℕ) (s t : System) : Type 0 where
  quiet : t.mem.active ≤ cores
  spent : n + sum_below (steps_left cores) cores t.pc ≤ sum_below (steps_left cores) cores s.pc

Step-Spends :
    {cores : ℕ} {s t : System} → Step cores s t → s.mem.active ≤ cores → Spends cores 1 s t
Step-Spends {cores} {s} (step i {m} {p} lt mv) h =
    let (quiet, fewer) = Move-steps_left mv h in
    record {
      quiet = quiet;
      spent = omega (arith, sum_below-lt (steps_left cores) cores i s.pc p lt fewer);
    }

Run-Spends :
    {cores : ℕ} {s : System} {n : ℕ} {t : System}
    → Run cores s n t
    → s.mem.active ≤ cores
    → Spends cores n s t
Run-Spends none h = record { quiet = h; spent = omega arith }
Run-Spends (more r st) h =
    let before = Run-Spends r h in
    let after = Step-Spends st before.quiet in
    record { quiet = after.quiet; spent = omega (arith, before.spent, after.spent) }

Reach-Run :
    {cores : ℕ} {s : System} {n : ℕ} {t : System} → Reach cores s → Run cores s n t → Reach cores t
Reach-Run r none = r
Reach-Run r (more run st) = later (Reach-Run r run) st

-- From a reachable state with no more contexts than cores, that is with no thread left, every run
-- ends within `cores * (cores + 6)` steps, in whatever order the cores move; and as long as a
-- core has not left, some core can move, so that where a run ends all cores have left.
pub shutdown_finishes :
    {cores n : ℕ} {s t : System}
    → Reach cores s
    → s.mem.active ≤ cores
    → Run cores s n t
    → (n ≤ cores * (cores + 6))
      × ((i : ℕ) → i < cores → has_left (t.pc i) ≡ false → CanStep cores t)
shutdown_finishes {cores} {n} {s} r h run =
    let after = Run-Spends run h in
    (
      omega (
        arith,
        after.spent,
        sum_below-le (steps_left cores) (cores + 6) (steps_left-le cores) cores s.pc,
      ),
      λ i lt stay. some_step i (Reach-Run r run) lt after.quiet stay,
    )
