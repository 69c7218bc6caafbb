-- ===== src/Linux/Idle/Returns.antt =====
-- A core that has been poked comes back from its sleep.
use co_rtos.Base.{
  ℕ, ◌+◌, ◌*◌, ◌<◌, ◌≤◌, Bool, true, false, ◌≡◌, ◌⊎◌, refl, inl, inr, Bool-cases, arith,
}
use co_rtos.Linux.Idle.{
  Owner, nobody, sleeper, core, Poke, Sleeper, calling, locking, testing, committed, waiting, woken,
  unlocking, returned, Poker, resting, stored, locked, signalled, Sleep, fast_hit, lock, hit, wait,
  relock, unlock, Wake, take, send, release, System, Reach,
}
use co_rtos.Linux.Idle.Wakes.{holds, holds_asleep, will_signal, Inv, Reach-Inv}
use co_rtos.Linux.Idle.Advance.{
  rests, is_resting, Advance, Run, is_back, IsPoked, left-le, Run-Spends, asleep_moves, core_moves,
}

abbrev CanAdvance : ℕ → System → Type 0
CanAdvance cores s = (t : System) × Advance cores s t

next_wake :
    (m : Poke) (i : ℕ) (q : Poker)
    → holds q ≡ true
    → (m' : Poke) × (q' : Poker) × (b : Bool) × Wake m i q m' q' b
next_wake m i resting h = cc
next_wake m i stored h = cc
next_wake m i locked h = (_, _, _, send)
next_wake m i signalled h = (_, _, _, release)

busy_of_holds : (q : Poker) → holds q ≡ true → is_resting q ≡ false
busy_of_holds resting h = cc
busy_of_holds q h = refl

holder_moves :
    {cores : ℕ} {s : System} (i : ℕ) → i < cores → holds (s.pc i) ≡ true → CanAdvance cores s
holder_moves {cores} {s} i lt h =
    let (m, q, b, mv) = next_wake s.mem i (s.pc i) h in
    (_, core_moves i lt (busy_of_holds (s.pc i) h) mv)

Owner-cases : (o : Owner) → (o ≡ nobody) ⊎ ((o ≡ sleeper) ⊎ ((i : ℕ) × (o ≡ core i)))
Owner-cases nobody = inl refl
Owner-cases sleeper = inr (inl refl)
Owner-cases (core i) = inr (inr (i, refl))

-- While the sleeping core does not hold the mutex, it is free or its holder can move.
free_or_moves :
    {cores : ℕ} {s : System}
    → Inv cores s.mem s.asleep s.pc
    → holds_asleep s.asleep ≡ false
    → (s.mem.owner ≡ nobody) ⊎ CanAdvance cores s
free_or_moves {cores} {s} v out = elim (Owner-cases s.mem.owner) [
  | inl free ↦ inl free
  | inr (inl asleep) ↦ absurd (ground (arith, v.asleep_owns))
  | inr (inr (i, e)) ↦
      let h : holds (s.pc i) ≡ true = ground (arith, v.core_owns i) in
      inr (holder_moves i (v.inside i h) h)
]

-- The sleeping core wants the mutex.
abbrev wants : Sleeper → Bool
wants locking = true
wants woken = true
wants _ = false

next_sleep :
    (m : Poke) (p : Sleeper)
    → IsPoked m p
    → rests p ≡ false
    → (wants p ≡ false) ⊎ (m.owner ≡ nobody)
    → (m' : Poke) × (p' : Sleeper) × Sleep m p m' p'
next_sleep m calling h r w = (_, _, fast_hit (ground arith))
next_sleep m locking h r w = (_, _, lock (ground arith))
next_sleep m testing h r w = (_, _, hit (ground arith))
next_sleep m committed h r w = (_, _, wait)
next_sleep m waiting h r w = cc
next_sleep m woken h r w = (_, _, relock (ground arith))
next_sleep m unlocking h r w = (_, _, unlock)
next_sleep m returned h r w = cc

asleep_advances :
    {cores : ℕ} {s : System}
    → IsPoked s.mem s.asleep
    → rests s.asleep ≡ false
    → (wants s.asleep ≡ false) ⊎ (s.mem.owner ≡ nobody)
    → CanAdvance cores s
asleep_advances {cores} {s} h awake w =
    let (m, p, mv) = next_sleep s.mem s.asleep h awake w in (_, asleep_moves awake mv)

taken :
    {m : Poke} (i : ℕ) (q : Poker)
    → m.owner ≡ nobody
    → will_signal q ≡ true
    → holds q ≡ false
    → (m' : Poke) × Wake m i q m' locked false
taken i stored free w h = (_, take free)
taken i resting free w h = cc
taken i locked free w h = cc
taken i signalled free w h = cc

-- The core that is to signal can move, or the one that holds the mutex.
signaller_moves :
    {cores : ℕ} {s : System} (i : ℕ)
    → Inv cores s.mem s.asleep s.pc
    → holds_asleep s.asleep ≡ false
    → i < cores
    → will_signal (s.pc i) ≡ true
    → CanAdvance cores s
signaller_moves {cores} {s} i v out lt w = elim (Bool-cases (holds (s.pc i))) [
  | inl h ↦ holder_moves i lt h
  | inr h ↦ elim (free_or_moves v out) [
    | inr moves ↦ moves
    | inl free ↦ let (m, mv) = taken i (s.pc i) free w h in (_, core_moves i lt (ground arith) mv)
  ]
]

-- Where a sleeping core stands.
data Stands (p : Sleeper) : Type 0 where
  waits : p ≡ waiting → Stands p
  wanting : wants p ≡ true → holds_asleep p ≡ false → rests p ≡ false → Stands p
  moving : wants p ≡ false → rests p ≡ false → Stands p

Stands-all : (p : Sleeper) → is_back p ≡ false → Stands p
Stands-all waiting h = waits refl
Stands-all locking h = wanting refl refl refl
Stands-all woken h = wanting refl refl refl
Stands-all returned h = cc
Stands-all p h = moving refl refl

advances :
    {cores : ℕ} {s : System}
    → Inv cores s.mem s.asleep s.pc
    → IsPoked s.mem s.asleep
    → Stands s.asleep
    → CanAdvance cores s
advances {cores} {s} v h (waits e) =
    let (i, lt, w) = v.signalling (ground arith) (ground arith) in
    signaller_moves i v (ground arith) lt w
advances v h (wanting w out awake) = elim (free_or_moves v out) [
  | inl free ↦ asleep_advances h awake (inr free)
  | inr moves ↦ moves
]
advances v h (moving w awake) = asleep_advances h awake (inl w)

-- From a reachable state in which the core's flag is set, with no new poke, no spurious wake-up
-- and no new call: every run ends within `6 + cores * 3` steps, in whatever order the cores move,
-- and some core can move until the sleeping core has returned, so that where a run ends it has
-- returned.
pub idle_returns :
    {cores : ℕ} {s : System} {n : ℕ} {t : System}
    → Reach cores s
    → s.mem.pending ≡ true
    → Run cores s n t
    → (n ≤ 6 + cores * 3) × (is_back t.asleep ≡ false → CanAdvance cores t)
idle_returns {cores} {s} r set run =
    let after = Run-Spends r (inl set) run in
    (
      omega (arith, after.spent, left-le cores s),
      λ out. advances (Reach-Inv after.reached) after.poked (Stands-all _ out),
    )
