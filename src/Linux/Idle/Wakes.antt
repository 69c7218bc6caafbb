-- ===== src/Linux/Idle/Wakes.antt =====
-- No wake-up is missed.
use co_rtos.Base.{ℕ, ◌<◌, ◌==◌, Bool, true, false, update, ◌≡◌, refl, inl, inr, Bool-cases, arith}
use co_rtos.Linux.Idle.{
  Owner, nobody, sleeper, core, Poke, Sleeper, testing, committed, waiting, unlocking, Poker,
  stored, locked, signalled, notify_if, Sleep, fast_hit, fast_miss, lock, hit, miss, wait, spurious,
  relock, unlock, again, Wake, store, take, send, release, System, Step, sleep, wake, begin, Reach,
  start, later,
}

abbrev pub holds_asleep : Sleeper → Bool
holds_asleep testing = true
holds_asleep committed = true
holds_asleep unlocking = true
holds_asleep _ = false

abbrev pub holds : Poker → Bool
holds locked = true
holds signalled = true
holds _ = false

-- The core has stored the flag and will signal.
abbrev pub will_signal : Poker → Bool
will_signal stored = true
will_signal locked = true
will_signal _ = false

-- The sleeping core does not test the flag before it is signalled.
abbrev pub past_test : Sleeper → Bool
past_test committed = true
past_test waiting = true
past_test _ = false

abbrev owner_asleep : Owner → Bool
owner_asleep sleeper = true
owner_asleep _ = false

abbrev is_core : ℕ → Owner → Bool
is_core i (core j) = j == i
is_core i _ = false

pub record Inv (cores : ℕ) (m : Poke) (p : Sleeper) (pc : ℕ → Poker) : Type 0 where
  pub asleep_owns : owner_asleep m.owner ≡ holds_asleep p
  pub core_owns : (i : ℕ) → is_core i m.owner ≡ holds (pc i)
  pub inside : (i : ℕ) → holds (pc i) ≡ true → i < cores
  pub signalling :
      m.pending ≡ true → past_test p ≡ true → (i : ℕ) × (i < cores) × (will_signal (pc i) ≡ true)

begin-Inv : (cores : ℕ) → Inv cores begin.mem begin.asleep begin.pc
begin-Inv cores = record {
  asleep_owns = refl;
  core_owns = λ i. refl;
  inside = λ i h. cc;
  signalling = λ h k. cc;
}

-- The premise of a step of the sleeping core, and of another's.
abbrev pub SleepGuard : {m m' : Poke} {p p' : Sleeper} → Sleep m p m' p' → Type 0
SleepGuard {m} (fast_hit _) = m.pending ≡ true
SleepGuard {m} (fast_miss _) = m.pending ≡ false
SleepGuard {m} (lock _) = m.owner ≡ nobody
SleepGuard {m} (hit _) = m.pending ≡ true
SleepGuard {m} (miss _) = m.pending ≡ false
SleepGuard {m} (relock _) = m.owner ≡ nobody
SleepGuard _ = Unit

pub sleep_guard : {m m' : Poke} {p p' : Sleeper} (mv : Sleep m p m' p') → SleepGuard mv
sleep_guard (fast_hit g) = g
sleep_guard (fast_miss g) = g
sleep_guard (lock g) = g
sleep_guard (hit g) = g
sleep_guard (miss g) = g
sleep_guard (relock g) = g
sleep_guard wait = tt
sleep_guard spurious = tt
sleep_guard unlock = tt
sleep_guard again = tt

module _ {cores : ℕ} {m : Poke} {p : Sleeper} {pc : ℕ → Poker} (inv : Inv cores m p pc) where
  open inv use {asleep_owns, core_owns, inside, signalling}

  Sleep-asleep_owns :
      {q q' : Sleeper} {m' : Poke}
      → Sleep m q m' q'
      → p ≡ q
      → owner_asleep m'.owner ≡ holds_asleep q'
  Sleep-asleep_owns (fast_hit g) e = ground arith
  Sleep-asleep_owns mv e = ground (arith, sleep_guard mv)

  Sleep-core_owns :
      {q q' : Sleeper} {m' : Poke}
      → Sleep m q m' q'
      → p ≡ q
      → (i : ℕ) → is_core i m'.owner ≡ holds (pc i)
  Sleep-core_owns (fast_hit g) e i = core_owns i
  Sleep-core_owns mv e i = ground (arith, sleep_guard mv, core_owns i)

  Sleep-signalling :
      {q q' : Sleeper} {m' : Poke}
      → Sleep m q m' q'
      → p ≡ q
      → m'.pending ≡ true
      → past_test q' ≡ true
      → (i : ℕ) × (i < cores) × (will_signal (pc i) ≡ true)
  Sleep-signalling (miss g) e on at = cc
  Sleep-signalling wait e on at = signalling on (ground arith)
  Sleep-signalling mv e on at = cc

  Sleep-Inv : {q : Sleeper} {m' : Poke} → Sleep m p m' q → Inv cores m' q pc
  Sleep-Inv mv = record {
    asleep_owns = Sleep-asleep_owns mv refl;
    core_owns = Sleep-core_owns mv refl;
    inside = inside;
    signalling = Sleep-signalling mv refl;
  }

module _ {cores : ℕ} {m : Poke} {p : Sleeper} {pc : ℕ → Poker} (inv : Inv cores m p pc) (i : ℕ)
    (here : i < cores) where
  open inv use {asleep_owns, core_owns, inside, signalling}

  Wake-asleep_owns :
      {q q' : Poker} {m' : Poke} {b : Bool}
      → Wake m i q m' q' b
      → pc i ≡ q
      → owner_asleep m'.owner ≡ holds_asleep (notify_if b p)
  Wake-asleep_owns store e = asleep_owns
  Wake-asleep_owns (take g) e = ground arith
  Wake-asleep_owns send e = ground (arith, core_owns i)
  Wake-asleep_owns release e = ground (arith, core_owns i)

  Wake-core_owns :
      {q q' : Poker} {m' : Poke} {b : Bool}
      → Wake m i q m' q' b
      → pc i ≡ q
      → (j : ℕ) → is_core j m'.owner ≡ holds (update pc i q' j)
  Wake-core_owns store e j = ground (arith, core_owns j)
  Wake-core_owns (take g) e j = ground (arith, core_owns j)
  Wake-core_owns send e j = ground (arith, core_owns j)
  Wake-core_owns release e j = ground (arith, core_owns i, core_owns j)

  Wake-inside :
      {q q' : Poker} {m' : Poke} {b : Bool}
      → Wake m i q m' q' b
      → (j : ℕ) → holds (update pc i q' j) ≡ true
      → j < cores
  Wake-inside mv j h = elim (Bool-cases (j == i)) [
    | inl same ↦ ground arith
    | inr other ↦ inside j (ground arith)
  ]

  Wake-signalling :
      {q q' : Poker} {m' : Poke} {b : Bool}
      → Wake m i q m' q' b
      → pc i ≡ q
      → m'.pending ≡ true
      → past_test (notify_if b p) ≡ true
      → (j : ℕ) × (j < cores) × (will_signal (update pc i q' j) ≡ true)
  Wake-signalling store e on at = (i, here, ground arith)
  Wake-signalling (take g) e on at = (i, here, ground arith)
  Wake-signalling send e on at = absurd (ground (arith, asleep_owns, core_owns i))
  Wake-signalling release e on at = let (j, lt, s) = signalling on at in (j, lt, ground arith)

  Wake-Inv :
      {q : Poker} {m' : Poke} {b : Bool}
      → Wake m i (pc i) m' q b
      → Inv cores m' (notify_if b p) (update pc i q)
  Wake-Inv mv = record {
    asleep_owns = Wake-asleep_owns mv refl;
    core_owns = Wake-core_owns mv refl;
    inside = Wake-inside mv;
    signalling = Wake-signalling mv refl;
  }

Step-Inv :
    {cores : ℕ} {s t : System}
    → Step cores s t
    → Inv cores s.mem s.asleep s.pc
    → Inv cores t.mem t.asleep t.pc
Step-Inv (sleep mv) inv = Sleep-Inv inv mv
Step-Inv (wake i lt mv) inv = Wake-Inv inv i lt mv

pub Reach-Inv : {cores : ℕ} {s : System} → Reach cores s → Inv cores s.mem s.asleep s.pc
Reach-Inv {cores} start = begin-Inv cores
Reach-Inv (later r st) = Step-Inv st (Reach-Inv r)

-- In every reachable state in which the flag is set and the sleeping core is in its wait, or has
-- tested the flag and is about to wait, another core is in its call and has yet to send the
-- signal.
pub no_missed_wake :
    {cores : ℕ} {s : System}
    → Reach cores s
    → s.mem.pending ≡ true
    → past_test s.asleep ≡ true
    → (i : ℕ) × (i < cores) × (will_signal (s.pc i) ≡ true)
no_missed_wake r = (Reach-Inv r).signalling
