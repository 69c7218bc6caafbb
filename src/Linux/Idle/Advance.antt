-- ===== src/Linux/Idle/Advance.antt =====
-- Runs of the sleeping core and the others without new pokes, and how long they can be.
use co_rtos.Base.Sums.{sum_below, sum_below-lt, sum_below-le}
use co_rtos.Base.{
  ℕ, zero, suc, ◌+◌, ◌*◌, ◌<◌, ◌≤◌, Bool, true, false, update, ◌≡◌, ◌⊎◌, refl, inr, arith,
}
use co_rtos.Linux.Idle.{
  Poke, Sleeper, calling, locking, testing, committed, waiting, woken, unlocking, returned, Poker,
  resting, stored, locked, signalled, notify_if, Sleep, fast_hit, Wake, store, System, Reach, later,
  sleep, wake,
}
use co_rtos.Linux.Idle.Wakes.{sleep_guard}

-- The sleeping core has returned, or only another core or a spurious wake-up can move it.
abbrev pub rests : Sleeper → Bool
rests waiting = true
rests returned = true
rests _ = false

abbrev pub is_resting : Poker → Bool
is_resting resting = true
is_resting _ = false

-- A step that is neither a new poke, nor a spurious wake-up, nor a new call of `cortos_port_idle`.
pub data Advance (cores : ℕ) (s : System) : System → Type 0 where
  asleep_moves :
      {m : Poke} {p : Sleeper}
      → rests s.asleep ≡ false
      → Sleep s.mem s.asleep m p
      → Advance cores s (record { mem = m; asleep = p; pc = s.pc })
  core_moves :
      (i : ℕ) {m : Poke} {p : Poker} {b : Bool}
      → i < cores
      → is_resting (s.pc i) ≡ false
      → Wake s.mem i (s.pc i) m p b
      → Advance cores s (record { mem = m; asleep = notify_if b s.asleep; pc = update s.pc i p })

pub data Run (cores : ℕ) (s : System) : ℕ → System → Type 0 where
  none : Run cores s zero s
  more : {n : ℕ} {t u : System} → Run cores s n t → Advance cores t u → Run cores s (suc n) u

abbrev pub is_back : Sleeper → Bool
is_back returned = true
is_back _ = false

-- The sleeping core has taken the poke.
abbrev pub has_poke : Sleeper → Bool
has_poke unlocking = true
has_poke returned = true
has_poke _ = false

abbrev pub IsPoked : Poke → Sleeper → Type 0
IsPoked m p = (m.pending ≡ true) ⊎ (has_poke p ≡ true)

asleep_left : Sleeper → ℕ
asleep_left committed = 6
asleep_left waiting = 5
asleep_left woken = 4
asleep_left locking = 4
asleep_left testing = 3
asleep_left unlocking = 2
asleep_left calling = 1
asleep_left returned = 0

poker_left : Poker → ℕ
poker_left resting = 0
poker_left stored = 3
poker_left locked = 2
poker_left signalled = 1

pub left : ℕ → System → ℕ
left cores s = asleep_left s.asleep + sum_below poker_left cores s.pc

pub left-le : (cores : ℕ) (s : System) → left cores s ≤ 6 + cores * 3
unfolding left asleep_left poker_left
left-le cores s =
    omega (arith, asleep_left-le s.asleep, sum_below-le poker_left 3 poker_left-le cores s.pc)
  where
    asleep_left-le : (p : Sleeper) → asleep_left p ≤ 6
    asleep_left-le calling = ground arith
    asleep_left-le p = ground arith

    poker_left-le : (p : Poker) → poker_left p ≤ 3
    poker_left-le resting = ground arith
    poker_left-le p = ground arith

Sleep-advances :
    {m m' : Poke} {p p' : Sleeper}
    → Sleep m p m' p'
    → rests p ≡ false
    → IsPoked m p
    → IsPoked m' p' × (asleep_left p' < asleep_left p)
unfolding asleep_left
Sleep-advances (fast_hit g) r h = (inr refl, omega arith)
Sleep-advances mv r h = ground (arith, sleep_guard mv)

Wake-advances :
    {m m' : Poke} {i : ℕ} {q q' : Poker} {b : Bool} (p : Sleeper)
    → Wake m i q m' q' b
    → is_resting q ≡ false
    → IsPoked m p
    → IsPoked m' (notify_if b p)
      × (asleep_left (notify_if b p) ≤ asleep_left p)
      × (poker_left q' < poker_left q)
unfolding asleep_left poker_left
Wake-advances p store r h = cc
Wake-advances calling mv r h = ground arith
Wake-advances p mv r h = ground arith

-- What an advance leaves.
pub record Spends (cores n : ℕ) (s t : System) : Type 0 where
  pub poked : IsPoked t.mem t.asleep
  pub spent : n + left cores t ≤ left cores s
  pub reached : Reach cores t

Advance-Spends :
    {cores : ℕ} {s t : System}
    → Reach cores s
    → IsPoked s.mem s.asleep
    → Advance cores s t
    → Spends cores 1 s t
unfolding left
Advance-Spends r h (asleep_moves awake mv) =
    let (poked, fewer) = Sleep-advances mv awake h in
    record { poked = poked; spent = omega arith; reached = later r (sleep mv) }
Advance-Spends {cores} {s} r h (core_moves i {p = p} lt busy mv) =
    let (poked, fewer, less) = Wake-advances s.asleep mv busy h in
    record {
      poked = poked;
      spent = omega (arith, sum_below-lt poker_left cores i s.pc p lt less);
      reached = later r (wake i lt mv);
    }

pub Run-Spends :
    {cores : ℕ} {s : System} {n : ℕ} {t : System}
    → Reach cores s
    → IsPoked s.mem s.asleep
    → Run cores s n t
    → Spends cores n s t
Run-Spends r h none = record { poked = h; spent = omega arith; reached = r }
Run-Spends r h (more run st) =
    let before = Run-Spends r h run in
    let after = Advance-Spends before.reached before.poked st in
    record {
      poked = after.poked;
      spent = omega (arith, before.spent, after.spent);
      reached = after.reached;
    }
