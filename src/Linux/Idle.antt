-- ===== src/Linux/Idle.antt =====
-- The sleep of a core in `cortos_port_idle` of src/port/linux_boost/port_linux_boost.cpp, and the
-- other cores that wake it by `cortos_port_send_reschedule_ipi`, interleaved in any order. A step is
-- one access of the pending flag, or one call of pthread; `pthread_cond_wait` is the release of the
-- mutex, a wake-up, which may be spurious, and the lock taken again.
pub mod Wakes
pub mod Advance
pub mod Returns
use co_rtos.Base.{ℕ, ◌<◌, Bool, true, false, update, ◌≡◌}

-- Who holds the mutex of the sleeping core.
pub data Owner : Type 0 where
  nobody sleeper : Owner
  core : ℕ → Owner

pub record Poke : Type 0 where
  pub owner : Owner
  pub pending : Bool

-- The sleeping core: before the fast path, before the lock, before the test under it, before the
-- wait, in the wait, woken in the wait, before the unlock, and returned.
pub data Sleeper : Type 0 where
  calling locking testing committed waiting woken unlocking returned : Sleeper

-- Another core: outside the call, the flag stored, the mutex locked, the signal sent.
pub data Poker : Type 0 where
  resting stored locked signalled : Poker

-- The condition variable wakes the one core that waits on it.
abbrev pub notify : Sleeper → Sleeper
notify waiting = woken
notify p = p

pub data Sleep (m : Poke) : Sleeper → Poke → Sleeper → Type 0 where
  fast_hit : m.pending ≡ true → Sleep m calling (record m { pending = false }) returned
  fast_miss : m.pending ≡ false → Sleep m calling m locking
  lock : m.owner ≡ nobody → Sleep m locking (record m { owner = sleeper }) testing
  hit : m.pending ≡ true → Sleep m testing (record m { pending = false }) unlocking
  miss : m.pending ≡ false → Sleep m testing m committed
  wait : Sleep m committed (record m { owner = nobody }) waiting
  spurious : Sleep m waiting m woken
  relock : m.owner ≡ nobody → Sleep m woken (record m { owner = sleeper }) testing
  unlock : Sleep m unlocking (record m { owner = nobody }) returned
  again : Sleep m returned m calling

-- A step of core `i`: the last component is whether it sends the signal.
pub data Wake (m : Poke) (i : ℕ) : Poker → Poke → Poker → Bool → Type 0 where
  store : Wake m i resting (record m { pending = true }) stored false
  take : m.owner ≡ nobody → Wake m i stored (record m { owner = core i }) locked false
  send : Wake m i locked m signalled true
  release : Wake m i signalled (record m { owner = nobody }) resting false

pub record System : Type 0 where
  pub mem : Poke
  pub asleep : Sleeper
  pub pc : ℕ → Poker

abbrev pub notify_if : Bool → Sleeper → Sleeper
notify_if true p = notify p
notify_if false p = p

pub data Step (cores : ℕ) (s : System) : System → Type 0 where
  sleep :
      {m : Poke} {p : Sleeper}
      → Sleep s.mem s.asleep m p
      → Step cores s (record { mem = m; asleep = p; pc = s.pc })
  wake :
      (i : ℕ) {m : Poke} {p : Poker} {b : Bool}
      → i < cores
      → Wake s.mem i (s.pc i) m p b
      → Step cores s (record { mem = m; asleep = notify_if b s.asleep; pc = update s.pc i p })

abbrev pub begin : System
begin = record {
  mem = record { owner = nobody; pending = false };
  asleep = calling;
  pc = λ i. resting;
}

pub data Reach (cores : ℕ) : System → Type 0 where
  start : Reach cores begin
  later : {s t : System} → Reach cores s → Step cores s t → Reach cores t
