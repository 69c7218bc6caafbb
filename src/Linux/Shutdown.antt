-- ===== src/Linux/Shutdown.antt =====
-- How the cores of src/port/linux_boost/port_linux_boost.cpp start, run and shut down:
-- `CpuCore::start_scheduler` on `cores` cores, interleaved in any order. A step is one access of what
-- they share, or a stretch of kernel code that does one of the listed things.
pub mod Invariant
pub mod Progress
use co_rtos.Base.{ℕ, ◌+◌, ◌-◌, ◌<◌, ◌≤◌, ◌^◌, Bool, true, false, update, ◌≡◌}

-- `active` counts the contexts that are not finished, the cores' idle threads included; `pending` is
-- the poke of each core.
pub record Shared : Type 0 where
  pub shutdown : Bool
  pub active : ℕ
  pub pending : ℕ → Bool

-- Where a core stands. `entering` is before its entry runs, `running` in a thread, `idling` in
-- `cortos_port_idle`, `checking` at the loop's condition, `quiescent` before the compare-exchange,
-- and `poking k` before the interrupt to core `k`.
pub data Pc : Type 0 where
  entering running idling checking quiescent left : Pc
  poking : ℕ → Pc

-- A step of core `i`. A user thread of the kernel is alive only while there are more contexts than
-- cores: `exit`, `create` and `post` are steps of user threads, and idle threads never exit.
pub data Move (cores : ℕ) (m : Shared) (i : ℕ) : Pc → Shared → Pc → Type 0 where
  enter : Move cores m i entering m running
  create :
      cores < m.active
      → m.active + 1 < 2 ^ 32
      → Move cores m i running (record m { active = m.active + 1 }) running
  post :
      (j : ℕ)
      → cores < m.active
      → Move cores m i running (record m { pending = update m.pending j true }) running
  exit : cores < m.active → Move cores m i running (record m { active = m.active - 1 }) checking
  yield : cores < m.active → Move cores m i running m checking
  idle : Move cores m i running m idling
  wake :
      m.pending i ≡ true
      → Move cores m i idling (record m { pending = update m.pending i false }) checking
  turn : cores < m.active → Move cores m i checking m running
  quiesce : m.active ≤ cores → Move cores m i checking m quiescent
  win : m.shutdown ≡ false → Move cores m i quiescent (record m { shutdown = true }) (poking 0)
  lose : m.shutdown ≡ true → Move cores m i quiescent m left
  poke :
      {k : ℕ}
      → k < cores
      → Move cores m i (poking k) (record m { pending = update m.pending k true }) (poking (k + 1))
  leave : {k : ℕ} → cores ≤ k → Move cores m i (poking k) m left

pub record System : Type 0 where
  pub mem : Shared
  pub pc : ℕ → Pc

pub data Step (cores : ℕ) (s : System) : System → Type 0 where
  step :
      (i : ℕ) {m : Shared} {p : Pc}
      → i < cores
      → Move cores s.mem i (s.pc i) m p
      → Step cores s (record { mem = m; pc = update s.pc i p })

-- The start of the kernel: an idle context for each core and at least one of a thread.
abbrev pub begin : ℕ → System
begin active = record {
  mem = record { shutdown = false; active = active; pending = λ j. false };
  pc = λ j. Pc.entering;
}

pub data Reach (cores : ℕ) : System → Type 0 where
  start : {active : ℕ} → cores < active → Reach cores (begin active)
  later : {s t : System} → Reach cores s → Step cores s t → Reach cores t
