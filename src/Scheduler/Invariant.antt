-- ===== src/Scheduler/Invariant.antt =====
-- What one core owns: its ready lists, its idle thread, and the threads that wait in its inbox to
-- be made ready.
use co_rtos.Base.Members.{Lacks-append}
use co_rtos.Base.{
  ℕ, ◌+◌, ◌<◌, ◌^◌, some, true, false, ◌==◌, ptr_eq, update, ◌≡◌, sym, ◌≢◌, inl, inr, List, [], ◌∷◌,
  ◌++◌, map, All, Lacks, Distinct, Bool-cases, arith,
}
use co_rtos.Config.{max_priorities}
use co_rtos.Intrusive.{Links}
use co_rtos.Mpsc.Window
use co_rtos.Ready.Matrix.{ReadyMatrix}
use co_rtos.Ready.Matrix.Invariant.{Member, Represents}
use co_rtos.Ready.Matrix.Laws.{enqueue_thread-Represents}
use co_rtos.Scheduler.{Scheduler, set_ready, CrossCoreRequest, inbox_bits, set_thread_ready}
use co_rtos.Threads.{Threads, State, set_state}

-- No ready list holds the thread.
abbrev pub Absent : (ℕ → List ℕ) → ℕ → Type 0
Absent ls t = (p : ℕ) → Lacks t (ls p)

-- The lists after `t` has been put at the end of the one of its priority.
abbrev pub enqueue : (ℕ → ℕ) → (ℕ → List ℕ) → ℕ → ℕ → List ℕ
enqueue prio ls t = update ls (prio t) (ls (prio t) ++ t ∷ [])

abbrev pub enqueue_all : (ℕ → ℕ) → (ℕ → List ℕ) → List ℕ → ℕ → List ℕ
enqueue_all prio ls [] = ls
enqueue_all prio ls (t ∷ ts) = enqueue_all prio (enqueue prio ls t) ts

-- A thread of this core that may be made ready.
pub record Wakeable (c idle : ℕ) (th : Threads) (ls : ℕ → List ℕ) (t : ℕ) : Type 0 where
  pub here : th.pinned_core t ≡ c
  pub in_range : th.effective_priority t < max_priorities
  pub absent : Absent ls t
  pub not_idle : t ≢ idle

abbrev pub request : ℕ → CrossCoreRequest
request t = record { type = set_ready; tcb = some t }

-- Core `c` with the ready lists `ls` and the threads `waiting` in its inbox, oldest first.
pub record Owns (c idle : ℕ) (th : Threads) (s : Scheduler) (ls : ℕ → List ℕ) (waiting : List ℕ)
    : Type 0 where
  pub core : s.core_id ≡ c
  pub ready : Represents c th s.ready_matrix ls
  pub idle_at : s.idle_thread ≡ some idle
  pub idle_absent : Absent ls idle
  pub inbox : Window.Holds inbox_bits s.inbox (map request waiting)
  pub young : s.inbox.head + 2 ^ inbox_bits < 2 ^ 63
  pub wakeable : All (Wakeable c idle th ls) waiting
  pub distinct : Distinct waiting

members-set_state :
    (th : Threads) (c p t : ℕ) (s : State) (xs : List ℕ)
    → Lacks t xs
    → All (Member th c p) xs
    → All (Member (set_state th t s) c p) xs
members-set_state th c p t s [] out h = tt
members-set_state th c p t s (x ∷ xs) out h =
    (ground arith, members-set_state th c p t s xs out.1 h.1)

-- The state of a thread that no list holds can change.
pub set_state-Represents :
    {c : ℕ} {th : Threads} {m : ReadyMatrix} {ls : ℕ → List ℕ} (t : ℕ) (s : State)
    → Absent ls t
    → Represents c th m ls
    → Represents c (set_state th t s) m ls
set_state-Represents {c} {th} {ls = ls} t s out r = record {
  holds = r.holds;
  bits = r.bits;
  word = r.word;
  high = r.high;
  members = λ p. members-set_state th c p t s (ls p) (out p) (r.members p);
  unlinked = r.unlinked;
}

pub Absent-enqueue :
    (prio : ℕ → ℕ) (ls : ℕ → List ℕ) (t a : ℕ) → a ≢ t → Absent ls a → Absent (enqueue prio ls t) a
Absent-enqueue prio ls t a ne out p = elim (Bool-cases (p == prio t)) [
  | inl eq ↦ rw eq (Lacks-append a (ls (prio t)) (t ∷ []) (out (prio t)) (ne, tt))
  | inr other ↦ rw other (out p)
]

still_Wakeable :
    (c idle : ℕ) (th : Threads) (st : ℕ → State) (l : Links) (ls : ℕ → List ℕ) (t : ℕ) (ws : List ℕ)
    → Lacks t ws
    → All (Wakeable c idle th ls) ws
    → All
        (Wakeable c idle (record th { state = st; links = l }) (enqueue th.effective_priority ls t))
        ws
still_Wakeable c idle th st l ls t [] out h = tt
still_Wakeable c idle th st l ls t (w ∷ ws) out h = (
  record {
    here = h.0.here;
    in_range = h.0.in_range;
    absent = Absent-enqueue th.effective_priority ls t w (λ e. out.0 (sym e)) h.0.absent;
    not_idle = h.0.not_idle;
  },
  still_Wakeable c idle th st l ls t ws out.1 h.1,
)

-- Making a thread ready: its state changes, and it goes to the end of the list of its priority. No
-- assertion fails.
pub set_thread_ready-Owns :
    {c idle : ℕ} {th : Threads} {s : Scheduler} {ls : ℕ → List ℕ} (ws : List ℕ) (t : ℕ)
    → Owns c idle th s ls ws
    → Wakeable c idle th ls t
    → Lacks t ws
    → (l : Links) × (m : ReadyMatrix) × (set_thread_ready th s t
        ≡ some (record (set_state th t State.ready) { links = l }, record s { ready_matrix = m }))
      × Owns c idle
          (record (set_state th t State.ready) { links = l })
          (record s { ready_matrix = m })
          (enqueue th.effective_priority ls t)
          ws
unfolding set_thread_ready
set_thread_ready-Owns {c} {idle} {th} {s} {ls} ws t o w out =
    let th' = set_state th t State.ready in
    let p = th.effective_priority t in
    let (l, m, e, r) =
      enqueue_thread-Represents (set_state-Represents t State.ready w.absent o.ready) t w.in_range
        ready_now w.here (w.absent p) in
    (
      l,
      m,
      rw (here, not_idle, e),
      record {
        core = o.core;
        ready = r;
        idle_at = o.idle_at;
        idle_absent =
            Absent-enqueue th.effective_priority ls t idle (λ q. w.not_idle (sym q)) o.idle_absent;
        inbox = o.inbox;
        young = o.young;
        wakeable = still_Wakeable c idle th th'.state l ls t ws out o.wakeable;
        distinct = o.distinct;
      },
    )
  where
    ready_now : (set_state th t State.ready).state t ≡ State.ready
    ready_now = ground arith

    here : (th.pinned_core t == s.core_id) ≡ true
    here = ground (arith, w.here, o.core)

    not_idle : ptr_eq (some t) s.idle_thread ≡ false
    not_idle = ground (arith, o.idle_at, w.not_idle)
