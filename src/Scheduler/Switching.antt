-- ===== src/Scheduler/Switching.antt =====
-- `switch_to_best`: the core switches to the best ready thread, or to its idle thread where there is
-- none.
use co_rtos.Base.{
  ℕ, Option, some, false, ◌==◌, update, ◌≡◌, refl, subst, ◌≢◌, inl, inr, List, [], ◌∷◌, All, Lacks,
  Distinct, Bool-cases, Ptr, arith, ◌>>=◌,
}
use co_rtos.Ready.Matrix.{ReadyMatrix}
use co_rtos.Ready.Matrix.Best.{Best, AllEmpty, Popped, nothing, popped, pop_best_thread-Popped}
use co_rtos.Ready.Matrix.Invariant.{Member, Represents, Lacks-of_Member}
use co_rtos.Scheduler.{Scheduler, Switch, or_idle, switch_to_best}
use co_rtos.Scheduler.Invariant.{Absent, Owns, set_state-Represents}
use co_rtos.Threads.{Threads, State, set_state}

-- The next thread and the lists that it leaves: the best thread cut off from its list, or the idle
-- thread where every list is empty.
pub data Chosen (idle : ℕ) (ls : ℕ → List ℕ) : ℕ → (ℕ → List ℕ) → Type 0 where
  best : (p t : ℕ) (rest : List ℕ) → Best ls p t rest → Chosen idle ls t (update ls p rest)
  only_idle : AllEmpty ls → Chosen idle ls idle ls

-- The outcome of a reschedule away from `previous` with the lists `ls` and the states
-- `st`: the switch goes to the
-- chosen thread, which now runs and is current, and the core owns the lists that are left.
pub record Switched (c idle previous : ℕ) (st : ℕ → State) (ls : ℕ → List ℕ)
    (r : Option (Threads × Scheduler × Switch)) : Type 0 where
  pub threads : Threads
  pub scheduler : Scheduler
  pub next : ℕ
  pub lists : ℕ → List ℕ
  pub result : r ≡ some (threads, scheduler, record { from = previous; to = next })
  pub chosen : Chosen idle ls next lists
  pub owns : Owns c idle threads scheduler lists []
  pub current : scheduler.current_thread ≡ some next
  pub runs : threads.state next ≡ State.running
  pub others : (a : ℕ) → a ≢ next → threads.state a ≡ st a

Best-Absent :
    {c : ℕ} {th : Threads} {m : ReadyMatrix} {ls : ℕ → List ℕ} (p t : ℕ) (rest : List ℕ)
    → Represents c th m ls
    → Best ls p t rest
    → Absent (update ls p rest) t
Best-Absent {c} {th} {m} {ls} p t rest r b q = elim (Bool-cases (q == p)) [
  | inl eq ↦ rw eq (subst Distinct b.at_head (r.holds p).distinct).0
  | inr ne ↦ rw ne (Lacks-of_Member th c t (ls q) (inl (elsewhere ne)) (r.members q))
]
  where
    own : th.effective_priority t ≡ p
    own = (subst (λ xs. All (Member th c p) xs) b.at_head (r.members p)).0.1

    elsewhere : (q == p) ≡ false → th.effective_priority t ≢ q
    elsewhere ne e = ground (arith, own)

Absent-update :
    (ls : ℕ → List ℕ) (p t a : ℕ) (rest : List ℕ)
    → ls p ≡ t ∷ rest
    → Absent ls a
    → Absent (update ls p rest) a
Absent-update ls p t a rest e out q = elim (Bool-cases (q == p)) [
  | inl eq ↦ rw eq (subst (λ xs. Lacks a xs) e (out p)).1
  | inr ne ↦ rw ne (out q)
]

module _ {c idle : ℕ} {th : Threads} {s : Scheduler} {ls : ℕ → List ℕ} (previous : ℕ)
    (o : Owns c idle th s ls []) where
  -- What `switch_to_best` does with the thread that it has popped.
  abbrev go_on : Threads × ReadyMatrix × Ptr → Option (Threads × Scheduler × Switch)
  go_on r = or_idle r.2 s.idle_thread >>= λ next. some (
    set_state r.0 next State.running,
    record s { ready_matrix = r.1; current_thread = some next },
    record { from = previous; to = next },
  )

  go_on-Switched :
      {r : Threads × ReadyMatrix × Ptr}
      → Popped c th s.ready_matrix ls r
      → Switched c idle previous th.state ls (go_on r)
  go_on-Switched (nothing none_ready) = record {
    threads = set_state th idle State.running;
    scheduler = record s { current_thread = some idle };
    next = idle;
    lists = ls;
    result = rw o.idle_at;
    chosen = only_idle none_ready;
    owns = record {
      core = o.core;
      ready = set_state-Represents idle State.running o.idle_absent o.ready;
      idle_at = o.idle_at;
      idle_absent = o.idle_absent;
      inbox = o.inbox;
      young = o.young;
      wakeable = tt;
      distinct = tt;
    };
    current = refl;
    runs = ground arith;
    others = λ a ne. ground arith;
  }
  go_on-Switched (popped p t rest l m b lt free r) = record {
    threads = set_state (record th { links = l }) t State.running;
    scheduler = record s { ready_matrix = m; current_thread = some t };
    next = t;
    lists = update ls p rest;
    result = refl;
    chosen = best p t rest b;
    owns = record {
      core = o.core;
      ready = set_state-Represents t State.running (Best-Absent p t rest o.ready b) r;
      idle_at = o.idle_at;
      idle_absent = Absent-update ls p t idle rest b.at_head o.idle_absent;
      inbox = o.inbox;
      young = o.young;
      wakeable = tt;
      distinct = tt;
    };
    current = refl;
    runs = ground arith;
    others = λ a ne. ground arith;
  }

  pub switch_to_best-Switched : Switched c idle previous th.state ls (switch_to_best th s previous)
  unfolding switch_to_best
  switch_to_best-Switched = go_on-Switched (pop_best_thread-Popped o.ready)
