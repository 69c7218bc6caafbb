-- ===== src/Scheduler/Reschedule.antt =====
-- `reschedule`: the core drains its inbox, puts a running thread back, and switches to the best
-- ready thread, or to its idle thread where there is none.
use native.Mathlib.Decide.{ℕ_discrete}
use co_rtos.Base.{
  ℕ, ◌<◌, some, false, ◌==◌, ==_iff, if◌then◌else◌, update, ◌≡◌, refl, sym, ap, subst, ◌≢◌, List,
  [], ◌∷◌, length, Lacks, arith, ◌>>=◌,
}
use co_rtos.Config.{max_priorities}
use co_rtos.Scheduler.{
  Scheduler, drain_first, drain_inbox, requeue, set_thread_ready, switch_to_best, reschedule_from,
  reschedule,
}
use co_rtos.Scheduler.Drain.{all_ready, all_ready-Lacks, drain_loop-Drained}
use co_rtos.Scheduler.Invariant.{
  Absent, Owns, Wakeable, enqueue, enqueue_all, Absent-enqueue, set_thread_ready-Owns,
  set_state-Represents,
}
use co_rtos.Threads.{Threads, State, is_ready, set_state}
use co_rtos.Scheduler.Switching.{Switched, switch_to_best-Switched}

-- The state of each thread when the next one is chosen: a running `previous` has become ready.
abbrev pub settled : State → (ℕ → State) → ℕ → ℕ → State
settled State.running st previous = update st previous State.ready
settled _ st previous = st

-- The lists from which the next thread is chosen: a running `previous` stands last in the list of
-- its priority, unless it is the idle thread.
abbrev pub candidates : State → (ℕ → ℕ) → ℕ → (ℕ → List ℕ) → ℕ → ℕ → List ℕ
candidates State.running prio idle ls previous =
    if previous == idle then ls else enqueue prio ls previous
candidates _ prio idle ls previous = ls

Absent-enqueue_all :
    (prio : ℕ → ℕ) (ls : ℕ → List ℕ) (ws : List ℕ) (a : ℕ)
    → Lacks a ws
    → Absent ls a
    → Absent (enqueue_all prio ls ws) a
Absent-enqueue_all prio ls [] a out h = h
Absent-enqueue_all prio ls (w ∷ ws) a out h =
    Absent-enqueue_all prio (enqueue prio ls w) ws a out.1 (Absent-enqueue prio ls w a out.0 h)

-- The current thread of a core stands in no ready list.
pub record IsCurrent (c : ℕ) (th : Threads) (ls : ℕ → List ℕ) (t : ℕ) : Type 0 where
  pub here : th.pinned_core t ≡ c
  pub in_range : th.effective_priority t < max_priorities
  pub absent : Absent ls t

module _ {c idle : ℕ} {th : Threads} {s : Scheduler} {ls : ℕ → List ℕ} (t : ℕ)
    (o : Owns c idle th s ls []) (k : IsCurrent c th ls t) where
  requeue_idle :
      t ≡ idle
      → (requeue State.running th s t ≡ some (set_state th t State.ready, s))
        × Owns c idle (set_state th t State.ready) s ls []
  unfolding set_thread_ready
  requeue_idle e = (
    ground (arith, k.here, o.core, o.idle_at),
    record {
      core = o.core;
      ready = set_state-Represents t State.ready k.absent o.ready;
      idle_at = o.idle_at;
      idle_absent = o.idle_absent;
      inbox = o.inbox;
      young = o.young;
      wakeable = tt;
      distinct = tt;
    },
  )

  -- Putting the previous thread back and switching, by the state of that thread.
  requeue-Switched :
      (st : State)
      → st ≢ State.ready
      → Switched c idle t
          (settled st th.state t)
          (candidates st th.effective_priority idle ls t)
          (requeue st th s t >>= λ r. switch_to_best r.0 r.1 t)
  requeue-Switched State.ready ne = absurd (ne refl)
  requeue-Switched State.blocked ne = switch_to_best-Switched t o
  requeue-Switched State.terminated ne = switch_to_best-Switched t o
  requeue-Switched State.running ne = elim (ℕ_discrete t idle) [
    | yes e ↦
        let r = requeue_idle e in rw ((==_iff t idle).1 e, r.0) (switch_to_best-Switched t r.1)
    | no ne' ↦
        let w : Wakeable c idle th ls t = record {
          here = k.here;
          in_range = k.in_range;
          absent = k.absent;
          not_idle = ne';
        } in
        let (l, m, e, o') = set_thread_ready-Owns [] t o w tt in
        rw (not_same ne', e) (switch_to_best-Switched t o')
  ]
    where
      not_same : t ≢ idle → (t == idle) ≡ false
      not_same ne' = ground arith

is_ready_of_ne : (st : State) → st ≢ State.ready → is_ready st ≡ false
is_ready_of_ne State.ready ne = absurd (ne refl)
is_ready_of_ne State.running ne = refl
is_ready_of_ne State.blocked ne = refl
is_ready_of_ne State.terminated ne = refl

-- A reschedule on a core that owns its lists, away from its current thread, which is not ready
-- and neither stands in a list nor waits in the inbox, passes every assertion with fuel for one
-- round more than the inbox holds. The waiting threads are made ready first, in their order; then
-- a running thread other than the idle one goes to the end of the list of its priority; then the
-- core switches to the head of the first list in use, or to its idle thread where none is in use.
-- The chosen thread runs and is current, no other thread's state changes, and the invariant of
-- the core is kept.
pub reschedule-Switched :
    {c idle : ℕ} (fuel : ℕ) {th : Threads} {s : Scheduler} {ls : ℕ → List ℕ} (ws : List ℕ)
    (previous : ℕ)
    → Owns c idle th s ls ws
    → IsCurrent c th ls previous
    → s.current_thread ≡ some previous
    → th.state previous ≢ State.ready
    → Lacks previous ws
    → length ws < fuel
    → Switched c idle previous
        (settled (th.state previous) (all_ready th.state ws) previous)
        (candidates
          (th.state previous)
          th.effective_priority
          idle
          (enqueue_all th.effective_priority ls ws)
          previous)
        (reschedule fuel th s)
unfolding reschedule drain_first drain_inbox
reschedule-Switched {c} {idle} fuel {th} {s} {ls} ws previous o k cur not_ready out lt =
    let s₀ = record s { inbox_poke_pending = false } in
    let o₀ : Owns c idle th s₀ ls ws = record {
      core = o.core;
      ready = o.ready;
      idle_at = o.idle_at;
      idle_absent = o.idle_absent;
      inbox = o.inbox;
      young = o.young;
      wakeable = o.wakeable;
      distinct = o.distinct;
    } in
    let d = drain_loop-Drained fuel th s₀ ls ws lt o₀ in
    let same = all_ready-Lacks th.state ws previous out in
    let after =
      requeue-Switched previous d.owns
        (record {
          here = k.here;
          in_range = k.in_range;
          absent = Absent-enqueue_all th.effective_priority ls ws previous out k.absent;
        })
        (th.state previous) not_ready in
    subst (Switched c idle previous _ _) (sym (ap (λ p. p >>= reschedule_from fuel th s) cur)) (
      rw
        (
          o.ready.unlinked previous k.here (k.absent (th.effective_priority previous)),
          is_ready_of_ne (th.state previous) not_ready,
          d.result,
          same,
        )
        after)
