-- ===== src/Scheduler/Race.antt =====
-- A wake-up that is posted between a thread's `prepare_block` and its `reschedule`.
use co_rtos.Base.{
  ℕ, ◌<◌, none, some, false, ◌≡◌, sym, ◌∙◌, ap, refl, subst, List, [], ◌∷◌, length, All, Has, inl,
  inr, ◌>>=◌,
}
use co_rtos.Scheduler.{Scheduler, drain_first, requeue, drain_inbox, reschedule_from, reschedule}
use co_rtos.Scheduler.Drain.{all_ready, all_ready-Has, drain_loop-Drained}
use co_rtos.Scheduler.Invariant.{Owns, Wakeable, enqueue_all}
use co_rtos.Threads.{Threads, State}

member_Wakeable :
    {c idle : ℕ} {th : Threads} {ls : ℕ → List ℕ} (a : ℕ) (ws : List ℕ)
    → Has a ws
    → All (Wakeable c idle th ls) ws
    → Wakeable c idle th ls a
member_Wakeable a [] h all = elim h [ ]
member_Wakeable {c} {idle} {th} {ls} a (w ∷ ws) (inl e) all =
    subst (λ x. Wakeable c idle th ls x) (sym e) all.0
member_Wakeable a (w ∷ ws) (inr h) all = member_Wakeable a ws h all.1

-- A reschedule that has passed its assertions and its drain, and has no case for the thread's state.
pub record Stuck (c idle fuel : ℕ) (th : Threads) (s : Scheduler) (ls : ℕ → List ℕ) (ws : List ℕ)
    (previous : ℕ) : Type 0 where
  pub threads : Threads
  pub scheduler : Scheduler
  pub drained : drain_first fuel th s previous ≡ some (threads, scheduler)
  pub states : threads.state ≡ all_ready th.state ws
  pub made_ready : threads.state previous ≡ State.ready
  pub current : scheduler.current_thread ≡ some previous
  pub owns : Owns c idle threads scheduler (enqueue_all th.effective_priority ls ws) []
  pub no_case : requeue (threads.state previous) threads scheduler previous ≡ none
  pub no_result : reschedule fuel th s ≡ none

-- On a core that owns its lists, a blocked current thread that waits in the inbox, because
-- another core has signalled it since it blocked, meets this in its own reschedule, given fuel
-- for the drain: the assertions pass and the drain ends, with the waiting threads ready at the
-- ends of their lists and the thread among them, still current and now ready; the switch on its
-- state has no case for that, and so the reschedule has no result.
pub reschedule_unreachable :
    {c idle : ℕ} (fuel : ℕ) {th : Threads} {s : Scheduler} {ls : ℕ → List ℕ} (ws : List ℕ)
    (previous : ℕ)
    → Owns c idle th s ls ws
    → s.current_thread ≡ some previous
    → th.state previous ≡ State.blocked
    → Has previous ws
    → length ws < fuel
    → Stuck c idle fuel th s ls ws previous
unfolding reschedule drain_first drain_inbox
reschedule_unreachable {c} {idle} fuel {th} {s} {ls} ws previous o cur blocked waits lt =
    let s₀ = record s { inbox_poke_pending = false } in
    let o₀ : Owns c idle th s₀ ls ws = record {
      core = o.core;
      ready = o.ready;
      idle_at = o.idle_at;
      idle_absent = o.idle_absent;
      inbox = o.inbox;
      young = o.young;
      wakeable = o.wakeable;
      distinct = o.distinct;
    } in
    let d = drain_loop-Drained fuel th s₀ ls ws lt o₀ in
    let w = member_Wakeable previous ws waits o.wakeable in
    let away = o.ready.unlinked previous w.here (w.absent (th.effective_priority previous)) in
    let ready = all_ready-Has th.state ws previous waits in
    record {
      threads = record th { state = all_ready th.state ws; links = d.links };
      scheduler = record s₀ { ready_matrix = d.matrix; inbox = d.ring };
      drained = rw (away, blocked) d.result;
      states = refl;
      made_ready = ready;
      current = cur;
      owns = d.owns;
      no_case = rw ready refl;
      no_result =
          ap (λ p. p >>= reschedule_from fuel th s) cur ∙ rw (away, blocked, d.result, ready) refl;
    }
