-- ===== src/Kernel/Wakeups.antt =====
-- `set_thread_ready` of src/kernel/kernel.cpp: a thread becomes ready on the core it is pinned to.
use co_rtos.Base.{
  ℕ, ◌+◌, ◌^◌, ◌<◌, some, Bool, true, false, not, List, [], ◌∷◌, ◌++◌, ◌==◌, if◌then◌else◌,
  get_elem?, replicate, length, Lacks, ◌≡◌, ◌≢◌, refl, arith,
}
use co_rtos.Scheduler.{Scheduler, inbox_bits, current_thread_priority}
use co_rtos.Scheduler.Invariant.{Owns, Wakeable, enqueue, set_thread_ready-Owns}
use co_rtos.Scheduler.Post.{post_to_inbox-Owns}
use co_rtos.Threads.{Threads, State, is_terminated, is_higher_priority_than}
use co_rtos.Kernel.{Kernel, no_action, put, reschedule, set_thread_ready}

-- While the cores run, a thread of this core that is not terminated and may be made ready becomes
-- ready at once, at the end of the list of its priority, and the caller is to reschedule exactly
-- if the thread's priority is above that of the current thread. The invariant of the core is
-- kept.
pub set_thread_ready-here :
    {idle : ℕ} (th : Threads) (k : Kernel) (t : ℕ) (s : Scheduler) (ls : ℕ → List ℕ) (ws : List ℕ)
    (rounds : List Bool)
    → k.running ≡ true
    → is_terminated (th.state t) ≡ false
    → get_elem? k.schedulers (th.pinned_core t) ≡ some s
    → Owns (th.pinned_core t) idle th s ls ws
    → Wakeable (th.pinned_core t) idle th ls t
    → Lacks t ws
    → (th' : Threads) × (s' : Scheduler) × (set_thread_ready rounds (th.pinned_core t) th k t
        ≡ some (
          th',
          put k (th.pinned_core t) s',
          (if is_higher_priority_than th t (current_thread_priority th s)
              then reschedule
              else no_action),
          false,
        ))
      × Owns (th.pinned_core t) idle th' s' (enqueue th.effective_priority ls t) ws
      × (th'.state t ≡ State.ready)
unfolding set_thread_ready current_thread_priority
set_thread_ready-here th k t s ls ws rounds run live at o w out =
    let (l, m, e, o') = set_thread_ready-Owns ws t o w out in
    let here : (th.pinned_core t == th.pinned_core t) ≡ true = ground arith in
    (_, _, rw (live, at, run, here, e) refl, o', ground arith)

-- While the cores run, a thread of another core that is not terminated and may be made ready is
-- posted to that core's inbox if there is room and its counters are below the sign bit. It waits
-- there behind the others, the thread store stays as it is, the caller need not reschedule, and
-- the interrupt goes to that core exactly if none is pending.
pub set_thread_ready-elsewhere :
    {idle : ℕ} (th : Threads) (k : Kernel) (t this_core : ℕ) (s : Scheduler) (ls : ℕ → List ℕ)
    (ws : List ℕ) (n : ℕ) (rest : List Bool)
    → k.running ≡ true
    → is_terminated (th.state t) ≡ false
    → this_core ≢ th.pinned_core t
    → get_elem? k.schedulers (th.pinned_core t) ≡ some s
    → Owns (th.pinned_core t) idle th s ls ws
    → Wakeable (th.pinned_core t) idle th ls t
    → Lacks t ws
    → length ws < 2 ^ inbox_bits
    → s.inbox.head + 1 + 2 ^ inbox_bits < 2 ^ 63
    → (s' : Scheduler) × (set_thread_ready (replicate n false ++ true ∷ rest) this_core th k t
        ≡ some (th, put k (th.pinned_core t) s', no_action, not s.inbox_poke_pending))
      × Owns (th.pinned_core t) idle th s' ls (ws ++ t ∷ [])
unfolding set_thread_ready
set_thread_ready-elsewhere th k t this_core s ls ws n rest run live away at o w out room young =
    let (s', e, o', poke) = post_to_inbox-Owns ws t n rest o w out room young in
    let other : (this_core == th.pinned_core t) ≡ false = ground arith in
    (s', rw (live, at, run, other, e) refl, o')
