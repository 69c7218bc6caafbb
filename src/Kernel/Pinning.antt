-- ===== src/Kernel/Pinning.antt =====
-- `pin_thread_to_core` of src/kernel/kernel.cpp: the load balancing.
use co_rtos.Base.{
  ℕ, ◌+◌, ◌-◌, ◌^◌, ◌<◌, arith, subst, update, some, true, List, [], ◌∷◌, ◌++◌, length, get_elem?,
  set, ◌≡◌, refl, ap, ◌∙◌,
}
use co_rtos.Scheduler.{Scheduler, pin_thread}
use co_rtos.Threads.{Threads}
use co_rtos.Kernel.{Kernel, Choice, no_choice, choose_from, pin_thread_to_core}
use co_rtos.Kernel.Choosing.{
  Allowed, Bounded, LeastLoaded, Search, choose_from-Search, nothing, best,
}

get-middle :
    (us : List Scheduler) (s : Scheduler) (vs : List Scheduler)
    → get_elem? (us ++ s ∷ vs) (length us) ≡ some s
get-middle [] s vs = refl
get-middle (u ∷ us) s vs = get-middle us s vs

set-middle :
    (us : List Scheduler) (s s' : Scheduler) (vs : List Scheduler)
    → set (us ++ s ∷ vs) (length us) s' ≡ us ++ s' ∷ vs
set-middle [] s s' vs = refl
set-middle (u ∷ us) s s' vs = ap (λ l. u ∷ l) (set-middle us s s' vs)

result_of :
    (th : Threads) (k : Kernel) (t : ℕ) (c : Choice) (us : List Scheduler) (s : Scheduler)
    (vs : List Scheduler)
    → choose_from (th.affinity t) 0 k.schedulers no_choice ≡ c
    → c.found ≡ true
    → k.schedulers ≡ us ++ s ∷ vs
    → c.best_core ≡ length us
    → pin_thread_to_core th k t
      ≡ some ((pin_thread th s t).0, record k { schedulers = us ++ (pin_thread th s t).1 ∷ vs })
unfolding pin_thread_to_core
result_of th k t c us s vs e f place at =
    let got : get_elem? k.schedulers c.best_core ≡ some s =
      ap (λ l. get_elem? l c.best_core) place
      ∙ ap (get_elem? (us ++ s ∷ vs)) at
      ∙ get-middle us s vs in
    let put : set k.schedulers c.best_core (pin_thread th s t).1
        ≡ us ++ (pin_thread th s t).1 ∷ vs =
      ap (λ l. set l c.best_core (pin_thread th s t).1) place
      ∙ ap (λ n. set (us ++ s ∷ vs) n (pin_thread th s t).1) at
      ∙ set-middle us s (pin_thread th s t).1 vs in
    rw (e, f, got) (ap (λ l. some ((pin_thread th s t).0, record k { schedulers = l })) put)

middle_below :
    (us : List Scheduler) (s : Scheduler) (vs : List Scheduler)
    → Bounded (us ++ s ∷ vs)
    → s.pinned_thread_counter < 2 ^ 32 - 1
middle_below [] s vs h = h.0
middle_below (u ∷ us) s vs h = middle_below us s vs h.1

counted :
    (th : Threads) (s : Scheduler) (t : ℕ)
    → s.pinned_thread_counter < 2 ^ 32 - 1
    → pin_thread th s t ≡ (
      record th { pinned_core = update th.pinned_core t s.core_id },
      record s { pinned_thread_counter = s.pinned_thread_counter + 1 },
    )
unfolding pin_thread
counted th s t h =
    ap
      (λ n. (
        record th { pinned_core = update th.pinned_core t s.core_id },
        record s { pinned_thread_counter = n },
      ))
      (omega (arith, h))

-- What pinning thread `t` gives.
pub record Pinned (th : Threads) (k : Kernel) (t : ℕ) : Type 0 where
  pub core : ℕ
  pub before : List Scheduler
  pub scheduler : Scheduler
  pub after : List Scheduler
  pub choice : LeastLoaded (th.affinity t) k.schedulers core before scheduler after
  pub result :
      pin_thread_to_core th k t
      ≡ some (
        (pin_thread th scheduler t).0,
        record k { schedulers = before ++ (pin_thread th scheduler t).1 ∷ after },
      )
  pub counts : pin_thread th scheduler t ≡ (
    record th { pinned_core = update th.pinned_core t scheduler.core_id },
    record scheduler { pinned_thread_counter = scheduler.pinned_thread_counter + 1 },
  )

-- If the thread's mask allows some core and every load counter is below its maximum, pinning
-- succeeds: the first of the least loaded allowed cores pins the thread, which then has that
-- core's number, and that core's counter goes up by one; nothing else of the threads and of that
-- scheduler changes, and the other schedulers stay as they are.
pub pin_thread_to_core-Pinned :
    (th : Threads) (k : Kernel) (t : ℕ)
    → Bounded k.schedulers
    → (Allowed (λ x. ⊥) (th.affinity t) 0 k.schedulers → ⊥)
    → Pinned th k t
pin_thread_to_core-Pinned th k t bounded some_core =
    pinned _ refl (
      choose_from-Search (th.affinity t) 0 [] k.schedulers no_choice refl bounded (nothing refl tt))
  where
    pinned :
        (c : Choice)
        → choose_from (th.affinity t) 0 k.schedulers no_choice ≡ c
        → Search (th.affinity t) k.schedulers c
        → Pinned th k t
    pinned c e (nothing _ all) = absurd (some_core all)
    pinned c e (best us vs s f l h) = record {
      core = c.best_core;
      before = us;
      scheduler = s;
      after = vs;
      choice = h;
      result = result_of th k t c us s vs e f h.place h.index;
      counts = counted th s t (middle_below us s vs (subst Bounded h.place bounded));
    }
