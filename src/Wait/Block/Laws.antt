-- ===== src/Wait/Block/Laws.antt =====
-- What a signal does where nobody can be woken.
use co_rtos.Base.Members.{All-split}
use co_rtos.Base.{
  ℕ, suc, ◌<◌, Ptr, none, some, Bool, true, false, ◌≡◌, refl, ◌∙◌, subst, List, ◌∷◌, length, All,
  ap,
}
use co_rtos.Threads.{Threads}
use co_rtos.Wait.Nodes.{WaitNodes}
use co_rtos.Wait.Block.{World, is_done_group, signal_one, signal_loop, signal_all}
use co_rtos.Wait.Waitable.{is_done, pick_best}
use co_rtos.Wait.Waitable.Laws.{Queues}
use co_rtos.Wait.Waitable.Pick.{Picked, somebody, pick_best-Picked}

-- The waiters of a queue are all of groups that are done.
abbrev pub Settled : World → List ℕ → Type 0
Settled w xs = All (λ a. is_done (is_done_group w) (w.nodes.group a) ≡ true) xs

null_of_Picked :
    (ns : WaitNodes) (th : Threads) (done : ℕ → Bool) (xs : List ℕ) (r : Ptr)
    → All (λ a. is_done done (ns.group a) ≡ true) xs
    → Picked ns th done xs r
    → r ≡ none
null_of_Picked ns th done xs none settled p = refl
null_of_Picked ns th done xs (some a) settled (somebody us _ vs e live less leq) =
    absurd (clash _ live (All-split _ us (a ∷ vs) (subst (All _) e settled)).1.0)
  where
    clash : (b : Bool) → b ≡ false → b ≡ true → ⊥
    clash b f t = cc

pick_best-none :
    (w : World) (v fuel : ℕ) (xs : List ℕ)
    → Queues (w.waitables v) w.nodes xs
    → All (λ a. w.nodes.active a ≡ true) xs
    → Settled w xs
    → length xs < fuel
    → pick_best (w.waitables v) w.nodes w.threads (is_done_group w) fuel ≡ some none
pick_best-none w v fuel xs q act settled enough =
    let (r, e, p) =
      pick_best-Picked (w.waitables v) w.nodes w.threads (is_done_group w) xs fuel q act enough in
    e ∙ ap some (null_of_Picked w.nodes w.threads (is_done_group w) xs r settled p)

-- On a queue whose nodes are active and name it, and whose nodes' groups are all done, with fuel
-- above the number of nodes and for one round or more, `signal_one` and `signal_all` end, change
-- nothing, and pend no reschedule.
signals-Settled :
    (w : World) (v fuel n this_core : ℕ) (rounds : List Bool) (acquired : Bool) (xs : List ℕ)
    → Queues (w.waitables v) w.nodes xs
    → All (λ a. w.nodes.active a ≡ true) xs
    → Settled w xs
    → length xs < fuel
    → (signal_one fuel rounds this_core v acquired w ≡ some (w, false))
      × (signal_all (suc n) fuel rounds this_core v acquired w ≡ some (w, false))
unfolding signal_one signal_all signal_loop
signals-Settled w v fuel n this_core rounds acquired xs q act settled enough =
    let e = pick_best-none w v fuel xs q act settled enough in (rw e refl, rw e refl)
