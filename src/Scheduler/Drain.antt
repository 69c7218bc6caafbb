-- ===== src/Scheduler/Drain.antt =====
-- `drain_inbox`: every thread in the inbox becomes ready, in the order in which it was posted.
use co_rtos.Base.Members.{Has-or-Lacks}
use co_rtos.Intrusive.Chain.{ne_of_Lacks}
use co_rtos.Base.{
  ℕ, zero, suc, ◌<◌, Option, none, some, update, ◌≡◌, refl, ◌∙◌, ap, inl, inr, List, [], ◌∷◌, map,
  length, Has, Lacks, arith, ◌>>=◌,
}
use co_rtos.Intrusive.{Links}
use co_rtos.Mpsc
use co_rtos.Mpsc.{Ring}
use co_rtos.Mpsc.Pop.{pop-nil, pop-cons, after_pop, after_pop-Holds}
use co_rtos.Ready.Matrix.{ReadyMatrix}
use co_rtos.Scheduler.{Scheduler, CrossCoreRequest, inbox_bits, set_thread_ready, drain_loop}
use co_rtos.Scheduler.Invariant.{Owns, request, enqueue, enqueue_all, set_thread_ready-Owns}
use co_rtos.Threads.{Threads, State}

-- The state of each thread once all of `ws` have been made ready.
abbrev pub all_ready : (ℕ → State) → List ℕ → ℕ → State
all_ready st [] = st
all_ready st (w ∷ ws) = all_ready (update st w State.ready) ws

pub all_ready-Lacks : (st : ℕ → State) (ws : List ℕ) (a : ℕ) → Lacks a ws → all_ready st ws a ≡ st a
all_ready-Lacks st [] a out = refl
all_ready-Lacks st (w ∷ ws) a out =
    all_ready-Lacks (update st w State.ready) ws a out.1 ∙ ground arith

pub all_ready-Has :
    (st : ℕ → State) (ws : List ℕ) (a : ℕ) → Has a ws → all_ready st ws a ≡ State.ready
all_ready-Has st [] a h = elim h [ ]
all_ready-Has st (w ∷ ws) a h = elim (Has-or-Lacks a ws) [
  | inl in_rest ↦ all_ready-Has (update st w State.ready) ws a in_rest
  | inr out ↦ all_ready-Lacks (update st w State.ready) ws a out ∙ here h out
]
  where
    here : Has a (w ∷ ws) → Lacks a ws → update st w State.ready a ≡ State.ready
    here (inl e) out = ground arith
    here (inr m) out = absurd (ne_of_Lacks a a ws out m refl)

-- What a drain leaves: an empty inbox, and the waiting threads ready, at the ends of their lists.
pub record Drained (c idle : ℕ) (th : Threads) (s : Scheduler) (ls : ℕ → List ℕ) (ws : List ℕ)
    (r : Option (Threads × Scheduler)) : Type 0 where
  pub links : Links
  pub matrix : ReadyMatrix
  pub ring : Ring CrossCoreRequest
  pub result :
      r
      ≡ some (
        record th { state = all_ready th.state ws; links = links },
        record s { ready_matrix = matrix; inbox = ring },
      )
  pub owns :
      Owns c idle
        (record th { state = all_ready th.state ws; links = links })
        (record s { ready_matrix = matrix; inbox = ring })
        (enqueue_all th.effective_priority ls ws)
        []

drain_done :
    (fuel : ℕ) (th : Threads) (s : Scheduler)
    → Mpsc.pop inbox_bits s.inbox ≡ (s.inbox, none)
    → drain_loop (suc fuel) th s ≡ some (th, s)
unfolding drain_loop
drain_done fuel th s e = rw (e, drain_loop)

drain_more :
    (fuel t : ℕ) (th : Threads) (s : Scheduler) (ring : Ring CrossCoreRequest)
    → Mpsc.pop inbox_bits s.inbox ≡ (ring, some (request t))
    → drain_loop (suc fuel) th s
      ≡ (set_thread_ready th (record s { inbox = ring }) t >>= λ r. drain_loop fuel r.0 r.1)
unfolding drain_loop
drain_more fuel t th s ring e = rw (e, drain_loop) (rw (ap (λ r. r.0) e))

-- On a core that owns its lists, the loop that drains the inbox ends with fuel for one round more
-- than there are requests, and passes every assertion; each waiting thread is ready and stands at
-- the end of the list of its priority, in the order of the requests, and the inbox is empty.
pub drain_loop-Drained :
    {c idle : ℕ} (fuel : ℕ) (th : Threads) (s : Scheduler) (ls : ℕ → List ℕ) (ws : List ℕ)
    → length ws < fuel
    → Owns c idle th s ls ws
    → Drained c idle th s ls ws (drain_loop fuel th s)
drain_loop-Drained zero th s ls ws lt o = absurd (omega arith)
drain_loop-Drained {c} {idle} (suc fuel) th s ls [] lt o = record {
  links = th.links;
  matrix = s.ready_matrix;
  ring = s.inbox;
  result = drain_done fuel th s (pop-nil inbox_bits o.young o.inbox);
  owns = o;
}
drain_loop-Drained {c} {idle} (suc fuel) th s ls (w ∷ ws) lt o =
    let ring = after_pop inbox_bits o.young (request w) (map request ws) o.inbox in
    let o₁ : Owns c idle th (record s { inbox = ring }) ls ws = record {
      core = o.core;
      ready = o.ready;
      idle_at = o.idle_at;
      idle_absent = o.idle_absent;
      inbox = after_pop-Holds inbox_bits o.young (request w) (map request ws) o.inbox;
      young = o.young;
      wakeable = o.wakeable.1;
      distinct = o.distinct.1;
    } in
    let (l, m, e, o₂) = set_thread_ready-Owns ws w o₁ o.wakeable.0 o.distinct.0 in
    let d = drain_loop-Drained fuel _ _ (enqueue th.effective_priority ls w) ws (omega arith) o₂ in
    record {
      links = d.links;
      matrix = d.matrix;
      ring = d.ring;
      result =
          drain_more fuel w th s ring
            (pop-cons inbox_bits o.young (request w) (map request ws) o.inbox)
          ∙ ap (λ r. r >>= λ q. drain_loop fuel q.0 q.1) e
          ∙ d.result;
      owns = d.owns;
    }
