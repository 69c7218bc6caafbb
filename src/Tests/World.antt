-- ===== src/Tests/World.antt =====
-- A core with a ready thread, a running one, an idle one, and one whose wake-up waits in the inbox.
use co_rtos.Base.Bits.{test_bit-zero, test_bit-pow}
use co_rtos.Base.{
  ℕ, ◌-◌, ◌≤◌, ◌^◌, Ptr, some, Bool, true, false, ◌==◌, ==_iff, if◌then◌else◌, update, ◌≡◌, refl,
  sym, ◌∙◌, List, [], ◌∷◌, All, Lacks, arith,
}
use co_rtos.Intrusive.{Ends, no_ends, no_links}
use co_rtos.Intrusive.Chain.{Holds}
use co_rtos.Mpsc.{publish}
use co_rtos.Mpsc
use co_rtos.Mpsc.Fifo.{fresh-Holds}
use co_rtos.Mpsc.Refine.{publish-Holds}
use co_rtos.Ready.Matrix.{ReadyMatrix, empty_matrix}
use co_rtos.Ready.Matrix.Invariant.{nonempty, Member, Represents}
use co_rtos.Scheduler.{Scheduler, inbox_bits}
use co_rtos.Scheduler.Invariant.{Absent, Owns, Wakeable, request}
use co_rtos.Threads.{Threads, State}

-- Thread 0 is idle, 5 runs, 7 is ready and urgent, and the others are blocked.
abbrev pub threads : Threads
threads = record {
  state = λ a. if a == 5 then State.running else if a == 7 then State.ready else State.blocked;
  links = no_links;
  id = λ a. a;
  base_priority = λ a. if a == 7 then 3 else if a == 0 then 30 else 9;
  effective_priority = λ a. if a == 7 then 3 else if a == 0 then 30 else 9;
  pinned_core = λ a. 1;
  affinity = λ a. 2 ^ 32 - 1;
}

abbrev pub no_lists : ℕ → List ℕ
no_lists p = []

pub empty-Represents : Represents 1 threads empty_matrix no_lists
empty-Represents = record {
  holds = λ p. record { starts = refl; ends = refl; chain = tt; distinct = tt };
  bits = λ p lt. test_bit-zero p;
  word = omega arith;
  high = λ p h. refl;
  members = λ p. tt;
  unlinked = λ t e out. refl;
}

abbrev pub queue_of_seven : Ends
queue_of_seven = record { head = some 7; tail = some 7 }

abbrev pub matrix : ReadyMatrix
matrix = record { queues = update (λ _. no_ends) 3 queue_of_seven; bitmap = 8 }

abbrev pub lists : ℕ → List ℕ
lists = update (λ _. []) 3 (7 ∷ [])

seven-Holds :
    (b : Bool) → Holds no_links (if b then queue_of_seven else no_ends) (if b then 7 ∷ [] else [])
seven-Holds true = record {
  starts = refl;
  ends = refl;
  chain = (refl, refl, tt);
  distinct = (tt, tt);
}
seven-Holds false = record { starts = refl; ends = refl; chain = tt; distinct = tt }

seven-nonempty : (b : Bool) → b ≡ nonempty (if b then 7 ∷ [] else [])
seven-nonempty true = refl
seven-nonempty false = refl

seven-Lacks : (b : Bool) (a : ℕ) → (a == 7) ≡ false → Lacks a (if b then 7 ∷ [] else [])
seven-Lacks true a ne = (ground arith, tt)
seven-Lacks false a ne = tt

seven-members :
    (b : Bool) (p : ℕ) → (b ≡ true → p ≡ 3) → All (Member threads 1 p) (if b then 7 ∷ [] else [])
seven-members true p at = ((refl, sym (at refl), refl), tt)
seven-members false p at = tt

pub lists-Absent : (a : ℕ) → (a == 7) ≡ false → Absent lists a
lists-Absent a ne p = seven-Lacks (p == 3) a ne

pub matrix-Represents : Represents 1 threads matrix lists
matrix-Represents = record {
  holds = λ p. seven-Holds (p == 3);
  bits = λ p lt. test_bit-pow p 3 ∙ seven-nonempty (p == 3);
  word = omega arith;
  high = λ p h. none_high p h;
  members = λ p. seven-members (p == 3) p ((==_iff p 3).0);
  unlinked = λ t e out. refl;
}
  where
    none_high : (p : ℕ) → 31 ≤ p → lists p ≡ []
    none_high p h = ground arith

-- The core whose current thread is `cur`, with thread 8 waiting in the inbox.
abbrev pub core_with : Ptr → Scheduler
core_with cur = record {
  core_id = 1;
  pinned_thread_counter = 3;
  current_thread = cur;
  idle_thread = some 0;
  ready_matrix = matrix;
  preempt_disable_depth = 0;
  inbox_poke_pending = true;
  inbox = publish inbox_bits (Mpsc.fresh inbox_bits) 0 (request 8);
}

pub wakeable : (a : ℕ) → (a == 7) ≡ false → (a == 0) ≡ false → Wakeable 1 0 threads lists a
wakeable a ne busy = record {
  here = refl;
  in_range = ground arith;
  absent = lists-Absent a ne;
  not_idle = ground arith;
}

pub core_with-Owns : (cur : Ptr) → Owns 1 0 threads (core_with cur) lists (8 ∷ [])
core_with-Owns cur = record {
  core = refl;
  ready = matrix-Represents;
  idle_at = refl;
  idle_absent = lists-Absent 0 refl;
  inbox =
      publish-Holds inbox_bits [] (fresh-Holds inbox_bits) (omega arith) (request 8) (omega arith);
  young = omega arith;
  wakeable = (wakeable 8 refl refl, tt);
  distinct = (tt, tt);
}
