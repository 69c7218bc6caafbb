-- ===== src/Scheduler/Post.antt =====
-- `post_to_inbox`: what a post leaves in the inbox, and when it sends the interrupt.
use mathlib.Core.List.{map-append}
use co_rtos.Base.Members.{Distinct-snoc}
use co_rtos.Base.{
  ℕ, suc, ◌+◌, ◌<◌, ◌^◌, some, Bool, true, false, not, ◌≡◌, refl, sym, ◌∙◌, ap, subst, List, [],
  ◌∷◌, ◌++◌, map, length, replicate, All-append, Lacks, arith,
}
use co_rtos.Mpsc.{publish}
use co_rtos.Mpsc.Refine.{push-room, publish-Holds, push-full}
use co_rtos.Mpsc.Window
use co_rtos.Scheduler.{Scheduler, CrossCoreRequest, inbox_bits, post_to_inbox}
use co_rtos.Scheduler.Invariant.{Owns, Wakeable, request}
use co_rtos.Threads.{Threads}

length-requests : (ws : List ℕ) → length (map request ws) ≡ length ws
length-requests [] = refl
length-requests (w ∷ ws) = ap suc (length-requests ws)

-- A post of a thread that may be made ready and does not wait yet, to an inbox with room whose
-- counters are below the sign bit, succeeds however often its compare-exchange fails first. The
-- thread waits behind the others, the core is marked as poked, and the interrupt is sent exactly
-- when it was not marked before.
pub post_to_inbox-Owns :
    {c idle : ℕ} {th : Threads} {s : Scheduler} {ls : ℕ → List ℕ} (ws : List ℕ) (t n : ℕ)
    (rest : List Bool)
    → Owns c idle th s ls ws
    → Wakeable c idle th ls t
    → Lacks t ws
    → length ws < 2 ^ inbox_bits
    → s.inbox.head + 1 + 2 ^ inbox_bits < 2 ^ 63
    → (s' : Scheduler) × (post_to_inbox (replicate n false ++ true ∷ rest) s (request t)
        ≡ some (s', true, not s.inbox_poke_pending))
      × Owns c idle th s' ls (ws ++ t ∷ [])
      × (s'.inbox_poke_pending ≡ true)
unfolding post_to_inbox
post_to_inbox-Owns {c} {idle} {th} {s} {ls} ws t n rest o w out room young =
    let lt : length (map request ws) < 2 ^ inbox_bits = omega (arith, length-requests ws) in
    let ring = publish inbox_bits s.inbox s.inbox.head (request t) in
    (
      record s { inbox = ring; inbox_poke_pending = true },
      rw (push-room inbox_bits (map request ws) o.inbox o.young (request t) n rest lt),
      record {
        core = o.core;
        ready = o.ready;
        idle_at = o.idle_at;
        idle_absent = o.idle_absent;
        inbox =
            subst (λ xs. Window.Holds inbox_bits ring xs) (sym (map-append request ws (t ∷ [])))
              (publish-Holds inbox_bits (map request ws) o.inbox o.young (request t) lt);
        young = omega (arith, young);
        wakeable = All-append (Wakeable c idle th ls) ws (t ∷ []) o.wakeable (w, tt);
        distinct = Distinct-snoc ws t o.distinct out;
      },
      refl,
    )

-- A post to a full inbox is refused, changes nothing and sends no interrupt.
post_to_inbox-full :
    {c idle : ℕ} {th : Threads} {s : Scheduler} {ls : ℕ → List ℕ} (ws : List ℕ)
    (r : CrossCoreRequest) (b : Bool) (rounds : List Bool)
    → Owns c idle th s ls ws
    → length ws ≡ 2 ^ inbox_bits
    → post_to_inbox (b ∷ rounds) s r ≡ some (s, false, false)
unfolding post_to_inbox
post_to_inbox-full {s = s} ws r b rounds o full = rw (
    push-full inbox_bits (map request ws) o.inbox o.young r b rounds (omega arith)
      (length-requests ws ∙ full))
