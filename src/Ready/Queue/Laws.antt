-- ===== src/Ready/Queue/Laws.antt =====
-- A ready queue that holds a list of threads behaves as that list.
use co_rtos.Base.{
  ℕ, zero, suc, ◌+◌, ◌≤◌, Ptr, none, some, true, false, ◌||◌, is_some, ptr_eq, ◌≡◌, ◌↔◌, ap, ◌∙◌,
  List, [], ◌∷◌, ◌++◌, length, Lacks, arith,
}
use co_rtos.Intrusive.{Links, Ends, is_enqueued, link_back, unlink}
use co_rtos.Intrusive.Chain.{first, last, Chain, Holds, Chain-split, last-Has, ne_of_Lacks}
use co_rtos.Intrusive.Ops.{unlink-Holds, unlink_front-eq-unlink}
use co_rtos.Intrusive.Appending.{last-some, last-append}
use co_rtos.Threads.{Threads, State}
use co_rtos.Ready.Queue.{
  same_bool, pop_front_at, empty, has_peer, size_from, size, push_back, pop_front, remove,
}

size_from-Chain :
    (fuel : ℕ) (l : Links) (p : Ptr) (xs : List ℕ) (n : ℕ)
    → length xs ≤ fuel
    → Chain l p xs none
    → size_from fuel l (first xs none) n ≡ some (n + length xs)
unfolding size_from
size_from-Chain zero l p [] n h c = ground arith
size_from-Chain (suc fuel) l p [] n h c = ground arith
size_from-Chain zero l p (x ∷ xs) n h c = absurd (omega arith)
size_from-Chain (suc fuel) l p (x ∷ xs) n h c =
    ground (arith, size_from-Chain fuel l (some x) xs (suc n))

-- On a queue that holds `xs`, `size` counts its members once the fuel reaches their number,
-- `empty` tells whether there are none, and `has_peer` whether there are two or more.
observers-Holds :
    (fuel : ℕ) (th : Threads) {q : Ends} (xs : List ℕ)
    → length xs ≤ fuel
    → Holds th.links q xs
    → (size fuel th q ≡ some (length xs))
      × ((empty q ≡ true) ↔ (xs ≡ []))
      × ((has_peer q ≡ true) ↔ (2 ≤ length xs))
unfolding size has_peer
observers-Holds fuel th {q} [] le h =
    (rw h.starts (size_from-Chain fuel th.links none [] 0 le h.chain), ground arith, ground arith)
observers-Holds fuel th {q} (x ∷ []) le h = (
  rw h.starts (size_from-Chain fuel th.links none (x ∷ []) 0 le h.chain),
  ground arith,
  ground arith,
)
observers-Holds fuel th {q} (x ∷ y ∷ xs) le h =
    let (z, e) = last-some y xs in
    let ne = ne_of_Lacks x z (y ∷ xs) h.distinct.0 (last-Has y z xs e) in
    (
      rw h.starts (size_from-Chain fuel th.links none (x ∷ y ∷ xs) 0 le h.chain ∙ ground arith),
      ground arith,
      ground arith,
    )

pub push_back-Holds :
    {th : Threads} {q : Ends} (t : ℕ) (xs : List ℕ)
    → Holds th.links q xs
    → Lacks t xs
    → is_enqueued th.links t ≡ false
    → th.state t ≡ State.ready
    → push_back th q t
      ≡ some (record th { links = (link_back th.links q t).0 }, (link_back th.links q t).1)
unfolding push_back
push_back-Holds t xs h out free e = rw (free, e)

pub pop_front-Holds :
    {th : Threads} {q : Ends} (t : ℕ) (xs : List ℕ)
    → Holds th.links q (t ∷ xs)
    → pop_front th q
      ≡ (record th { links = (unlink th.links q t).0 }, (unlink th.links q t).1, some t)
unfolding pop_front
pop_front-Holds {th} {q} t xs h =
    ap (λ p. pop_front_at p th q) h.starts
    ∙ ap (λ r. (record th { links = r.0 }, r.1, some t)) (unlink_front-eq-unlink t xs h)

pop_front-empty : {th : Threads} {q : Ends} → Holds th.links q [] → pop_front th q ≡ (th, q, none)
unfolding pop_front
pop_front-empty {th} {q} h = ap (λ p. pop_front_at p th q) h.starts

-- Both ends of a list are null, or neither is.
ends-agree :
    {l : Links} {q : Ends} (xs : List ℕ)
    → Holds l q xs
    → same_bool (is_some q.head) (is_some q.tail) ≡ true
ends-agree [] h = rw (h.starts, h.ends)
ends-agree (x ∷ xs) h = let (z, e) = last-some x xs in rw (h.starts, h.ends ∙ e)

-- A member of the list is its head or has a predecessor, and so at the other end.
member-linked :
    {l : Links} {q : Ends} (us : List ℕ) (t : ℕ) (vs : List ℕ)
    → Holds l q (us ++ t ∷ vs)
    → ((ptr_eq (some t) q.head || is_some (l.prev t)) ≡ true)
      × ((ptr_eq (some t) q.tail || is_some (l.next t)) ≡ true)
member-linked {l} {q} us t vs h =
    let c = Chain-split l none us (t ∷ vs) none h.chain in
    (left us c.1.0 h.starts, right vs c.1.1 (h.ends ∙ last-append none us (t ∷ vs)))
  where
    left :
        (ws : List ℕ)
        → l.prev t ≡ last none ws
        → q.head ≡ first (ws ++ t ∷ vs) none
        → (ptr_eq (some t) q.head || is_some (l.prev t)) ≡ true
    left [] e s = ground arith
    left (w ∷ ws) e s = let (z, f) = last-some w ws in ground arith

    right :
        (ws : List ℕ)
        → l.next t ≡ first ws none
        → q.tail ≡ last (some t) ws
        → (ptr_eq (some t) q.tail || is_some (l.next t)) ≡ true
    right [] e s = ground arith
    right (w ∷ ws) e s = ground arith

-- Taking a member out passes the three assertions.
pub remove-Holds :
    {th : Threads} {q : Ends} (us : List ℕ) (t : ℕ) (vs : List ℕ)
    → Holds th.links q (us ++ t ∷ vs)
    → remove th q t ≡ some (record th { links = (unlink th.links q t).0 }, (unlink th.links q t).1)
unfolding remove
remove-Holds us t vs h =
    let m = member-linked us t vs h in
    rw (m.0, m.1, ends-agree (us ++ vs) (unlink-Holds us t vs h).0)
