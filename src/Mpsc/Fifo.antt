-- ===== src/Mpsc/Fifo.antt =====
-- The ring buffer against a bounded FIFO, call by call and over every sequence of calls.
use native.Mathlib.Nat.{mod-eq_of_lt}
use co_rtos.Base.Bits.{bit_and_mask}
use native.Mathlib.Decide.{dec_lt}
use co_rtos.Base.{
  ℕ, zero, suc, ◌+◌, ◌-◌, ◌≤◌, ◌<◌, ◌^◌, Option, none, some, Bool, true, false, ltb, lt→ltb,
  if◌then◌else◌, ◌≡◌, refl, sym, ◌∙◌, ap, List, [], ◌∷◌, ◌++◌, length, replicate, arith, ◌>>=◌,
}
use co_rtos.Mpsc.{
  discard, Cell, Ring, add_size, slot, zero_diff, positive, diff, publish, push_from, push, pop,
  approx_size, fresh,
}
use co_rtos.Mpsc.Pop.{pop-nil, pop-cons, after_pop, after_pop-Holds}
use co_rtos.Mpsc.Refine.{diff_self, diff-gt, push-room, publish-Holds, push-full}
use co_rtos.Mpsc.Window.{Holds, Free, update_self}

-- The specification: a FIFO of at most `cap` items, oldest first.
module _ {T : Type 0} where
  unfoldable pub fifo_push : ℕ → List T → T → List T × Bool
  fifo_push cap xs x = if ltb (length xs) cap then (xs ++ x ∷ [], true) else (xs, false)

  unfoldable pub fifo_pop : List T → List T × Option T
  fifo_pop [] = ([], none)
  fifo_pop (x ∷ xs) = (xs, some x)

-- A client's calls, and what it sees of each.
pub data Call (T : Type 0) : Type 0 where
  put : T → Call T
  take : Call T

pub data Reply (T : Type 0) : Type 0 where
  accepted : Bool → Reply T
  taken : Option T → Reply T

module _ {T : Type 0} where
  unfoldable pub fifo_run : ℕ → List T → List (Call T) → List (Reply T)
  fifo_run cap xs [] = []
  fifo_run cap xs (put x ∷ calls) =
      let (ys, b) = fifo_push cap xs x in accepted b ∷ fifo_run cap ys calls
  fifo_run cap xs (take ∷ calls) = let (ys, o) = fifo_pop xs in taken o ∷ fifo_run cap ys calls

module _ (k : ℕ) {T : Type 0} where
  -- Each push of the run meets `n` failures of the weak compare-exchange before it succeeds.
  unfoldable pub ring_run : ℕ → Ring T → List (Call T) → Option (List (Reply T))
  ring_run n r [] = some []
  ring_run n r (put x ∷ calls) = do
    (r', b) ← push k (replicate n false ++ true ∷ []) r x
    replies ← ring_run n r' calls
    some (accepted b ∷ replies)
  ring_run n r (take ∷ calls) = do
    let (r', o) = pop k r
    replies ← ring_run n r' calls
    some (taken o ∷ replies)

  -- A push as the FIFO's: it returns, with the FIFO's answer, and leaves the FIFO's items.
  push_refines :
      {r : Ring T} (xs : List T) (x : T) (n : ℕ) (rest : List Bool)
      → 1 ≤ k
      → Holds k r xs
      → r.head + 2 ^ k < 2 ^ 63
      → (r' : Ring T) × (push k (replicate n false ++ true ∷ rest) r x
          ≡ some (r', (fifo_push (2 ^ k) xs x).1))
        × Holds k r' (fifo_push (2 ^ k) xs x).0
        × (r'.head ≤ suc r.head)
  unfolding fifo_push
  push_refines {r} xs x n rest one h young = elim (dec_lt (length xs) (2 ^ k)) [
    | yes lt ↦ rw (lt→ltb _ _ lt) (
      publish k r r.head x,
      push-room k xs h young x n rest lt,
      publish-Holds k xs h young x lt,
      omega arith,
    )
    | no ge ↦
        let full : length xs ≡ 2 ^ k = omega (arith, h.fits) in
        rw (full_test full) (r, refused n full, h, omega arith)
  ]
    where
      full_test : length xs ≡ 2 ^ k → ltb (length xs) (2 ^ k) ≡ false
      full_test e = ground arith

      refused :
          (i : ℕ)
          → length xs ≡ 2 ^ k
          → push k (replicate i false ++ true ∷ rest) r x ≡ some (r, false)
      refused zero e = push-full k xs h young x true rest one e
      refused (suc i) e = push-full k xs h young x false (replicate i false ++ true ∷ rest) one e

  -- A pop as the FIFO's.
  pop_refines :
      {r : Ring T} (xs : List T)
      → Holds k r xs
      → r.head + 2 ^ k < 2 ^ 63
      → (r' : Ring T) × (pop k r ≡ (r', (fifo_pop xs).1))
        × Holds k r' (fifo_pop xs).0
        × (r'.head ≡ r.head)
  unfolding fifo_pop
  pop_refines {r} [] h young = (r, pop-nil k young h, h, refl)
  pop_refines {r} (x ∷ xs) h young =
      (after_pop k young x xs h, pop-cons k young x xs h, after_pop-Holds k young x xs h, refl)

  -- Run by one thread at a time, a ring of two cells or more answers every sequence of pushes and
  -- pops as a FIFO bounded by its capacity does, whatever the number of failed compare-exchanges
  -- before each push, as long as the counters stay below the sign bit.
  pub ring_run-eq-fifo_run :
      (calls : List (Call T)) (n : ℕ) {r : Ring T} (xs : List T)
      → 1 ≤ k
      → Holds k r xs
      → r.head + length calls + 2 ^ k < 2 ^ 63
      → ring_run n r calls ≡ some (fifo_run (2 ^ k) xs calls)
  unfolding ring_run fifo_run
  ring_run-eq-fifo_run [] n xs one h young = refl
  ring_run-eq-fifo_run (put x ∷ calls) n {r} xs one h young =
      let (r', e, h', le) = push_refines xs x n [] one h (omega arith) in
      rw (e, ring_run-eq-fifo_run calls n {r = r'} (fifo_push (2 ^ k) xs x).0 one h' (omega arith))
  ring_run-eq-fifo_run (take ∷ calls) n {r} xs one h young =
      let (r', e, h', same) = pop_refines xs h (omega arith) in
      rw (e, ring_run-eq-fifo_run calls n {r = r'} (fifo_pop xs).0 one h' (omega (arith, same)))

  -- A fresh ring is empty.
  pub fresh-Holds : Holds k (fresh k {T = T}) []
  fresh-Holds = record {
    count = omega arith;
    fits = omega arith;
    filled = tt;
    free = waiting 0 (2 ^ k - 0) (omega arith);
  }
    where
      waiting : (p n : ℕ) → p + n ≤ 2 ^ k → Free k (fresh k {T = T}).cells p n
      waiting p zero le = tt
      waiting p (suc n) le =
          (bit_and_mask k p ∙ mod-eq_of_lt (omega arith), waiting (suc p) n (omega arith))

  -- On a ring that holds the items `xs`, `approx_size` is their number.
  approx_size-Holds : {r : Ring T} (xs : List T) → Holds k r xs → approx_size k r ≡ length xs
  unfolding approx_size
  approx_size-Holds xs h = ground (arith, h.count)

  discard_done : (fuel : ℕ) (r : Ring T) → pop k r ≡ (r, none) → discard k (suc fuel) r ≡ some r
  unfolding discard
  discard_done fuel r e = rw (e, discard) (ap (λ q. some q.0) e)

  discard_more :
      (fuel : ℕ) (r : Ring T) (x : T) (r' : Ring T)
      → pop k r ≡ (r', some x)
      → discard k (suc fuel) r ≡ discard k fuel r'
  unfolding discard
  discard_more fuel r x r' e = rw (e, discard) (rw (ap (λ q. q.0) e) refl)

  -- On a ring whose counters are below the sign bit, the destructor's loop ends with fuel for one
  -- round more than there are items, and leaves the ring empty.
  discard-Holds :
      (fuel : ℕ) {r : Ring T} (xs : List T)
      → Holds k r xs
      → r.head + 2 ^ k < 2 ^ 63
      → length xs < fuel
      → (r' : Ring T) × (discard k fuel r ≡ some r') × Holds k r' []
  unfolding discard
  discard-Holds zero xs h young lt = elim lt [ ]
  discard-Holds (suc fuel) {r} [] h young lt = (r, discard_done fuel r (pop-nil k young h), h)
  discard-Holds (suc fuel) {r} (x ∷ xs) h young lt =
      let (r', e, h') =
        discard-Holds fuel {r = after_pop k young x xs h} xs (after_pop-Holds k young x xs h) young
          (omega arith) in
      (r', discard_more fuel r x (after_pop k young x xs h) (pop-cons k young x xs h) ∙ e, h')

-- On a ring of one cell that holds an item, with counters below the sign bit, a push succeeds
-- where the ring is full, and the next pop finds no item.
pub capacity_one_loses :
    {T : Type 0} {r : Ring T} (x y : T) (rest : List Bool)
    → Holds 0 r (x ∷ [])
    → r.head + 1 < 2 ^ 63
    → (r' : Ring T) × (push 0 (true ∷ rest) r y ≡ some (r', true)) × (pop 0 r' ≡ (r', none))
unfolding push push_from pop
capacity_one_loses {T} {r} x y rest h young =
    (publish 0 r r.head y, ground (arith, claims), ground (arith, skips))
  where
    one_slot : (p q : ℕ) → slot 0 p ≡ slot 0 q
    one_slot p q = bit_and_mask 0 p ∙ omega arith ∙ sym (bit_and_mask 0 q)

    claims : diff (r.cells (slot 0 r.head)).sequence r.head ≡ zero_diff
    claims =
        ap (λ j. diff (r.cells j).sequence r.head) (one_slot r.head r.tail)
        ∙ ap (λ (c : Cell T). diff c.sequence r.head) h.filled.0
        ∙ ap (λ s. diff s r.head) (omega (arith, h.count))
        ∙ diff_self r.head

    skips :
        diff ((publish 0 r r.head y).cells (slot 0 r.tail)).sequence (add_size r.tail 1) ≡ positive
    skips =
        ap (λ j. diff ((publish 0 r r.head y).cells j).sequence (add_size r.tail 1))
          (one_slot r.tail r.head)
        ∙ ap (λ (c : Cell T). diff c.sequence (add_size r.tail 1))
            (update_self r.cells (slot 0 r.head)
              (record { sequence = add_size r.head 1; item = some y }))
        ∙ diff-gt (add_size r.head 1) (add_size r.tail 1) (omega (arith, h.count))
            (omega (arith, h.count))
