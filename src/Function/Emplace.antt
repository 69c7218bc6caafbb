-- ===== src/Function/Emplace.antt =====
-- Storing a callable, and calling it.
use co_rtos.Base.{
  ℕ, ◌<◌, ◌≤◌, ◌⊎◌, false, leb, ◌==◌, Option, none, some, true, update, ◌≡◌, ◌≢◌, refl, subst, sym,
  ap, ◌∙◌, inl, inr, Bool-cases, arith,
}
use co_rtos.Function.{
  Callable, VTable, inline_table, heap_table, Storage, raw, object, heap_ptr, Function, Memory,
  is_clear, put, HeapPolicy, no_heap, can_use_heap, must_use_heap, construct, accepts, uses_heap,
  allocate, emplace,
}
use co_rtos.Function.Invariant.{held, contents, points_to, Agrees, IsValid, Keeps}
use co_rtos.Function.Reset.{reset_lem, clear_of_empty}

-- The function at `a` holds `c`, and all else is as before.
pub record Holding (m m' : Memory) (a : ℕ) (c : Callable) : Type 0 where
  pub valid : IsValid m'
  pub stored : contents m' a ≡ some c
  pub others : Keeps a m m'

-- The memory once the function at `a` has `c` in its buffer.
abbrev pub constructed : Memory → ℕ → Callable → Memory
constructed m a c = put m a (record { vtable = some (inline_table c.type); storage = object c })

-- A cell that is in use is not one that has yet to be given.
Agrees-live :
    (cells : ℕ → Option Callable) (v : Option VTable) (s : Storage) (p : ℕ)
    → Agrees cells v s
    → points_to s ≡ some p
    → (c : Callable) × (cells p ≡ some c)
Agrees-live cells none (heap_ptr (some q)) p agree at = cc
Agrees-live cells none (heap_ptr none) p agree at = cc
Agrees-live cells none raw p agree at = cc
Agrees-live cells none (object c) p agree at = cc
Agrees-live cells (some (inline_table t)) (object c) p agree at = cc
Agrees-live cells (some (inline_table t)) (heap_ptr q) p agree at = absurd agree
Agrees-live cells (some (inline_table t)) raw p agree at = absurd agree
Agrees-live cells (some (heap_table t)) (heap_ptr (some q)) p (c, live, same) at = (c, ground arith)
Agrees-live cells (some (heap_table t)) (heap_ptr none) p agree at = absurd agree
Agrees-live cells (some (heap_table t)) raw p agree at = absurd agree
Agrees-live cells (some (heap_table t)) (object c) p agree at = absurd agree

-- Writing a cell that a function does not use leaves it alone.
module _ (cells : ℕ → Option Callable) (at : ℕ) (o : Option Callable) where
  pub Agrees-elsewhere :
      (v : Option VTable) (s : Storage)
      → points_to s ≢ some at
      → Agrees cells v s
      → Agrees (update cells at o) v s
  Agrees-elsewhere none s off agree = agree
  Agrees-elsewhere (some (inline_table t)) (object c) off agree = agree
  Agrees-elsewhere (some (heap_table t)) (heap_ptr (some p)) off (c, live, same) =
      (c, ground (arith, λ (e : p ≡ at). off (ap some e)), same)
  Agrees-elsewhere (some (inline_table t)) raw off agree = absurd agree
  Agrees-elsewhere (some (inline_table t)) (heap_ptr q) off agree = absurd agree
  Agrees-elsewhere (some (heap_table t)) raw off agree = absurd agree
  Agrees-elsewhere (some (heap_table t)) (object c) off agree = absurd agree
  Agrees-elsewhere (some (heap_table t)) (heap_ptr none) off agree = absurd agree

  pub held-elsewhere :
      (v : Option VTable) (s : Storage)
      → points_to s ≢ some at
      → held (update cells at o) v s ≡ held cells v s
  held-elsewhere (some (heap_table t)) (heap_ptr (some p)) off =
      ground (arith, λ (e : p ≡ at). off (ap some e))
  held-elsewhere (some (heap_table t)) (heap_ptr none) off = refl
  held-elsewhere (some (heap_table t)) raw off = refl
  held-elsewhere (some (heap_table t)) (object c) off = refl
  held-elsewhere (some (inline_table t)) (object c) off = refl
  held-elsewhere (some (inline_table t)) raw off = refl
  held-elsewhere (some (inline_table t)) (heap_ptr p) off = refl
  held-elsewhere none s off = refl

module _ {m : Memory} (valid : IsValid m) (a : ℕ) (c : Callable)
    (room : is_clear (m.functions a).storage ≡ true) where
  open valid use {agrees, unshared, owned, fresh}

  constructed-Holding : Holding m (constructed m a c) a c
  constructed-Holding = record {
    valid = record {
      agrees = λ b. ground (arith, agrees b);
      unshared = λ b d p hb hd. ground (arith, unshared b d p);
      owned = λ p e live. let (b, at) = owned p e live in (b, ground (arith, room));
      fresh = fresh;
    };
    stored = ground arith;
    others = λ b ne. ground arith;
  }

  -- No function points to a cell that has not been given.
  points-lt : (b p : ℕ) → points_to (m.functions b).storage ≡ some p → p < m.next
  points-lt b p at =
      let (d, live) = Agrees-live m.cells _ (m.functions b).storage p (agrees b) at in
      ground (arith, fresh p)

  points-ne-next : (b : ℕ) → points_to (m.functions b).storage ≢ some m.next
  points-ne-next b at = absurd (omega (arith, points-lt b m.next at))

  allocated-Holding : Holding m (allocate m a c) a c
  allocated-Holding = record {
    valid = record {
      agrees = λ b. elim (Bool-cases (b == a)) [
        | inl this ↦
            let e : (allocate m a c).functions b
                ≡ record { vtable = some (heap_table c.type); storage = heap_ptr (some m.next) } =
              ground arith in
            subst (λ f. Agrees (allocate m a c).cells f.vtable f.storage) (sym e)
              (c, ground arith, refl)
        | inr other ↦
            let e : (allocate m a c).functions b ≡ m.functions b = ground arith in
            subst (λ f. Agrees (allocate m a c).cells f.vtable f.storage) (sym e)
              (Agrees-elsewhere m.cells m.next (some c) _ _ (points-ne-next b) (agrees b))
      ];
      unshared = λ b d p hb hd. ground (arith, unshared b d p, points-lt b p, points-lt d p);
      owned = λ p e live. elim (Bool-cases (p == m.next)) [
        | inl new ↦ (a, ground arith)
        | inr old ↦ let (b, at) = owned p e (ground arith) in (b, ground (arith, room))
      ];
      fresh = λ p le. ground (arith, fresh p);
    };
    stored = ground arith;
    others = λ b ne.
        let e : (allocate m a c).functions b ≡ m.functions b = ground arith in
        ap (λ (f : Function). held (allocate m a c).cells f.vtable f.storage) e
        ∙ held-elsewhere m.cells m.next (some c) _ _ (points-ne-next b);
  }

-- Where a stored callable goes: into the buffer if it fits and the policy does not ask for the heap,
-- and else into a new cell of the heap.
pub record Placed (policy : HeapPolicy) (inline_size : ℕ) (m m' : Memory) (a : ℕ) (c : Callable)
    : Type 0 where
  pub in_buffer :
      policy ≢ must_use_heap
      → c.size ≤ inline_size
      → (m'.functions a ≡ record { vtable = some (inline_table c.type); storage = object c })
        × (m'.next ≡ m.next)
  pub on_heap :
      (policy ≡ must_use_heap) ⊎ (inline_size < c.size)
      → (m'.functions a
          ≡ record { vtable = some (heap_table c.type); storage = heap_ptr (some m.next) })
        × (m'.cells m.next ≡ some c)

small_fits :
    (policy : HeapPolicy) (inline_size : ℕ) (c : Callable)
    → uses_heap policy inline_size c ≡ false
    → (policy ≢ must_use_heap) × (c.size ≤ inline_size)
unfolding uses_heap
small_fits no_heap inline_size c h = (λ e. cc, ground arith)
small_fits can_use_heap inline_size c h = (λ e. cc, ground arith)
small_fits must_use_heap inline_size c h = cc

big_reason :
    (policy : HeapPolicy) (inline_size : ℕ) (c : Callable)
    → uses_heap policy inline_size c ≡ true
    → policy ≢ must_use_heap
    → inline_size < c.size
unfolding uses_heap
big_reason no_heap inline_size c h ne = ground arith
big_reason can_use_heap inline_size c h ne = ground arith
big_reason must_use_heap inline_size c h ne = absurd (ne refl)

-- Storing a callable that the policy and the sizes admit faults nowhere. It destroys what the
-- function held, the function then holds the callable, the other functions hold what they held,
-- and the memory stays valid. The callable is in the buffer, and nothing is allocated, if it fits
-- there and the policy does not ask for the heap; else it is in a new cell of the heap.
pub emplace_lem :
    {m : Memory} (policy : HeapPolicy) (inline_size a : ℕ) (c : Callable)
    → IsValid m
    → accepts policy inline_size c ≡ true
    → (m' : Memory) × (emplace policy inline_size m a c ≡ some m')
      × Holding m m' a c
      × Placed policy inline_size m m' a c
unfolding emplace construct
emplace_lem {m} policy inline_size a c valid accepted =
    let (n, reset_a, emptied) = reset_lem a valid in
    let room = clear_of_empty a emptied.valid emptied.no_table in
    let with_others : (k : Memory) → Holding n k a c → Holding m k a c = λ k h. record {
      valid = h.valid;
      stored = h.stored;
      others = λ b ne. h.others b ne ∙ emptied.others b ne;
    } in
    elim (Bool-cases (uses_heap policy inline_size c)) [
      | inl big ↦ (
        allocate n a c,
        rw (accepted, reset_a, room, big) refl,
        with_others (allocate n a c) (allocated-Holding emptied.valid a c room),
        record {
          in_buffer = λ ne fits. absurd (omega (arith, big_reason policy inline_size c big ne));
          on_heap = λ why. ground (arith, emptied.same_next);
        },
      )
      | inr small ↦
          let (ne, fits) = small_fits policy inline_size c small in
          let fits' : leb c.size inline_size ≡ true = ground arith in
          (
            constructed n a c,
            rw (accepted, reset_a, room, small, fits') refl,
            with_others (constructed n a c) (constructed-Holding emptied.valid a c room),
            record {
              in_buffer = λ _ _. (ground arith, emptied.same_next);
              on_heap =
                  λ why. elim why [ inl e ↦ absurd (ne e) | inr lt ↦ absurd (omega (arith, fits)) ];
            },
          )
    ]
