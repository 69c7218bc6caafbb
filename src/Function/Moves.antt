-- ===== src/Function/Moves.antt =====
-- A move passes on what the source holds.
use co_rtos.Base.{
  ℕ, ◌==◌, Option, none, some, true, false, ◌≡◌, ◌≢◌, refl, subst, sym, ap, ◌∙◌, inl, inr,
  Bool-cases, arith,
}
use co_rtos.Function.{
  Callable, VTable, inline_table, heap_table, Storage, raw, object, heap_ptr, Memory, is_clear, put,
  clear_vtable, move_object, move_by, move_from, move_assign,
}
use co_rtos.Function.Invariant.{contents, Agrees, IsValid}
use co_rtos.Function.Reset.{reset_lem, clear_of_empty}

-- The function at `a` holds what that at `b` held, which is empty, and all else is as before.
pub record Moved (m m' : Memory) (a b : ℕ) : Type 0 where
  pub valid : IsValid m'
  pub passed : contents m' a ≡ contents m b
  pub source : (m'.functions b).vtable ≡ none
  pub others : (d : ℕ) → d ≢ a → d ≢ b → contents m' d ≡ contents m d

-- The memory once the function at `b` has given its table and storage to that at `a`.
abbrev given : Memory → ℕ → ℕ → VTable → Storage → Storage → Memory
given m a b v s rest =
    put (put m a (record { vtable = some v; storage = s })) b
      (record { vtable = none; storage = rest })

module _ {m : Memory} (valid : IsValid m) (a b : ℕ) (apart : a ≢ b)
    (no_table : (m.functions a).vtable ≡ none) where
  open valid use {agrees, unshared, owned, fresh}

  clear : is_clear (m.functions a).storage ≡ true
  clear = clear_of_empty a valid no_table

  nothing-Moved : (m.functions b).vtable ≡ none → Moved m (clear_vtable m a) a b
  nothing-Moved eb = record {
    valid = record {
      agrees = λ d. ground (arith, agrees d, clear);
      unshared = λ d e p hd he. ground (arith, unshared d e p);
      owned = λ p e live. let (d, at) = owned p e live in (d, ground arith);
      fresh = fresh;
    };
    passed = ground arith;
    source = ground arith;
    others = λ d na nb. ground arith;
  }

  inline-Moved :
      (t : ℕ) (c : Callable)
      → (m.functions b).vtable ≡ some (inline_table t)
      → (m.functions b).storage ≡ object c
      → c.type ≡ t
      → Moved m (given m a b (inline_table t) (object c) raw) a b
  inline-Moved t c ev es same = record {
    valid = record {
      agrees = λ d. ground (arith, agrees d);
      unshared = λ d e p hd he. ground (arith, unshared d e p);
      owned = λ p e live. let (d, at) = owned p e live in (d, ground (arith, clear));
      fresh = fresh;
    };
    passed = ground arith;
    source = ground arith;
    others = λ d na nb. ground arith;
  }

  heap-Moved :
      (t p : ℕ) (c : Callable)
      → (m.functions b).vtable ≡ some (heap_table t)
      → (m.functions b).storage ≡ heap_ptr (some p)
      → m.cells p ≡ some c
      → c.type ≡ t
      → Moved m (given m a b (heap_table t) (heap_ptr (some p)) (heap_ptr none)) a b
  heap-Moved t p c ev es live same = record {
    valid = record {
      agrees = λ d. elim (Bool-cases (d == a)) [
        | inl at ↦
            let e : (given m a b (heap_table t) (heap_ptr (some p)) (heap_ptr none)).functions d
                ≡ record { vtable = some (heap_table t); storage = heap_ptr (some p) } =
              ground arith in
            subst (λ f. Agrees m.cells f.vtable f.storage) (sym e) (c, live, same)
        | inr off ↦ ground (arith, agrees d)
      ];
      unshared = λ d e q hd he. ground (arith, unshared d e q, unshared b d q, unshared b e q);
      owned = λ q e on.
          let (d, at) = owned q e on in
          elim (Bool-cases (d == b)) [
            | inl source ↦ (a, ground arith)
            | inr other ↦ (d, ground (arith, clear))
          ];
      fresh = fresh;
    };
    passed = ground arith;
    source = ground arith;
    others = λ d na nb. ground arith;
  }

move_step :
    (m m' : Memory) (a b : ℕ) (v : VTable) (s : Storage)
    → is_clear (m.functions a).storage ≡ true
    → (m.functions b).storage ≡ s
    → move_object m a b v s ≡ some m'
    → move_by m a b (some v) ≡ some m'
unfolding move_by
move_step m m' a b v s room es e = rw room (ap (λ x. move_object m a b v x) es ∙ e)

move_cases :
    {m : Memory} (a b : ℕ)
    → IsValid m
    → a ≢ b
    → (m.functions a).vtable ≡ none
    → (v : Option VTable) (s : Storage) → (m.functions b).vtable ≡ v
    → (m.functions b).storage ≡ s
    → Agrees m.cells v s
    → (m' : Memory) × (move_by m a b v ≡ some m') × Moved m m' a b
unfolding move_by move_object
move_cases {m} a b valid apart bare none s ev es agree =
    (clear_vtable m a, refl, nothing-Moved valid a b apart bare ev)
move_cases {m} a b valid apart bare (some (inline_table t)) (object c) ev es same = (
  given m a b (inline_table t) (object c) raw,
  move_step m (given m a b (inline_table t) (object c) raw) a b (inline_table t) (object c)
      (clear valid a b apart bare) es refl,
  inline-Moved valid a b apart bare t c ev es same,
)
move_cases {m} a b valid apart bare (some (heap_table t)) (heap_ptr (some p)) ev es
      (c, live, same) =
    (
      given m a b (heap_table t) (heap_ptr (some p)) (heap_ptr none),
      move_step m (given m a b (heap_table t) (heap_ptr (some p)) (heap_ptr none)) a b
          (heap_table t) (heap_ptr (some p)) (clear valid a b apart bare) es refl,
      heap-Moved valid a b apart bare t p c ev es live same,
    )
move_cases a b valid apart bare (some (inline_table t)) raw ev es agree = absurd agree
move_cases a b valid apart bare (some (inline_table t)) (heap_ptr p) ev es agree = absurd agree
move_cases a b valid apart bare (some (heap_table t)) raw ev es agree = absurd agree
move_cases a b valid apart bare (some (heap_table t)) (object c) ev es agree = absurd agree
move_cases a b valid apart bare (some (heap_table t)) (heap_ptr none) ev es agree = absurd agree

move_from_lem :
    {m : Memory} (a b : ℕ)
    → IsValid m
    → a ≢ b
    → (m.functions a).vtable ≡ none
    → (m' : Memory) × (move_from m a b ≡ some m') × Moved m m' a b
unfolding move_from
move_from_lem {m} a b valid apart bare =
    move_cases a b valid apart bare (m.functions b).vtable (m.functions b).storage refl refl
      (valid.agrees b)

-- The move assignment of one function to another faults nowhere. It destroys what the target
-- held, the target then holds what the source held and the source is empty, the other functions
-- hold what they held, and the memory stays valid, so that nothing is left on the heap unowned.
pub move_assign_lem :
    {m : Memory} (a b : ℕ)
    → IsValid m
    → a ≢ b
    → (m' : Memory) × (move_assign m a b ≡ some m') × Moved m m' a b
unfolding move_assign
move_assign_lem {m} a b valid apart =
    let (n, reset_a, emptied) = reset_lem a valid in
    let apart' : (b ≢ a) = λ e. apart (sym e) in
    let (m', moved_b, moved) = move_from_lem a b emptied.valid apart emptied.no_table in
    let differ : (a == b) ≡ false = ground arith in
    (
      m',
      rw (differ, reset_a) moved_b,
      record {
        valid = moved.valid;
        passed = moved.passed ∙ emptied.others b apart';
        source = moved.source;
        others = λ d na nb. moved.others d na nb ∙ emptied.others d na;
      },
    )
