-- ===== src/Function/Reset.antt =====
-- A reset destroys what the function holds, and nothing else.
use co_rtos.Base.{ℕ, Option, none, some, true, update, ◌≡◌, refl, subst, ap, ◌∙◌, arith, ◌>>=◌}
use co_rtos.Function.{
  Callable, VTable, inline_table, heap_table, Storage, raw, object, heap_ptr, Memory, is_clear, put,
  delete, destroy, clear_vtable, reset_by, reset,
}
use co_rtos.Function.Invariant.{Agrees, IsValid, Keeps}

-- The function at `a` is empty after the operation, and all else is as before.
pub record Emptied (m m' : Memory) (a : ℕ) : Type 0 where
  pub valid : IsValid m'
  pub no_table : (m'.functions a).vtable ≡ none
  pub others : Keeps a m m'
  pub same_next : m'.next ≡ m.next

-- The memory once the function at `a` has destroyed the object in its buffer.
abbrev destroyed : Memory → ℕ → ℕ → Memory
destroyed m a t = put m a (record { vtable = some (inline_table t); storage = raw })

-- The memory once the function at `a` has deleted its object.
abbrev deleted : Memory → ℕ → ℕ → ℕ → Memory
deleted m a t p =
    put (record m { cells = update m.cells p none }) a
      (record { vtable = some (heap_table t); storage = heap_ptr none })

reset_step :
    (m m' : Memory) (a : ℕ) (v : VTable) (s : Storage)
    → (m.functions a).storage ≡ s
    → destroy m a v s ≡ some m'
    → reset_by m a (some v) ≡ some (clear_vtable m' a)
unfolding reset_by
reset_step m m' a v s es e =
    ap (λ x. destroy m a v x >>= λ n. some (clear_vtable n a)) es
    ∙ ap (λ r. r >>= λ n. some (clear_vtable n a)) e

module _ {m : Memory} (valid : IsValid m) (a : ℕ) where
  open valid use {agrees, unshared, owned, fresh}

  inline_emptied :
      (t : ℕ) (c : Callable)
      → (m.functions a).vtable ≡ some (inline_table t)
      → (m.functions a).storage ≡ object c
      → Emptied m (clear_vtable (destroyed m a t) a) a
  inline_emptied t c ev es = record {
    valid = record {
      agrees = λ b. ground (arith, agrees b);
      unshared = λ b d p hb hd. ground (arith, unshared b d p);
      owned = λ p e live. let (b, at) = owned p e live in (b, ground arith);
      fresh = fresh;
    };
    no_table = ground arith;
    others = λ b ne. ground arith;
    same_next = refl;
  }

  heap_emptied :
      (t p : ℕ) (c : Callable)
      → (m.functions a).vtable ≡ some (heap_table t)
      → (m.functions a).storage ≡ heap_ptr (some p)
      → Emptied m (clear_vtable (deleted m a t p) a) a
  heap_emptied t p c ev es = record {
    valid = record {
      agrees = λ b. ground (arith, agrees b, unshared a b p);
      unshared = λ b d q hb hd. ground (arith, unshared b d q);
      owned = λ q e live. let (b, at) = owned q e (ground arith) in (b, ground arith);
      fresh = λ q le. ground (arith, fresh q);
    };
    no_table = ground arith;
    others = λ b ne. ground (arith, agrees b, unshared a b p);
    same_next = refl;
  }

  reset_from :
      (v : Option VTable) (s : Storage)
      → (m.functions a).vtable ≡ v
      → (m.functions a).storage ≡ s
      → Agrees m.cells v s
      → (m' : Memory) × (reset_by m a v ≡ some m') × Emptied m m' a
  unfolding reset_by destroy delete
  reset_from none s ev es agree =
      (m, refl, record { valid = valid; no_table = ev; others = λ b ne. refl; same_next = refl })
  reset_from (some (inline_table t)) (object c) ev es agree = (
    _,
    reset_step m (destroyed m a t) a (inline_table t) (object c) es refl,
    inline_emptied t c ev es,
  )
  reset_from (some (heap_table t)) (heap_ptr (some p)) ev es (c, live, same) = (
    _,
    reset_step m (deleted m a t p) a (heap_table t) (heap_ptr (some p)) es (rw live refl),
    heap_emptied t p c ev es,
  )
  reset_from (some (inline_table t)) raw ev es agree = absurd agree
  reset_from (some (inline_table t)) (heap_ptr p) ev es agree = absurd agree
  reset_from (some (heap_table t)) raw ev es agree = absurd agree
  reset_from (some (heap_table t)) (object c) ev es agree = absurd agree
  reset_from (some (heap_table t)) (heap_ptr none) ev es agree = absurd agree

-- A reset faults nowhere: it ends the lifetime of what the function holds exactly once, leaves the
-- function empty and the memory valid, so that nothing stays on the heap unowned, and the other functions
-- hold what they held.
pub reset_lem :
    {m : Memory} (a : ℕ) → IsValid m → (m' : Memory) × (reset m a ≡ some m') × Emptied m m' a
unfolding reset
reset_lem {m} a valid =
    reset_from valid a (m.functions a).vtable (m.functions a).storage refl refl (valid.agrees a)

-- An empty function's storage holds no object.
pub clear_of_empty :
    {m : Memory} (a : ℕ)
    → IsValid m
    → (m.functions a).vtable ≡ none
    → is_clear (m.functions a).storage ≡ true
clear_of_empty {m} a valid e =
    subst (λ v. Agrees m.cells v (m.functions a).storage) e (valid.agrees a)
