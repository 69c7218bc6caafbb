-- ===== src/Function/Invoke.antt =====
-- A call reaches the callable that the function holds.
use co_rtos.Base.{
  ℕ, ◌==◌, Option, none, some, false, update, ◌≡◌, ◌≢◌, refl, subst, sym, ap, ◌∙◌, inl, inr,
  Bool-cases, arith, ◌>>=◌,
}
use co_rtos.Function.{
  Callable, VTable, inline_table, heap_table, Storage, raw, object, heap_ptr, Memory, put,
  invoke_by, invoke,
}
use co_rtos.Function.Invariant.{held, contents, points_to, Agrees, IsValid}
use co_rtos.Function.Emplace.{Holding, Agrees-elsewhere, held-elsewhere}

module _ (call : Callable → ℕ → ℕ × ℕ) where
  -- The callable after a call.
  abbrev pub called : Callable → ℕ → Callable
  called c arg = record c { value = (call c arg).0 }

  -- The memory after a call of an object in the buffer of `a`, and of one in a cell.
  abbrev called_inline : Memory → ℕ → ℕ → Callable → ℕ → Memory
  called_inline m a t c arg =
      put m a (record { vtable = some (inline_table t); storage = object (called c arg) })

  abbrev called_cell : Memory → ℕ → Callable → ℕ → Memory
  called_cell m p c arg = record m { cells = update m.cells p (some (called c arg)) }

  module _ {m : Memory} (valid : IsValid m) (a arg : ℕ) (c : Callable) where
    open valid use {agrees, unshared, owned, fresh}

    inline-Holding :
        (t : ℕ)
        → (m.functions a).storage ≡ object c
        → c.type ≡ t
        → Holding m (called_inline m a t c arg) a (called c arg)
    inline-Holding t es same = record {
      valid = record {
        agrees = λ b. ground (arith, agrees b);
        unshared = λ b d p hb hd. ground (arith, unshared b d p);
        owned = λ p e live. let (b, at) = owned p e live in (b, ground arith);
        fresh = fresh;
      };
      stored = ground arith;
      others = λ b ne. ground arith;
    }

    cell-Holding :
        (t p : ℕ)
        → (m.functions a).vtable ≡ some (heap_table t)
        → (m.functions a).storage ≡ heap_ptr (some p)
        → m.cells p ≡ some c
        → c.type ≡ t
        → Holding m (called_cell m p c arg) a (called c arg)
    cell-Holding t p ev es live same = record {
      valid = record {
        agrees = λ b. elim (Bool-cases (b == a)) [
          | inl this ↦
              let e : m.functions b
                  ≡ record { vtable = some (heap_table t); storage = heap_ptr (some p) } =
                ground arith in
              subst (λ f. Agrees (called_cell m p c arg).cells f.vtable f.storage) (sym e)
                (called c arg, ground arith, same)
          | inr other ↦
              Agrees-elsewhere m.cells p (some (called c arg)) _ _ (elsewhere b other) (agrees b)
        ];
        unshared = unshared;
        owned = λ q e on. elim (Bool-cases (q == p)) [
          | inl this ↦ (a, ground arith)
          | inr other ↦ owned q e (ground arith)
        ];
        fresh = λ q le. ground (arith, fresh q, fresh p);
      };
      stored = ground arith;
      others =
          λ b ne. held-elsewhere m.cells p (some (called c arg)) _ _ (elsewhere b (ground arith));
    }
      where
        elsewhere : (b : ℕ) → (b == a) ≡ false → points_to (m.functions b).storage ≢ some p
        elsewhere b other at = absurd (ground (arith, unshared b a p))

    invoke_inline :
        (t : ℕ)
        → (m.functions a).vtable ≡ some (inline_table t)
        → (m.functions a).storage ≡ object c
        → invoke call m a arg ≡ some (called_inline m a t c arg, (call c arg).1)
    unfolding invoke invoke_by
    invoke_inline t ev es =
        ap (λ v. invoke_by call m a arg v (m.functions a).storage) ev
        ∙ ap (λ s. invoke_by call m a arg (some (inline_table t)) s) es

    invoke_cell :
        (t p : ℕ)
        → (m.functions a).vtable ≡ some (heap_table t)
        → (m.functions a).storage ≡ heap_ptr (some p)
        → m.cells p ≡ some c
        → invoke call m a arg ≡ some (called_cell m p c arg, (call c arg).1)
    unfolding invoke invoke_by
    invoke_cell t p ev es live =
        ap (λ v. invoke_by call m a arg v (m.functions a).storage) ev
        ∙ ap (λ s. invoke_by call m a arg (some (heap_table t)) s) es
        ∙ ap (λ o. o >>= λ d. some (called_cell m p d arg, (call d arg).1)) live

    Called : Type 0
    Called =
        (m' : Memory) × (invoke call m a arg ≡ some (m', (call c arg).1))
        × Holding m m' a (called c arg)

    invoke_cases :
        (v : Option VTable) (s : Storage)
        → (m.functions a).vtable ≡ v
        → (m.functions a).storage ≡ s
        → Agrees m.cells v s
        → held m.cells v s ≡ some c
        → Called
    unfolding Called
    invoke_cases (some (inline_table t)) (object d) ev es same e =
        let same_d : d ≡ c = ground arith in
        (
          called_inline m a t c arg,
          invoke_inline t ev (es ∙ ap object same_d),
          inline-Holding t (es ∙ ap object same_d) (ground arith),
        )
    invoke_cases (some (heap_table t)) (heap_ptr (some p)) ev es (d, live, same) e =
        (called_cell m p c arg, invoke_cell t p ev es e, cell-Holding t p ev es e (ground arith))
    invoke_cases none s ev es agree e = ground arith
    invoke_cases (some (inline_table t)) raw ev es agree e = absurd agree
    invoke_cases (some (inline_table t)) (heap_ptr q) ev es agree e = absurd agree
    invoke_cases (some (heap_table t)) raw ev es agree e = absurd agree
    invoke_cases (some (heap_table t)) (object d) ev es agree e = absurd agree
    invoke_cases (some (heap_table t)) (heap_ptr none) ev es agree e = absurd agree

-- A call of a function that holds a callable reaches it: it gives the callable's own result, the
-- function then holds the callable with what the call made of its captured state, the other
-- functions hold what they held, and the memory stays valid.
pub invoke_lem :
    (call : Callable → ℕ → ℕ × ℕ) {m : Memory} (a arg : ℕ) (c : Callable)
    → IsValid m
    → contents m a ≡ some c
    → (m' : Memory) × (invoke call m a arg ≡ some (m', (call c arg).1))
      × Holding m m' a (called call c arg)
unfolding Called
invoke_lem call {m} a arg c valid e =
    invoke_cases call valid a arg c (m.functions a).vtable (m.functions a).storage refl refl
      (valid.agrees a) e
