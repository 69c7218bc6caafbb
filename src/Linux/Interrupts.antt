-- ===== src/Linux/Interrupts.antt =====
-- The critical sections of src/port/linux_boost/port_linux_boost.cpp: a core's count of the
-- sections it is in, a `uint32_t`.
use co_rtos.Base.{
  ℕ, suc, ◌+◌, ◌-◌, ◌<◌, ◌%◌, ◌^◌, max, Bool, false, ltb, ◌==◌, if◌then◌else◌, List, [], ◌∷◌, ◌++◌,
  All, All-append, ◌≡◌, refl, arith,
}

disable_interrupts : ℕ → ℕ
disable_interrupts depth = (depth + 1) % 2 ^ 32

enable_interrupts : ℕ → ℕ
enable_interrupts depth = if ltb 0 depth then depth - 1 else depth

interrupts_enabled : ℕ → Bool
interrupts_enabled depth = depth == 0

-- The depth and the saved state.
irq_save : ℕ → ℕ × ℕ
irq_save depth = ((depth + 1) % 2 ^ 32, if depth == 0 then 1 else 0)

-- The saved state is not used.
irq_restore : ℕ → ℕ → ℕ
irq_restore state depth = if ltb 0 depth then depth - 1 else depth

-- Code with properly nested critical sections. `guarded` is a section by `irq_save` and
-- `irq_restore` and what follows it, `masked` one by disabling and enabling.
pub data Code : Type 0 where
  done : Code
  guarded masked : Code → Code → Code

-- What is seen of one section: whether interrupts are enabled before it, on entry, on exit, and
-- right after it.
pub record Seen : Type 0 where
  pub before : Bool
  pub entry : Bool
  pub exit : Bool
  pub after : Bool

-- The code run from a depth: the depth at the end, and what is seen of each section. The saved state
-- of a section by `irq_save` tells whether interrupts were enabled before it.
unfoldable pub run : Code → ℕ → ℕ × List Seen
unfolding disable_interrupts enable_interrupts interrupts_enabled irq_save irq_restore
run done depth = (depth, [])
run (guarded inner rest) depth =
    let (entered, saved) = irq_save depth in
    let (left, seen) = run inner entered in
    let depth' = irq_restore saved left in
    let (end, later) = run rest depth' in
    let this : Seen = record {
      before = saved == 1;
      entry = interrupts_enabled entered;
      exit = interrupts_enabled left;
      after = interrupts_enabled depth';
    } in
    (end, this ∷ seen ++ later)
run (masked inner rest) depth =
    let entered = disable_interrupts depth in
    let (left, seen) = run inner entered in
    let depth' = enable_interrupts left in
    let (end, later) = run rest depth' in
    let this : Seen = record {
      before = interrupts_enabled depth;
      entry = interrupts_enabled entered;
      exit = interrupts_enabled left;
      after = interrupts_enabled depth';
    } in
    (end, this ∷ seen ++ later)

-- How deep the sections nest.
unfoldable pub height : Code → ℕ
height done = 0
height (guarded inner rest) = max (suc (height inner)) (height rest)
height (masked inner rest) = max (suc (height inner)) (height rest)

-- Interrupts are disabled on entry and on exit, and enabled after the section as before it.
pub record IsMasked (s : Seen) : Type 0 where
  pub entered : s.entry ≡ false
  pub left : s.exit ≡ false
  pub restored : s.after ≡ s.before

enter : (depth : ℕ) → depth + 1 < 2 ^ 32 → (depth + 1) % 2 ^ 32 ≡ depth + 1
enter depth h = omega arith

leave : (depth : ℕ) → (if ltb 0 (depth + 1) then depth + 1 - 1 else depth + 1) ≡ depth
leave depth = ground arith

-- Properly nested critical sections that do not overflow the count leave it as it was. In each of
-- them interrupts are disabled, on entry and when it is about to be left; right after it they are
-- enabled exactly if they were before it, which is also what `irq_save` returned.
pub run-IsMasked :
    (c : Code) (depth : ℕ)
    → depth + height c < 2 ^ 32
    → ((run c depth).0 ≡ depth) × All IsMasked (run c depth).1
unfolding run height irq_save irq_restore disable_interrupts enable_interrupts interrupts_enabled
run-IsMasked done depth h = (refl, tt)
run-IsMasked (guarded inner rest) depth h =
    let (same, seen) = run-IsMasked inner (depth + 1) (omega arith) in
    let (end, later) = run-IsMasked rest depth (omega arith) in
    rw (enter depth (omega arith), same, leave depth)
      (end, (ground arith, All-append IsMasked _ _ seen later))
run-IsMasked (masked inner rest) depth h =
    let (same, seen) = run-IsMasked inner (depth + 1) (omega arith) in
    let (end, later) = run-IsMasked rest depth (omega arith) in
    rw (enter depth (omega arith), same, leave depth)
      (end, (ground arith, All-append IsMasked _ _ seen later))
