-- ===== src/Layout/Laws.antt =====
-- What aligning and carving promise.
use native.Mathlib.Nat.{
  div-add-mod, mod-lt, mod-eq_of_lt, mul-add-mod_self_right, mul_comm, one-le-pow,
}
use co_rtos.Base.Bits.{bit_not, bit_and_not_mask}
use co_rtos.Base.{
  ℕ, ◌+◌, ◌-◌, ◌*◌, ◌/◌, ◌%◌, ◌^◌, ◌≤◌, ◌<◌, some, true, leb, ltb, ◌≡◌, refl, sym, ap, ◌∙◌, arith,
  bit_and,
}
use co_rtos.Layout.{add64, sub64, align_down, align_up, Target, StackLayout, carve}

-- `r` is the largest multiple of `a` that is not above `v`.
pub record RoundedDown (v a r : ℕ) : Type 0 where
  pub below : r ≤ v
  pub close : v < r + a
  pub multiple : r % a ≡ 0

align_down-RoundedDown :
    (v k : ℕ) → k ≤ 64 → v < 2 ^ 64 → RoundedDown v (2 ^ k) (align_down v (2 ^ k))
unfolding align_down
align_down-RoundedDown v k le fits =
    let e = bit_and_not_mask k 64 v le fits in
    let m = mod-lt v (one-le-pow k 2 (omega arith)) in
    let d = div-add-mod v (2 ^ k) in
    let q : v - v % 2 ^ k ≡ v / 2 ^ k * 2 ^ k + 0 =
      omega (arith, d, mul_comm (2 ^ k) (v / 2 ^ k)) in
    record {
      below = omega (arith, e);
      close = omega (arith, e, m);
      multiple =
          ap (λ (x : ℕ). x % 2 ^ k) (e ∙ q)
          ∙ mul-add-mod_self_right (v / 2 ^ k) (2 ^ k) 0
          ∙ mod-eq_of_lt (one-le-pow k 2 (omega arith));
    }

-- `r` is the least multiple of `a` that is not below `v`.
pub record RoundedUp (v a r : ℕ) : Type 0 where
  pub above : v ≤ r
  pub close : r < v + a
  pub multiple : r % a ≡ 0

align_up-RoundedUp :
    (v k : ℕ) → k ≤ 64 → v + 2 ^ k ≤ 2 ^ 64 → RoundedUp v (2 ^ k) (align_up v (2 ^ k))
unfolding align_up align_down
align_up-RoundedUp v k le fits =
    let pos = one-le-pow k 2 (omega arith) in
    let small : v + (2 ^ k - 1) < 2 ^ 64 = omega (arith, pos) in
    let same : add64 v (2 ^ k - 1) ≡ v + (2 ^ k - 1) = mod-eq_of_lt small in
    let d = align_down-RoundedDown (v + (2 ^ k - 1)) k le small in
    let e : align_down (v + (2 ^ k - 1)) (2 ^ k) ≡ align_up v (2 ^ k) =
      ap (λ (x : ℕ). bit_and x (bit_not 64 (2 ^ k - 1))) (sym same) in
    record {
      above = omega (arith, d.close, e, pos);
      close = omega (arith, d.below, e, pos);
      multiple = ap (λ (x : ℕ). x % 2 ^ k) (sym e) ∙ d.multiple;
    }

sub64-eq : (a b : ℕ) → b ≤ a → a < 2 ^ 64 → sub64 a b ≡ a - b
sub64-eq a b le lt = omega arith

-- The parts of the buffer: the control block is aligned and ends in the buffer, the thread-local
-- storage ends at the control block, and the stack fills the rest from the base on.
pub record Carved (g : Target) (base size tls_bytes : ℕ) (r : StackLayout) : Type 0 where
  pub tcb_inside : r.tcb + g.tcb_size ≤ base + size
  pub tcb_aligned : r.tcb % g.tcb_align ≡ 0
  pub tls_below_tcb : base + r.tls_region.offset + r.tls_region.bytes ≡ r.tcb
  pub tls_room : tls_bytes ≤ r.tls_region.bytes
  pub stack_at_base : r.user_stack.offset ≡ 0
  pub stack_below_tls : r.user_stack.bytes ≡ r.tls_region.offset
  pub stack_room : 64 < r.user_stack.bytes

-- For alignments that are powers of two up to 2 ^ 64, and a buffer that does not reach the end of
-- memory and has room for the control block, the thread-local storage, 64 bytes and the padding,
-- the carving passes its assertions. The control block is aligned and ends in the buffer, the
-- thread-local storage is as large as asked and ends at the control block, and the stack is all
-- the rest, more than 64 bytes.
pub carve-Carved :
    (tcb_size i j base size tls_bytes : ℕ)
    → i ≤ 64
    → j ≤ 64
    → base + size < 2 ^ 64
    → 64 + tcb_size + 2 ^ i + tls_bytes + 2 ^ j + 2 ^ j ≤ size
    → let g : Target = record { tcb_size = tcb_size; tcb_align = 2 ^ i; max_align = 2 ^ j } in
      (r : StackLayout) × (carve g base size tls_bytes ≡ some r) × Carved g base size tls_bytes r
unfolding carve
carve-Carved tcb_size i j base size tls_bytes il jl fits room =
    let end : add64 base size ≡ base + size = omega arith in
    let e₁ = sub64-eq (base + size) tcb_size (omega (arith, room)) fits in
    let tcb = align_down (base + size - tcb_size) (2 ^ i) in
    let d₁ = align_down-RoundedDown (base + size - tcb_size) i il (omega arith) in
    let tls = align_up tls_bytes (2 ^ j) in
    let u = align_up-RoundedUp tls_bytes j jl (omega (arith, room)) in
    let enough : base + 64 + 2 ^ j + tls < tcb = omega (arith, room, d₁.close, u.close) in
    let e₂ = sub64-eq tcb tls (omega (arith, enough)) (omega (arith, d₁.below, fits)) in
    let at = align_down (tcb - tls) (2 ^ j) in
    let d₂ = align_down-RoundedDown (tcb - tls) j jl (omega (arith, d₁.below, fits)) in
    let low : base + 64 < at = omega (arith, enough, d₂.close) in
    let e₃ = sub64-eq at base (omega (arith, low)) (omega (arith, d₁.below, d₂.below, fits)) in
    let e₄ = sub64-eq tcb at (omega (arith, d₂.below)) (omega (arith, d₁.below, fits)) in
    let ok : leb base at ≡ true = ground (arith, low) in
    let more : ltb 64 (at - base) ≡ true = ground (arith, low) in
    (
      record {
        tcb = tcb;
        tls_region = record { offset = at - base; bytes = tcb - at };
        user_stack = record { offset = 0; bytes = at - base };
      },
      rw (end, e₁, e₂, ok, e₃, e₄, more) refl,
      record {
        tcb_inside = omega (arith, d₁.below, room);
        tcb_aligned = d₁.multiple;
        tls_below_tcb = omega (arith, low, d₂.below);
        tls_room = omega (arith, u.above, d₂.below, enough);
        stack_at_base = refl;
        stack_below_tls = refl;
        stack_room = omega (arith, low);
      },
    )
