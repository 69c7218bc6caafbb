-- ===== src/Layout.antt =====
-- src/kernel/align.hpp, and StackLayout of src/kernel/threading_subsystem.cpp: how a thread's buffer
-- is carved. Addresses are words of 64 bits; the size and the alignment of a thread control block
-- and the largest alignment are the compiler's, and arguments here.
pub mod Laws
use co_rtos.Base.Bits.{bit_not}
use co_rtos.Base.{ℕ, ◌+◌, ◌-◌, ◌%◌, ◌^◌, Option, some, bit_and, leb, ltb, assert, ◌>>=◌, ◌>>◌}

-- Addition and subtraction of words.
abbrev pub add64 : ℕ → ℕ → ℕ
add64 a b = (a + b) % 2 ^ 64

abbrev pub sub64 : ℕ → ℕ → ℕ
sub64 a b = (a + (2 ^ 64 - b)) % 2 ^ 64

unfoldable pub align_down : ℕ → ℕ → ℕ
align_down v a = bit_and v (bit_not 64 (a - 1))

unfoldable pub align_up : ℕ → ℕ → ℕ
align_up v a = bit_and (add64 v (a - 1)) (bit_not 64 (a - 1))

-- The compiler's numbers.
pub record Target : Type 0 where
  pub tcb_size : ℕ
  pub tcb_align : ℕ
  pub max_align : ℕ

-- A part of the buffer, from an offset on.
pub record Region : Type 0 where
  pub offset : ℕ
  pub bytes : ℕ

pub record StackLayout : Type 0 where
  pub tcb : ℕ
  pub tls_region : Region
  pub user_stack : Region

-- The constructor, on the buffer of `size` bytes at `base`.
unfoldable pub carve : Target → ℕ → ℕ → ℕ → Option StackLayout
carve g base size tls_bytes = do
  let end = add64 base size
  let tcb_start = align_down (sub64 end g.tcb_size) g.tcb_align
  let tls_size = align_up tls_bytes g.max_align
  let tls_base = align_down (sub64 tcb_start tls_size) g.max_align
  assert (leb base tls_base)
  let stack_len = sub64 tls_base base
  assert (ltb 64 stack_len)
  some (record {
    tcb = tcb_start;
    tls_region = record { offset = sub64 tls_base base; bytes = sub64 tcb_start tls_base };
    user_stack = record { offset = 0; bytes = stack_len };
  })
