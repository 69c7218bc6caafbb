-- ===== src/Wait/Pool/Reset.antt =====
-- `reset_all` of a pool.
use co_rtos.Base.Bits.{test_bit}
use co_rtos.Base.{
  ℕ, zero, suc, ◌+◌, ◌≤◌, ◌<◌, true, false, not, ◌==◌, ◌≡◌, refl, sym, ap, ◌∙◌, inl, inr,
  Bool-cases, arith,
}
use co_rtos.Config.{max_wait_nodes}
use co_rtos.Wait.Nodes.{WaitNodes, reset}
use co_rtos.Wait.Pool.{Pool, all_nodes_free, reset_from, reset_all}
use co_rtos.Wait.Pool.Laws.{IsValid}

reset_from-slot : (n a i : ℕ) (ns : WaitNodes) → (reset_from n a ns).slot i ≡ ns.slot i
unfolding reset_from reset
reset_from-slot zero a i ns = refl
reset_from-slot (suc n) a i ns = reset_from-slot n (a + 1) i (reset ns a)

reset_from-keeps :
    (n a i : ℕ) (ns : WaitNodes) → ns.active i ≡ false → (reset_from n a ns).active i ≡ false
unfolding reset_from reset
reset_from-keeps zero a i ns idle = idle
reset_from-keeps (suc n) a i ns idle = reset_from-keeps n (a + 1) i (reset ns a) (ground arith)

reset_from-active :
    (n a i : ℕ) (ns : WaitNodes) → a ≤ i → i < a + n → (reset_from n a ns).active i ≡ false
unfolding reset_from reset
reset_from-active zero a i ns le lt = absurd (omega arith)
reset_from-active (suc n) a i ns le lt = elim (Bool-cases (i == a)) [
  | inl here ↦ reset_from-keeps n (a + 1) i (reset ns a) (ground arith)
  | inr later ↦ reset_from-active n (a + 1) i (reset ns a) (ground arith) (omega arith)
]

all_bits : (i : ℕ) → i < max_wait_nodes → test_bit all_nodes_free i ≡ true
all_bits zero lt = refl
all_bits (suc zero) lt = refl
all_bits (suc (suc zero)) lt = refl
all_bits (suc (suc (suc zero))) lt = refl
all_bits (suc (suc (suc (suc zero)))) lt = refl
all_bits (suc (suc (suc (suc (suc zero))))) lt = refl
all_bits (suc (suc (suc (suc (suc (suc zero)))))) lt = refl
all_bits (suc (suc (suc (suc (suc (suc (suc zero))))))) lt = refl
all_bits (suc (suc (suc (suc (suc (suc (suc (suc i)))))))) lt = absurd (omega arith)

-- If each node of a pool has its own slot number, `reset_all` leaves a valid pool none of whose
-- nodes is active.
reset_all-IsValid :
    (p : Pool) (ns : WaitNodes)
    → ((i : ℕ) → i < max_wait_nodes → ns.slot (p.nodes + i) ≡ i)
    → let r = reset_all p ns in
      IsValid r.0 r.1 × ((i : ℕ) → i < max_wait_nodes → r.1.active (p.nodes + i) ≡ false)
unfolding reset_all
reset_all-IsValid p ns slots = (
  record {
    bound = omega arith;
    bits = λ i lt. all_bits i lt ∙ ap not (sym (idle i lt));
    slots = λ i lt. reset_from-slot max_wait_nodes p.nodes (p.nodes + i) ns ∙ slots i lt;
  },
  idle,
)
  where
    idle :
        (i : ℕ)
        → i < max_wait_nodes
        → (reset_from max_wait_nodes p.nodes ns).active (p.nodes + i) ≡ false
    idle i lt =
        reset_from-active max_wait_nodes p.nodes (p.nodes + i) ns (omega arith) (omega (arith, lt))
