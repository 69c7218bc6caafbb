-- ===== src/Linux/Cores/Laws.antt =====
-- The cores' numbers, and the interrupt from one core to another.
use co_rtos.Base.{
  ℕ, zero, suc, ◌+◌, ◌<◌, ◌≤◌, some, true, false, ltb, ◌==◌, ◌&&◌, if◌then◌else◌, List, [], ◌∷◌,
  length, get_elem?, is_some, ◌≡◌, refl, ap, ◌∙◌, arith,
}
use co_rtos.Linux.Cores.{
  CpuCore, new_cores, GlobalState, CurrentCore, start_cores, get_core_id, set_pending,
  send_reschedule_ipi,
}

new_core : ℕ → ℕ → CpuCore
new_core i entry = record { core_id = i; entry = entry; pending = false }

length-new_cores : (n i entry : ℕ) → length (new_cores n i entry) ≡ n
unfolding new_cores
length-new_cores zero i entry = refl
length-new_cores (suc n) i entry = ap suc (length-new_cores n (i + 1) entry)

get_elem?-new_cores :
    (n i j entry : ℕ) → j < n → get_elem? (new_cores n i entry) j ≡ some (new_core (i + j) entry)
unfolding new_cores new_core
get_elem?-new_cores zero i j entry h = absurd (omega arith)
get_elem?-new_cores (suc n) i zero entry h = ground arith
get_elem?-new_cores (suc n) i (suc j) entry h =
    ground (arith, get_elem?-new_cores n (i + 1) j entry)

get_elem?-set_pending :
    (i j : ℕ) (cs : List CpuCore) (c : CpuCore)
    → get_elem? cs j ≡ some c
    → get_elem? (set_pending i cs) j ≡ some (if j == i then record c { pending = true } else c)
get_elem?-set_pending i j [] c e = cc
get_elem?-set_pending zero zero (x ∷ cs) c e = ground arith
get_elem?-set_pending zero (suc j) (x ∷ cs) c e = ground arith
get_elem?-set_pending (suc i) zero (x ∷ cs) c e = ground arith
get_elem?-set_pending (suc i) (suc j) (x ∷ cs) c e = ground (arith, get_elem?-set_pending i j cs c)

length-set_pending : (i : ℕ) (cs : List CpuCore) → length (set_pending i cs) ≡ length cs
length-set_pending i [] = refl
length-set_pending zero (c ∷ cs) = refl
length-set_pending (suc i) (c ∷ cs) = ap suc (length-set_pending i cs)

-- The cores are `n`, and each has its index for its number.
pub record IsNumbered (n : ℕ) (g : GlobalState) : Type 0 where
  pub many : length g.cores ≡ n
  pub number : (j : ℕ) → j < n → (c : CpuCore) × (get_elem? g.cores j ≡ some c) × (c.core_id ≡ j)

get_core_id_lem :
    {n : ℕ} {g : GlobalState} (this : CurrentCore) (i : ℕ)
    → IsNumbered n g
    → this.core ≡ some i
    → i < n
    → get_core_id g this ≡ some i
unfolding get_core_id
get_core_id_lem {n} {g} this i v e lt =
    let (c, at, same) = v.number i lt in
    let launched : ltb 0 (length g.cores) ≡ true = ground (arith, v.many) in
    rw (launched, e, at, get_core_id) (ap some same)

-- Started on a positive number of cores that the port has, the cores number themselves from 0, and
-- each core finds its own number.
start_cores-IsNumbered :
    (most n entry : ℕ) (g : GlobalState)
    → 0 < n
    → n ≤ most
    → (g' : GlobalState) × (start_cores most n entry g ≡ some g')
      × IsNumbered n g'
      × ((this : CurrentCore) (i : ℕ) → this.core ≡ some i → i < n → get_core_id g' this ≡ some i)
unfolding start_cores new_core
start_cores-IsNumbered most n entry g pos fits =
    let g' : GlobalState = record g { cores = new_cores n 0 entry } in
    let v : IsNumbered n g' = record {
      many = length-new_cores n 0 entry;
      number = λ j lt. (new_core (0 + j) entry, get_elem?-new_cores n 0 j entry lt, omega arith);
    } in
    (g', ground arith, v, λ this i e lt. get_core_id_lem this i v e lt)

-- Where cores are numbered, an interrupt from one to another sets the flag of its target and no
-- other, leaves the numbers, and makes the core yield exactly if it is its own target and in a
-- thread.
pub send_reschedule_ipi_lem :
    {n : ℕ} {g : GlobalState} (this : CurrentCore) (i k : ℕ)
    → IsNumbered n g
    → this.core ≡ some i
    → i < n
    → k < n
    → (g' : GlobalState) × (send_reschedule_ipi k this g
        ≡ some (g', k == i && is_some this.current_context))
      × IsNumbered n g'
      × ((j : ℕ) (c : CpuCore)
          → get_elem? g.cores j ≡ some c
          → get_elem? g'.cores j ≡ some (if j == k then record c { pending = true } else c))
unfolding send_reschedule_ipi
send_reschedule_ipi_lem {n} {g} this i k v e li lk =
    let (c, at, same) = v.number i li in
    let room : ltb k (length g.cores) ≡ true = ground (arith, v.many) in
    (
      record g { cores = set_pending k g.cores },
      rw (room, e, at, same, send_reschedule_ipi) refl,
      record {
        many = length-set_pending k g.cores ∙ v.many;
        number = λ j lj.
            let (d, at_j, num) = v.number j lj in
            (_, get_elem?-set_pending k j g.cores d at_j, ground arith);
      },
      λ j d at_j. get_elem?-set_pending k j g.cores d at_j,
    )
