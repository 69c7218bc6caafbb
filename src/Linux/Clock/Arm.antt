-- ===== src/Linux/Clock/Arm.antt =====
-- What arming leaves in memory while other cores arm too.
use co_rtos.Base.{ℕ, ◌≤◌, List, [], ◌∷◌, Has, arith}
use co_rtos.Linux.Clock.{Interference, undisturbed, spurious, store, found, arm_loop}

-- Each store lowers the deadline, as those of `cortos_port_time_arm` do.
abbrev pub Lowers : List Interference → ℕ → Type 0
Lowers [] cur = Unit
Lowers (i ∷ is) cur = (found i cur ≤ cur) × Lowers is (found i cur)

-- The values stored.
abbrev pub stores : List Interference → List ℕ
stores [] = []
stores (store v ∷ is) = v ∷ stores is
stores (_ ∷ is) = stores is

-- The deadline that an arming leaves.
pub record IsEarliest (is : List Interference) (deadline cur left : ℕ) : Type 0 where
  pub by_deadline : left ≤ deadline
  pub by_earlier : left ≤ cur
  pub attained : Has left (deadline ∷ cur ∷ stores is)

-- While other cores only lower the deadline, an arming ends with a deadline that is no later than
-- the one it asks for and the one it found, and that is one of these or a value another core
-- stored.
pub arm_loop-IsEarliest :
    (is : List Interference) (deadline cur : ℕ)
    → Lowers is cur
    → IsEarliest is deadline cur (arm_loop is deadline cur)
unfolding arm_loop
arm_loop-IsEarliest [] deadline cur h = ground arith
arm_loop-IsEarliest (undisturbed ∷ is) deadline cur h =
    ground (arith, arm_loop-IsEarliest is deadline cur h.1)
arm_loop-IsEarliest (spurious ∷ is) deadline cur h =
    ground (arith, arm_loop-IsEarliest is deadline cur h.1)
arm_loop-IsEarliest (store v ∷ is) deadline cur h =
    ground (arith, arm_loop-IsEarliest is deadline v h.1)
