-- ===== src/Time/Slots.antt =====
-- The slots for scheduled callbacks, and the loops over them, which src/time/periodic and
-- src/time/tickless share word for word.
pub mod Filling
pub mod Laws
use co_rtos.Base.{
  ℕ, zero, suc, ◌+◌, ◌%◌, ◌^◌, Ptr, Option, none, some, Bool, true, false, not, ◌&&◌, ltb, leb,
  ◌==◌, if◌then◌else◌, List, [], ◌∷◌, ◌++◌, replicate, get_or, set,
}
use co_rtos.Time.Types.{u32}

-- `struct Slot`; `id` 0 is a free slot. A callback is the address of a function.
pub record Slot : Type 0 where
  pub id : ℕ
  pub when : ℕ
  pub cb : Ptr
  pub arg : ℕ

-- `Slot{}`
abbrev pub free_slot : Slot
free_slot = record { id = 0; when = 0; cb = none; arg = 0 }

abbrev pub max_scheduled_callbacks : ℕ
max_scheduled_callbacks = 16

-- `next_id++`, taken twice where the first id is 0: the id, and the counter after it.
unfoldable pub take_id : ℕ → ℕ × ℕ
take_id n = if n == 0 then (u32 (n + 1), u32 (n + 2)) else (n, u32 (n + 1))

-- Fills the first free slot; `none` where there is none.
unfoldable pub fill : Slot → List Slot → Option (List Slot)
fill new [] = none
fill new (s ∷ ss) =
    let rest = fill new ss in
    if s.id == 0 then some (new ∷ ss) else elim rest [ none ↦ none | some ts ↦ some (s ∷ ts) ]

-- Frees the first slot with the id; `none` where there is none.
unfoldable pub release : ℕ → List Slot → Option (List Slot)
release id [] = none
release id (s ∷ ss) =
    let rest = release id ss in
    if s.id == id
    then some (free_slot ∷ ss)
    else elim rest [ none ↦ none | some ts ↦ some (s ∷ ts) ]

abbrev pub is_due : ℕ → Slot → Bool
is_due now s = not (s.id == 0) && leb s.when now

-- `cb(arg)`, on a driver that the callback may change.
unfoldable pub invoke : {D : Type 0} → (ℕ → ℕ → D → D) → Ptr → ℕ → D → D
invoke run none arg d = d
invoke run (some f) arg d = run f arg d

-- The loop of `fire_due_isr` over the slots of a driver with state `D`, from slot `i` for `n`
-- slots. A due slot is freed before its callback runs, and the callback may change the driver.
-- Beside the
-- driver the model gives back the slots that fired, in order. No slot in use has a null callback.
module _ {D : Type 0} (slots : D → List Slot) (with_slots : D → List Slot → D) (run : ℕ → ℕ → D → D)
    (now : ℕ) where
  unfoldable pub fire_from : ℕ → ℕ → D → D × List Slot
  fire_from zero i d = (d, [])
  fire_from (suc n) i d =
      let s = get_or (slots d) i free_slot in
      let freed = with_slots d (set (slots d) i free_slot) in
      let quiet = fire_from n (i + 1) d in
      let fired = fire_from n (i + 1) (invoke run s.cb s.arg freed) in
      if is_due now s then (fired.0, s ∷ fired.1) else quiet
