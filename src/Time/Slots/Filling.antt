-- ===== src/Time/Slots/Filling.antt =====
-- Filling and releasing a slot.
use native.Mathlib.Decide.{ℕ_discrete}
use co_rtos.Base.{
  ℕ, ◌^◌, ◌<◌, none, some, List, [], ◌∷◌, ◌++◌, length, All, ◌≡◌, refl, ◌≢◌, ◌↔◌, inl, inr,
  Option-cases, arith,
}
use co_rtos.Time.Slots.{Slot, free_slot, take_id, fill, release}

-- Every free slot is `Slot{}`.
abbrev pub IsClean : List Slot → Type 0
IsClean [] = Unit
IsClean (x ∷ xs) = (x.id ≡ 0 → x ≡ free_slot) × IsClean xs

abbrev pub NoId : ℕ → List Slot → Type 0
NoId i [] = Unit
NoId i (x ∷ xs) = (x.id ≢ i) × NoId i xs

-- The id is never 0, and the counter goes on behind it.
pub take_id_ne :
    (n : ℕ) → n < 2 ^ 32 → ((take_id n).0 ≢ 0) × ((take_id n).0 < 2 ^ 32) × ((take_id n).1 < 2 ^ 32)
unfolding take_id
take_id_ne n h = ground arith

-- A fill fails exactly when every slot is in use.
pub fill-none_iff : (new : Slot) (ss : List Slot) → (fill new ss ≡ none) ↔ All (λ s. s.id ≢ 0) ss
unfolding fill
fill-none_iff new [] = ((λ e. tt), (λ h. refl))
fill-none_iff new (s ∷ ss) = ground (arith, fill-none_iff new ss)

fill-length : (new : Slot) (ss ts : List Slot) → fill new ss ≡ some ts → length ts ≡ length ss
unfolding fill
fill-length new [] ts e = cc
fill-length new (s ∷ ss) ts e = elim (Option-cases (fill new ss)) [
  | inl miss ↦ ground arith
  | inr (us, q) ↦ ground (arith, fill-length new ss us)
]

-- Freeing the id just filled restores the slots, if no slot had that id and free slots are clean.
pub release-fill :
    (new : Slot) (ss ts : List Slot)
    → NoId new.id ss
    → new.id ≢ 0
    → IsClean ss
    → fill new ss ≡ some ts
    → release new.id ts ≡ some ss
unfolding fill release
release-fill new [] ts out nz clean e = cc
release-fill new (s ∷ ss) ts out nz clean e = elim (Option-cases (fill new ss)) [
  | inl miss ↦ ground (arith, clean.0)
  | inr (us, q) ↦ ground (arith, clean.0, release-fill new ss us out.1 nz clean.1 q)
]

-- A fill puts the new slot in the place of the first free one, and leaves the others.
pub fill-place :
    (new : Slot) (ss ts : List Slot)
    → fill new ss ≡ some ts
    → (us : List Slot) × (x : Slot) × (vs : List Slot) × (ss ≡ us ++ x ∷ vs)
      × (ts ≡ us ++ new ∷ vs)
      × (x.id ≡ 0)
      × All (λ s. s.id ≢ 0) us
unfolding fill
fill-place new [] ts e = absurd (cc)
fill-place new (s ∷ ss) ts e = elim (ℕ_discrete s.id 0) [
  | yes free ↦ ([], s, ss, refl, ground arith, free, tt)
  | no used ↦ elim (Option-cases (fill new ss)) [
    | inl miss ↦ absurd (ground arith)
    | inr (rs, q) ↦
        let (us, x, vs, a, b, z, all) = fill-place new ss rs q in
        (s ∷ us, x, vs, ground arith, ground arith, z, (used, all))
  ]
]
