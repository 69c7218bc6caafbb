-- ===== src/Wait/Refs/Laws.antt =====
-- What the lock of a group promises: one order for all groups.
use co_rtos.Base.{
  ℕ, ◌+◌, ◌≤◌, ◌<◌, some, true, List, [], ◌∷◌, ltb, leb, length, All, Has, Lacks, Distinct, ◌≡◌,
  refl, sym, ◌↔◌, inl, inr, Bool-cases, arith,
}
use co_rtos.Base.Members.{Lacks-iff_not_Has}
use co_rtos.Config.{max_wait_nodes}
use co_rtos.Wait.Refs.{push_range, insert, sort, sort_by_address, unique, lock_order}

-- Each address is below all that follow.
abbrev pub Ascending : List ℕ → Type 0
Ascending [] = Unit
Ascending (x ∷ xs) = All (λ y. x < y) xs × Ascending xs

abbrev pub SameMembers : List ℕ → List ℕ → Type 0
SameMembers xs ys = (a : ℕ) → Has a xs ↔ Has a ys

cons-SameMembers : (y : ℕ) (xs ys : List ℕ) → SameMembers xs ys → SameMembers (y ∷ xs) (y ∷ ys)
cons-SameMembers y xs ys same a = (forth, back)
  where
    forth : Has a (y ∷ xs) → Has a (y ∷ ys)
    forth (inl e) = inl e
    forth (inr h) = inr ((same a).0 h)

    back : Has a (y ∷ ys) → Has a (y ∷ xs)
    back (inl e) = inl e
    back (inr h) = inr ((same a).1 h)

swap : (x y a : ℕ) (xs : List ℕ) → Has a (x ∷ y ∷ xs) → Has a (y ∷ x ∷ xs)
swap x y a xs (inl e) = inr (inl e)
swap x y a xs (inr (inl e)) = inl e
swap x y a xs (inr (inr h)) = inr (inr h)

trans-SameMembers : (xs ys zs : List ℕ) → SameMembers xs ys → SameMembers ys zs → SameMembers xs zs
trans-SameMembers xs ys zs p q a = ((λ h. (q a).0 ((p a).0 h)), (λ h. (p a).1 ((q a).1 h)))

insert-SameMembers : (x : ℕ) (xs : List ℕ) → SameMembers (insert x xs) (x ∷ xs)
unfolding insert
insert-SameMembers x [] a = ((λ h. h), (λ h. h))
insert-SameMembers x (y ∷ ys) a = elim (Bool-cases (leb x y)) [
  | inl le ↦ rw le ((λ h. h), (λ h. h))
  | inr gt ↦ rw gt (
      trans-SameMembers (y ∷ insert x ys) (y ∷ x ∷ ys) (x ∷ y ∷ ys)
        (cons-SameMembers y (insert x ys) (x ∷ ys) (insert-SameMembers x ys))
        (λ b. (swap y x b ys, swap x y b ys)) a)
]

below_insert :
    (z x : ℕ) (xs : List ℕ) → z < x → All (λ y. z < y) xs → All (λ y. z < y) (insert x xs)
unfolding insert
below_insert z x [] lt h = (lt, tt)
below_insert z x (y ∷ ys) lt h = elim (Bool-cases (leb x y)) [
  | inl le ↦ rw le (lt, h)
  | inr gt ↦ rw gt (h.0, below_insert z x ys lt h.1)
]

above_first : (x y : ℕ) (ys : List ℕ) → x < y → All (λ z. y < z) ys → All (λ z. x < z) ys
above_first x y [] lt h = tt
above_first x y (z ∷ ys) lt h = (omega (arith, h.0), above_first x y ys lt h.1)

insert-Ascending : (x : ℕ) (xs : List ℕ) → Lacks x xs → Ascending xs → Ascending (insert x xs)
unfolding insert
insert-Ascending x [] out h = (tt, tt)
insert-Ascending x (y ∷ ys) out h = elim (Bool-cases (leb x y)) [
  | inl le ↦ let lt : x < y = ground (arith, out.0) in rw le ((lt, above_first x y ys lt h.0), h)
  | inr gt ↦ rw gt (below_insert y x ys (ground arith) h.0, insert-Ascending x ys out.1 h.1)
]

sort-SameMembers : (xs : List ℕ) → SameMembers (sort xs) xs
unfolding sort
sort-SameMembers [] = λ a. ((λ h. h), (λ h. h))
sort-SameMembers (x ∷ xs) =
    trans-SameMembers (insert x (sort xs)) (x ∷ sort xs) (x ∷ xs) (insert-SameMembers x (sort xs))
      (cons-SameMembers x (sort xs) xs (sort-SameMembers xs))

Lacks-of_SameMembers : (a : ℕ) (xs ys : List ℕ) → SameMembers xs ys → Lacks a ys → Lacks a xs
Lacks-of_SameMembers a xs ys same out = Lacks-iff_not_Has a xs (λ h. absent ys out ((same a).0 h))
  where
    absent : (zs : List ℕ) → Lacks a zs → Has a zs → ⊥
    absent [] o h = elim h [ ]
    absent (z ∷ zs) o (inl e) = o.0 e
    absent (z ∷ zs) o (inr h) = absent zs o.1 h

sort-Ascending : (xs : List ℕ) → Distinct xs → Ascending (sort xs)
unfolding sort
sort-Ascending [] d = tt
sort-Ascending (x ∷ xs) d =
    insert-Ascending x (sort xs) (Lacks-of_SameMembers x (sort xs) xs (sort-SameMembers xs) d.0)
      (sort-Ascending xs d.1)

unique_of_Ascending : (xs : List ℕ) → Ascending xs → unique xs ≡ true
unfolding unique
unique_of_Ascending [] h = refl
unique_of_Ascending (x ∷ []) h = refl
unique_of_Ascending (x ∷ y ∷ xs) h = ground (arith, h.0.0, unique_of_Ascending (y ∷ xs) h.1)

short : (v : List ℕ) → ltb (length v) 2 ≡ true → sort v ≡ v
unfolding sort insert
short [] h = refl
short (x ∷ []) h = refl
short (x ∷ y ∷ v) h = absurd (ground arith)

sort_by_address-eq-sort : (v : List ℕ) → sort_by_address v ≡ sort v
unfolding sort_by_address
sort_by_address-eq-sort v = elim (Bool-cases (ltb (length v) 2)) [
  | inl few ↦ rw few (sym (short v few))
  | inr many ↦ rw many refl
]

-- For distinct waitables, at most as many as there are wait nodes, the lock of a group passes its
-- assertions and locks exactly those waitables, in ascending order of address.
pub lock_order-Ascending :
    (ws : List ℕ)
    → length ws ≤ max_wait_nodes
    → Distinct ws
    → (xs : List ℕ) × (lock_order ws ≡ some xs) × Ascending xs × SameMembers xs ws
unfolding lock_order push_range
lock_order-Ascending ws fits d =
    let room : leb (0 + length ws) max_wait_nodes ≡ true = ground arith in
    let up = sort-Ascending ws d in
    (
      sort ws,
      rw (room, sort_by_address-eq-sort ws, unique_of_Ascending (sort ws) up) refl,
      up,
      sort-SameMembers ws,
    )
