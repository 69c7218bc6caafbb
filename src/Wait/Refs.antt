-- ===== src/Wait/Refs.antt =====
-- src/kernel/waitable_utilities.hpp: a vector of waitables, by address, and the lock of a group. The
-- elements of `store` beyond `count` are not read, and the model holds the others alone.
pub mod Laws
use co_rtos.Base.{
  ℕ, ◌+◌, ◌-◌, Ptr, Option, none, some, Bool, true, false, not, ◌&&◌, List, [], ◌∷◌, ◌++◌, ltb, leb,
  ◌==◌, if◌then◌else◌, length, get_elem?, assert, ◌>>=◌, ◌>>◌,
}
use co_rtos.Config.{max_wait_nodes}

unfoldable pub push : ℕ → List ℕ → ℕ → Option (List ℕ)
push max v w = do assert (ltb (length v) max); some (v ++ w ∷ [])

unfoldable pub push_range : ℕ → List ℕ → List ℕ → Option (List ℕ)
push_range max v ws = do assert (leb (length v + length ws) max); some (v ++ ws)

abbrev pub drop_last : List ℕ → List ℕ
drop_last [] = []
drop_last (x ∷ []) = []
drop_last (x ∷ y ∷ xs) = x ∷ drop_last (y ∷ xs)

unfoldable pub pop : List ℕ → Option (List ℕ)
pop v = do assert (not (length v == 0)); some (drop_last v)

-- `operator[]`
unfoldable pub at : List ℕ → ℕ → Option ℕ
at v i = do assert (ltb i (length v)); get_elem? v i

-- `std::ranges::sort`, on addresses.
unfoldable pub insert : ℕ → List ℕ → List ℕ
insert x [] = x ∷ []
insert x (y ∷ ys) = let rest = insert x ys in if leb x y then x ∷ y ∷ ys else y ∷ rest

unfoldable pub sort : List ℕ → List ℕ
sort [] = []
sort (x ∷ xs) = insert x (sort xs)

unfoldable pub sort_by_address : List ℕ → List ℕ
sort_by_address v = if ltb (length v) 2 then v else sort v

-- No element is its predecessor's equal.
unfoldable pub unique : List ℕ → Bool
unique [] = true
unique (x ∷ []) = true
unique (x ∷ y ∷ xs) = not (x == y) && unique (y ∷ xs)

-- The constructor of `WaitableGroupLock`: the addresses in the order in which it locks them.
unfoldable pub lock_order : List ℕ → Option (List ℕ)
lock_order ws = do
  v ← push_range max_wait_nodes [] ws
  let sorted = sort_by_address v
  assert (unique sorted)
  some sorted

-- The destructor: the addresses in the order in which it unlocks them.
unfoldable pub unlock_order : List ℕ → List ℕ
unlock_order [] = []
unlock_order (x ∷ xs) = unlock_order xs ++ x ∷ []
