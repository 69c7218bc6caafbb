-- ===== src/Intrusive/Chain.antt =====
-- When a chain of links holds a list of addresses, and which writes leave it alone.
use co_rtos.Base.{
  ℕ, Ptr, none, some, ◌≡◌, ◌≢◌, inr, List, [], ◌∷◌, ◌++◌, arith, All, Has, Lacks, Distinct,
}
use co_rtos.Intrusive.{Links, Ends, set_next, set_prev}

abbrev pub first : List ℕ → Ptr → Ptr
first [] n = n
first (x ∷ xs) n = some x

abbrev pub last : Ptr → List ℕ → Ptr
last p [] = p
last p (x ∷ xs) = last (some x) xs

-- The nodes `xs` are linked in order; the first points back to `p`, and the last on to `n`.
abbrev pub Chain : Links → Ptr → List ℕ → Ptr → Type 0
Chain l p [] n = Unit
Chain l p (x ∷ xs) n = (l.prev x ≡ p) × (l.next x ≡ first xs n) × Chain l (some x) xs n

-- The list with ends `e` holds exactly `xs`, in order, each once.
pub record Holds (l : Links) (e : Ends) (xs : List ℕ) : Type 0 where
  pub starts : e.head ≡ first xs none
  pub ends : e.tail ≡ last none xs
  pub chain : Chain l none xs none
  pub distinct : Distinct xs

abbrev pub SameLinks : Links → Links → ℕ → Type 0
SameLinks l l' a = (l'.next a ≡ l.next a) × (l'.prev a ≡ l.prev a)

-- Two lists with no address in common.
abbrev pub Apart : List ℕ → List ℕ → Type 0
Apart xs ys = All (λ x. Lacks x ys) xs

pub Chain-frame :
    (l l' : Links) (p : Ptr) (xs : List ℕ) (n : Ptr)
    → All (SameLinks l l') xs
    → Chain l p xs n
    → Chain l' p xs n
Chain-frame l l' p [] n same c = tt
Chain-frame l l' p (x ∷ xs) n same c = ground (arith, Chain-frame l l' (some x) xs n)

pub Chain-set_next :
    (l : Links) (p : Ptr) (xs : List ℕ) (n : Ptr) (t : ℕ) (v : Ptr)
    → Lacks t xs
    → Chain l p xs n
    → Chain (set_next l t v) p xs n
Chain-set_next l p [] n t v out c = tt
Chain-set_next l p (x ∷ xs) n t v out c = ground (arith, Chain-set_next l (some x) xs n t v)

pub Chain-set_prev :
    (l : Links) (p : Ptr) (xs : List ℕ) (n : Ptr) (t : ℕ) (v : Ptr)
    → Lacks t xs
    → Chain l p xs n
    → Chain (set_prev l t v) p xs n
Chain-set_prev l p [] n t v out c = tt
Chain-set_prev l p (x ∷ xs) n t v out c = ground (arith, Chain-set_prev l (some x) xs n t v)

pub Chain-append :
    (l : Links) (p : Ptr) (xs ys : List ℕ) (n : Ptr)
    → Chain l p xs (first ys n)
    → Chain l (last p xs) ys n
    → Chain l p (xs ++ ys) n
Chain-append l p [] ys n c d = d
Chain-append l p (x ∷ []) ys n c d = (c.0, c.1, d)
Chain-append l p (x ∷ y ∷ xs) ys n c d = (c.0, c.1, Chain-append l (some x) (y ∷ xs) ys n c.2 d)

pub Chain-split :
    (l : Links) (p : Ptr) (xs ys : List ℕ) (n : Ptr)
    → Chain l p (xs ++ ys) n
    → Chain l p xs (first ys n) × Chain l (last p xs) ys n
Chain-split l p [] ys n c = (tt, c)
Chain-split l p (x ∷ []) ys n c = ((c.0, c.1, tt), c.2)
Chain-split l p (x ∷ y ∷ xs) ys n c =
    let r = Chain-split l (some x) (y ∷ xs) ys n c.2 in ((c.0, c.1, r.0), r.1)

-- The last node of a chain is one of its nodes.
pub last-Has : (x z : ℕ) (xs : List ℕ) → last (some x) xs ≡ some z → Has z (x ∷ xs)
last-Has x z [] e = ground arith
last-Has x z (y ∷ xs) e = inr (last-Has y z xs e)

pub ne_of_Lacks : (x z : ℕ) (xs : List ℕ) → Lacks x xs → Has z xs → x ≢ z
ne_of_Lacks x z [] out h = elim h [ ]
ne_of_Lacks x z (y ∷ xs) out h = ground (arith, ne_of_Lacks x z xs)

-- A write to the last node's `next` retargets the chain.
pub Chain-retarget :
    (l : Links) (p : Ptr) (x : ℕ) (xs : List ℕ) (n m : Ptr) (z : ℕ)
    → Distinct (x ∷ xs)
    → last (some x) xs ≡ some z
    → Chain l p (x ∷ xs) n
    → Chain (set_next l z m) p (x ∷ xs) m
Chain-retarget l p x [] n m z d e c = ground arith
Chain-retarget l p x (y ∷ xs) n m z d e c =
    let ne : x ≢ z = ne_of_Lacks x z (y ∷ xs) d.0 (last-Has y z xs e) in
    let rest = Chain-retarget l (some x) y xs n m z d.1 e c.2 in (c.0, ground arith, rest)

-- A write to the first node's `prev` changes where the chain points back to.
pub Chain-reroot :
    (l : Links) (p q : Ptr) (x : ℕ) (xs : List ℕ) (n : Ptr)
    → Lacks x xs
    → Chain l p (x ∷ xs) n
    → Chain (set_prev l x q) q (x ∷ xs) n
Chain-reroot l p q x xs n out c = (ground arith, c.1, Chain-set_prev l (some x) xs n x q out c.2)
