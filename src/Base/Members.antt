-- ===== src/Base/Members.antt =====
-- Membership, absence and distinctness of addresses in a list, under `++`.
use Prim.Native.Nat.{ℕ}
use mathlib.Core.Path.{◌≡◌}
use mathlib.Core.Logic.{◌≢◌, ◌⊎◌, inl, inr}
use mathlib.Core.List.{List, [], ◌∷◌, ◌++◌}
use native.Mathlib.Decide.{ℕ_discrete}
use native.Mathlib.Omega.{arith}
use co_rtos.Base.Lists.{All, Has, Lacks, Distinct}

pub All-map {ℓ κ μ} :
    {A : Type ℓ} {P : A → Type κ} {Q : A → Type μ}
    → ((a : A) → P a → Q a)
    → (xs : List A) → All P xs
    → All Q xs
All-map f [] h = tt
All-map f (x ∷ xs) h = (f x h.0, All-map f xs h.1)

pub Lacks-append : (a : ℕ) (xs ys : List ℕ) → Lacks a xs → Lacks a ys → Lacks a (xs ++ ys)
Lacks-append a [] ys h k = k
Lacks-append a (x ∷ xs) ys h k = (h.0, Lacks-append a xs ys h.1 k)

pub Lacks-split : (a : ℕ) (xs ys : List ℕ) → Lacks a (xs ++ ys) → Lacks a xs × Lacks a ys
Lacks-split a [] ys h = (tt, h)
Lacks-split a (x ∷ xs) ys h = let r = Lacks-split a xs ys h.1 in ((h.0, r.0), r.1)

pub Lacks-iff_not_Has : (a : ℕ) (xs : List ℕ) → (Has a xs → ⊥) → Lacks a xs
Lacks-iff_not_Has a [] h = tt
Lacks-iff_not_Has a (x ∷ xs) h = ((λ e. h (inl e)), Lacks-iff_not_Has a xs (λ m. h (inr m)))

pub Has-append_right : (a : ℕ) (xs ys : List ℕ) → Has a ys → Has a (xs ++ ys)
Has-append_right a [] ys h = h
Has-append_right a (x ∷ xs) ys h = inr (Has-append_right a xs ys h)

pub Has-append_left : (a : ℕ) (xs ys : List ℕ) → Has a xs → Has a (xs ++ ys)
Has-append_left a [] ys h = elim h [ ]
Has-append_left a (x ∷ xs) ys (inl e) = inl e
Has-append_left a (x ∷ xs) ys (inr h) = inr (Has-append_left a xs ys h)

-- An address in a list splits it.
pub Has-split :
    (a : ℕ) (xs : List ℕ) → Has a xs → (us : List ℕ) × (vs : List ℕ) × (xs ≡ us ++ a ∷ vs)
Has-split a [] h = elim h [ ]
Has-split a (x ∷ xs) (inl e) = ([], xs, ground arith)
Has-split a (x ∷ xs) (inr h) = let (us, vs, e) = Has-split a xs h in (x ∷ us, vs, ground arith)

-- The parts of a list of distinct addresses around one of them.
pub record Around (us : List ℕ) (t : ℕ) (vs : List ℕ) : Type 0 where
  pub not_before : Lacks t us
  pub not_after : Lacks t vs
  pub left : Distinct us
  pub right : Distinct vs
  pub rest : Distinct (us ++ vs)

pub Distinct-Around : (us : List ℕ) (t : ℕ) (vs : List ℕ) → Distinct (us ++ t ∷ vs) → Around us t vs
Distinct-Around [] t vs d = record {
  not_before = tt;
  not_after = d.0;
  left = tt;
  right = d.1;
  rest = d.1;
}
Distinct-Around (x ∷ us) t vs d =
    let r = Distinct-Around us t vs d.1 in
    let s = Lacks-split x us (t ∷ vs) d.0 in
    record {
      not_before = ((λ e. s.1.0 (flip e)), r.not_before);
      not_after = r.not_after;
      left = (s.0, r.left);
      right = r.right;
      rest = (Lacks-append x us vs s.0 s.1.1, r.rest);
    }
  where
    flip : t ≡ x → x ≡ t
    flip e = ground arith

pub Distinct-snoc : (xs : List ℕ) (t : ℕ) → Distinct xs → Lacks t xs → Distinct (xs ++ t ∷ [])
Distinct-snoc [] t d h = (tt, tt)
Distinct-snoc (x ∷ xs) t d h =
    (Lacks-append x xs (t ∷ []) d.0 (ground arith), Distinct-snoc xs t d.1 h.1)

pub Lacks-right : (z : ℕ) (xs ys : List ℕ) → Distinct (xs ++ ys) → Has z xs → Lacks z ys
Lacks-right z [] ys d h = elim h [ ]
Lacks-right z (x ∷ xs) ys d (inl e) = rw e ((Lacks-split x xs ys d.0).1)
Lacks-right z (x ∷ xs) ys d (inr h) = Lacks-right z xs ys d.1 h

Lacks-of_Has : (x z : ℕ) (xs : List ℕ) → Lacks x xs → Has z xs → z ≢ x
Lacks-of_Has x z [] out h = elim h [ ]
Lacks-of_Has x z (y ∷ xs) out (inl e) = ground arith
Lacks-of_Has x z (y ∷ xs) out (inr h) = Lacks-of_Has x z xs out.1 h

pub Lacks-left : (z : ℕ) (xs ys : List ℕ) → Distinct (xs ++ ys) → Has z ys → Lacks z xs
Lacks-left z [] ys d h = tt
Lacks-left z (x ∷ xs) ys d h =
    (Lacks-of_Has x z ys (Lacks-split x xs ys d.0).1 h, Lacks-left z xs ys d.1 h)

pub All-split {ℓ κ} :
    {A : Type ℓ} (P : A → Type κ) (xs ys : List A) → All P (xs ++ ys) → All P xs × All P ys
All-split P [] ys h = (tt, h)
All-split P (x ∷ xs) ys h = let r = All-split P xs ys h.1 in ((h.0, r.0), r.1)

pub Has-or-Lacks : (a : ℕ) (xs : List ℕ) → Has a xs ⊎ Lacks a xs
Has-or-Lacks a [] = inr tt
Has-or-Lacks a (x ∷ xs) = elim (ℕ_discrete a x) [
  | yes e ↦ inl (inl e)
  | no ne ↦ elim (Has-or-Lacks a xs) [ inl h ↦ inl (inr h) | inr o ↦ inr (ne, o) ]
]
