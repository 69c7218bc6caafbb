-- ===== src/Intrusive/Appending.antt =====
-- Appending a node to a list.
use co_rtos.Base.Members.{Distinct-snoc}
use co_rtos.Base.{
  ℕ, Ptr, none, some, ◌≡◌, refl, ◌∙◌, sym, ◌≢◌, List, [], ◌∷◌, ◌++◌, arith, All, Lacks,
}
use co_rtos.Intrusive.{Links, Ends, link_back, link_back_at}
use co_rtos.Intrusive.Chain.{
  first, last, Holds, SameLinks, Apart, Chain-set_next, Chain-set_prev, Chain-append,
  Chain-retarget, last-Has, ne_of_Lacks,
}

pub last-some : (x : ℕ) (xs : List ℕ) → (z : ℕ) × (last (some x) xs ≡ some z)
last-some x [] = (x, refl)
last-some x (y ∷ xs) = last-some y xs

last-snoc : (p : Ptr) (xs : List ℕ) (t : ℕ) → last p (xs ++ t ∷ []) ≡ some t
last-snoc p [] t = refl
last-snoc p (x ∷ xs) t = last-snoc (some x) xs t

first-append : (xs ys : List ℕ) (n : Ptr) → first (xs ++ ys) n ≡ first xs (first ys n)
first-append [] ys n = refl
first-append (x ∷ xs) ys n = refl

pub last-append : (p : Ptr) (xs ys : List ℕ) → last p (xs ++ ys) ≡ last (last p xs) ys
last-append p [] ys = refl
last-append p (x ∷ xs) ys = last-append (some x) xs ys

pub not-first : (a : ℕ) (xs : List ℕ) → Lacks a xs → first xs none ≢ some a
not-first a [] h e = cc
not-first a (x ∷ xs) h e = ground arith

pub not-last : (a : ℕ) (xs : List ℕ) → Lacks a xs → last none xs ≢ some a
not-last a [] h e = cc
not-last a (x ∷ []) h e = ground arith
not-last a (x ∷ y ∷ xs) h e = not-last a (y ∷ xs) h.1 e

-- Appending touches the new node and the old tail only.
link_back-same :
    (l : Links) (e : Ends) (t a : ℕ) → a ≢ t → e.tail ≢ some a → SameLinks l (link_back l e t).0 a
unfolding link_back
link_back-same l e t a ne nt = ground arith

pub link_back-frame :
    {l : Links} {e : Ends} {xs : List ℕ} (t : ℕ) (ys : List ℕ)
    → Holds l e xs
    → Lacks t ys
    → Apart ys xs
    → All (SameLinks l (link_back l e t).0) ys
link_back-frame {l} {e} {xs} t [] h out apart = tt
link_back-frame {l} {e} {xs} t (y ∷ ys) h out apart = (
  link_back-same l e t y (λ q. out.0 (ground arith))
      (λ q. not-last y xs apart.0 (ground (arith, h.ends))),
  link_back-frame t ys h out.1 apart.1,
)

-- Appending a node that a list does not hold gives the list with that node at its end, linked in
-- both directions.
pub link_back-Holds :
    {l : Links} {e : Ends} (t : ℕ) (xs : List ℕ)
    → Holds l e xs
    → Lacks t xs
    → Holds (link_back l e t).0 (link_back l e t).1 (xs ++ t ∷ [])
unfolding link_back
link_back-Holds {l} {e} t [] h out =
    rw (h.ends, link_back_at)
      (record { starts = refl; ends = refl; chain = ground arith; distinct = (tt, tt) })
link_back-Holds {l} {e} t (x ∷ xs) h out =
    let (z, lst) = last-some x xs in
    rw (h.ends ∙ lst, link_back_at)
      (record {
        starts = h.starts;
        ends = sym (last-snoc (some x) xs t);
        chain =
            Chain-append _ none (x ∷ xs) (t ∷ []) none
              (Chain-retarget _ none x xs none (some t) z h.distinct lst (
                Chain-set_prev _ none (x ∷ xs) none t (some z) out
                  (Chain-set_next l none (x ∷ xs) none t none out h.chain)))
              (ground (arith, ne_of_Lacks t z (x ∷ xs) out (last-Has x z xs lst)));
        distinct = Distinct-snoc (x ∷ xs) t h.distinct out;
      })
