-- ===== src/Intrusive/Ops.antt =====
-- What taking a node out does to a list that is held, and to every other.
use co_rtos.Base.Members.{
  Around, Distinct-Around, Lacks-append, Lacks-split, Lacks-left, Lacks-right,
}
use co_rtos.Base.{
  ℕ, Ptr, none, some, ◌≡◌, refl, ◌∙◌, sym, subst, false, is_some, ◌||◌, ◌≢◌, inl, List, [], ◌∷◌,
  ◌++◌, arith, All, Distinct,
}
use co_rtos.Intrusive.{
  Links, Ends, set_next, set_prev, is_enqueued, unlink_before, unlink_after, unlink_front, unlink,
}
use co_rtos.Intrusive.Chain.{
  first, last, Chain, Holds, SameLinks, Apart, Chain-set_next, Chain-set_prev, Chain-append,
  Chain-split, Chain-retarget, Chain-reroot, last-Has, ne_of_Lacks,
}
use co_rtos.Intrusive.Appending.{last-some, last-append, not-first, not-last}

-- What is known half way: `t` still points to its neighbours, and the part before it already
-- leads past it.
record Bypassed (l : Links) (e : Ends) (us : List ℕ) (t : ℕ) (vs : List ℕ) (tail : Ptr)
    : Type 0 where
  front : e.head ≡ first (us ++ vs) none
  back : e.tail ≡ tail
  before : Chain l none us (first vs none)
  to_prev : l.prev t ≡ last none us
  to_next : l.next t ≡ first vs none
  after : Chain l (some t) vs none

unlink_before-Bypassed :
    {l : Links} {e : Ends} (us : List ℕ) (t : ℕ) (vs : List ℕ)
    → Holds l e (us ++ t ∷ vs)
    → Around us t vs
    → let (l', e') = unlink_before (last none us) l e t in Bypassed l' e' us t vs e.tail
unlink_before-Bypassed {l} {e} [] t vs h a = record {
  front = h.chain.1;
  back = refl;
  before = tt;
  to_prev = h.chain.0;
  to_next = h.chain.1;
  after = h.chain.2;
}
unlink_before-Bypassed {l} {e} (x ∷ us) t vs h a =
    let (z, lst) = last-some x us in
    let c = Chain-split l none (x ∷ us) (t ∷ vs) none h.chain in
    let ne = ne_of_Lacks t z (x ∷ us) a.not_before (last-Has x z us lst) in
    let far = Lacks-right z (x ∷ us) vs a.rest (last-Has x z us lst) in
    rw (lst, unlink_before)
      (record {
        front = h.starts;
        back = refl;
        before =
            subst (λ m. Chain (set_next l z m) none (x ∷ us) (first vs none)) (sym c.1.1)
              (Chain-retarget l none x us (some t) (first vs none) z a.left lst c.0);
        to_prev = c.1.0;
        to_next = ground arith;
        after = Chain-set_next l (some t) vs none z (l.next t) far c.1.2;
      })

-- What is left to do is to clear the links of `t`.
record Unlinked (l : Links) (e : Ends) (us vs : List ℕ) : Type 0 where
  front : e.head ≡ first (us ++ vs) none
  back : e.tail ≡ last none (us ++ vs)
  before : Chain l none us (first vs none)
  after : Chain l (last none us) vs none

unlink_after-Unlinked :
    {l : Links} {e : Ends} (us : List ℕ) (t : ℕ) (vs : List ℕ) (tail : Ptr)
    → Bypassed l e us t vs tail
    → Distinct (us ++ vs)
    → Around us t vs
    → tail ≡ last none (us ++ t ∷ vs)
    → let (l', e') = unlink_after (first vs none) l e t in Unlinked l' e' us vs
unlink_after-Unlinked {l} {e} us t [] tail b d a q = record {
  front = b.front;
  back = b.to_prev ∙ sym (last-append none us []);
  before = b.before;
  after = tt;
}
unlink_after-Unlinked {l} {e} us t (y ∷ vs) tail b d a q = record {
  front = b.front;
  back = b.back ∙ q ∙ last-append none us (t ∷ y ∷ vs) ∙ sym (last-append none us (y ∷ vs));
  before =
      Chain-set_prev l none us (some y) y (l.prev t) (Lacks-left y us (y ∷ vs) d (inl refl))
        b.before;
  after =
      subst (λ m. Chain (set_prev l y m) (last none us) (y ∷ vs) none) (sym b.to_prev)
        (Chain-reroot l (some t) (last none us) y vs none a.right.0 b.after);
}

cleared-Holds :
    {l : Links} {e : Ends} {us vs : List ℕ} (t : ℕ)
    → Unlinked l e us vs
    → Around us t vs
    → Holds (set_next (set_prev l t none) t none) e (us ++ vs)
cleared-Holds {l} {e} {us} {vs} t u a = record {
  starts = u.front;
  ends = u.back;
  chain =
      let out = Lacks-append t us vs a.not_before a.not_after in
      Chain-set_next (set_prev l t none) none (us ++ vs) none t none out (
        Chain-set_prev l none (us ++ vs) none t none out
          (Chain-append l none us vs none u.before u.after));
  distinct = a.rest;
}

-- Taking a node out of a list leaves the list of its other nodes, in order and linked in both
-- directions, and the node with no links.
pub unlink-Holds :
    {l : Links} {e : Ends} (us : List ℕ) (t : ℕ) (vs : List ℕ)
    → Holds l e (us ++ t ∷ vs)
    → Holds (unlink l e t).0 (unlink l e t).1 (us ++ vs) × (is_enqueued (unlink l e t).0 t ≡ false)
unfolding unlink
unlink-Holds {l} {e} us t vs h =
    let c = Chain-split l none us (t ∷ vs) none h.chain in
    let a = Distinct-Around us t vs h.distinct in
    let b : Bypassed (unlink_before (l.prev t) l e t).0 (unlink_before (l.prev t) l e t).1 us t vs
        e.tail =
      subst (λ m. Bypassed (unlink_before m l e t).0 (unlink_before m l e t).1 us t vs e.tail)
        (sym c.1.0) (unlink_before-Bypassed us t vs h a) in
    let (l₁, e₁) = unlink_before (l.prev t) l e t in
    let u : Unlinked (unlink_after (l₁.next t) l₁ e₁ t).0 (unlink_after (l₁.next t) l₁ e₁ t).1 us
        vs =
      subst (λ m. Unlinked (unlink_after m l₁ e₁ t).0 (unlink_after m l₁ e₁ t).1 us vs)
        (sym b.to_next) (unlink_after-Unlinked us t vs e.tail b a.rest a h.ends) in
    (cleared-Holds t u a, ground arith)

-- Taking a node out touches the node and its two neighbours only.
unlink-same :
    (l : Links) (e : Ends) (t a : ℕ)
    → a ≢ t
    → l.prev t ≢ some a
    → l.next t ≢ some a
    → SameLinks l (unlink l e t).0 a
unfolding unlink
unlink-same l e t a ne np nn = ground arith

pub unlink-frame :
    {l : Links} {e : Ends} (us : List ℕ) (t : ℕ) (vs ys : List ℕ)
    → Holds l e (us ++ t ∷ vs)
    → Apart ys (us ++ t ∷ vs)
    → All (SameLinks l (unlink l e t).0) ys
unlink-frame us t vs [] h apart = tt
unlink-frame {l} {e} us t vs (y ∷ ys) h apart =
    let c = Chain-split l none us (t ∷ vs) none h.chain in
    let o = Lacks-split y us (t ∷ vs) apart.0 in
    (
      unlink-same l e t y o.1.0 (λ q. not-last y us o.0 (sym c.1.0 ∙ q))
          (λ q. not-first y vs o.1.1 (sym c.1.1 ∙ q)),
      unlink-frame us t vs ys h apart.1,
    )

-- Taking the head off is taking it out.
pub unlink_front-eq-unlink :
    {l : Links} {e : Ends} (t : ℕ) (vs : List ℕ)
    → Holds l e (t ∷ vs)
    → unlink_front l e t ≡ unlink l e t
unfolding unlink_front unlink
unlink_front-eq-unlink {l} {e} t [] h = ground arith
unlink_front-eq-unlink {l} {e} t (y ∷ vs) h = ground arith

-- A node that a list holds shows as enqueued exactly if another node stands before or behind it;
-- the sole node of a list does not.
is_enqueued_of_Holds :
    {l : Links} {e : Ends} (us : List ℕ) (t : ℕ) (vs : List ℕ)
    → Holds l e (us ++ t ∷ vs)
    → is_enqueued l t ≡ (is_some (first vs none) || is_some (last none us))
is_enqueued_of_Holds {l} us t vs h =
    let c = Chain-split l none us (t ∷ vs) none h.chain in rw (c.1.0, c.1.1)
