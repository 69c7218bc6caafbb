-- ===== src/Mpsc/Shared/Invariant.antt =====
-- What the cells, the producers and the consumer look like between steps.
use co_rtos.Base.{
  ℕ, ◌+◌, ◌-◌, ◌≤◌, ◌<◌, ◌^◌, ◌==◌, ==_iff, Option, some, Bool, true, false, ◌⊎◌, inl, inr, update,
  ◌≡◌, ◌≢◌, refl, sym, ◌∙◌, ap, subst, ℕ_discrete, arith,
}
use co_rtos.Mpsc.Shared.{
  Producer, outside, loaded, matched, claimed, built, Consumer, resting, found, taken,
}
use co_rtos.Mpsc.Window.{slot-ne, update-other, update_self}
use co_rtos.Mpsc.{Cell, slot}

-- The producer has claimed `p` and has not published it.
abbrev pub flies_at : ℕ → Producer → Bool
flies_at p (claimed q x) = p == q
flies_at p (built q x) = p == q
flies_at p _ = false

abbrev pub Cells : Type 0
Cells = ℕ → Cell ℕ

-- What a producer relies on; `limit` is the first position whose cell is not free for sure.
abbrev pub Relies : ℕ → ℕ → ℕ → ℕ → Cells → (ℕ → ℕ) → Producer → Type 0
Relies k head tail limit cells log outside = Unit
Relies k head tail limit cells log (loaded p x) = p ≤ head
Relies k head tail limit cells log (matched p x) = (p ≤ head) × (p ≡ head → head < limit)
Relies k head tail limit cells log (claimed p x) =
    (tail ≤ p) × (p < head) × ((cells (slot k p)).sequence ≡ p) × (log p ≡ x)
Relies k head tail limit cells log (built p x) =
    (tail ≤ p)
    × (p < head)
    × (cells (slot k p) ≡ record { sequence = p; item = some x })
    × (log p ≡ x)

-- The cell of `p` holds the item of the log, published.
abbrev pub Published : ℕ → Cells → (ℕ → ℕ) → ℕ → Type 0
Published k cells log p = cells (slot k p) ≡ record { sequence = p + 1; item = some (log p) }

-- What the consumer relies on.
abbrev pub Takes : ℕ → ℕ → ℕ → Cells → (ℕ → ℕ) → Consumer → Type 0
Takes k head tail cells log resting = Unit
Takes k head tail cells log (found p) = (p ≡ tail) × (p < head) × Published k cells log p
Takes k head tail cells log (taken p) = (p + 1 ≡ tail) × ((cells (slot k p)).sequence ≡ p + 1)

-- The first position whose cell is not free again.
abbrev pub low : Consumer → ℕ → ℕ
low (taken p) tail = p
low _ tail = tail

pub record Inv (k head tail : ℕ) (cells : Cells) (producers : ℕ → Producer) (consumer : Consumer)
    (log : ℕ → ℕ) (popped : ℕ → Option ℕ) : Type 0 where
  pub behind : tail ≤ head
  pub ahead : head ≤ low consumer tail + 2 ^ k
  pub young : head + 2 ^ k ≤ 2 ^ 63
  pub full :
      (p : ℕ)
      → tail ≤ p
      → p < head
      → Published k cells log p ⊎ ((i : ℕ) × (flies_at p (producers i) ≡ true))
  pub free : (p : ℕ) → head ≤ p → p < low consumer tail + 2 ^ k → (cells (slot k p)).sequence ≡ p
  pub relies : (i : ℕ) → Relies k head tail (low consumer tail + 2 ^ k) cells log (producers i)
  pub apart :
      (i j p : ℕ) → flies_at p (producers i) ≡ true → flies_at p (producers j) ≡ true → i ≡ j
  pub takes : Takes k head tail cells log consumer
  pub got : (p : ℕ) → p < tail → popped p ≡ some (log p)

-- A write to one cell leaves those of positions less than a capacity away.
pub cell_kept :
    (k : ℕ) (cells : Cells) (p q : ℕ) (c : Cell ℕ)
    → p ≢ q
    → p < q + 2 ^ k
    → q < p + 2 ^ k
    → update cells (slot k p) c (slot k q) ≡ cells (slot k q)
cell_kept k cells p q c ne near far = update-other cells (slot k p) (slot k q) c (λ e. differ e)
  where
    split : (p q : ℕ) → p ≢ q → (p < q) ⊎ (q < p)
    split p q ne = ground arith

    differ : slot k q ≢ slot k p
    differ e = elim (split p q ne) [
      | inl lt ↦ slot-ne k p (q - p) (omega arith) (omega arith) (ap (slot k) (omega arith) ∙ e)
      | inr gt ↦ slot-ne k q (p - q) (omega arith) (omega arith) (ap (slot k) (omega arith) ∙ sym e)
    ]

-- A property of all producers after one of them has moved.
pub all_updated {κ} :
    (P : ℕ → Producer → Type κ) (producers : ℕ → Producer) (i : ℕ) (q : Producer)
    → P i q
    → ((j : ℕ) → j ≢ i → P j (producers j))
    → (j : ℕ) → P j (update producers i q j)
all_updated P producers i q own others j = elim (ℕ_discrete j i) [
  | yes e ↦
      subst (λ n. P n (update producers i q n)) (sym e)
        (subst (P i) (sym (update_self producers i q)) own)
  | no ne ↦ subst (P j) (sym (update-other producers i j q ne)) (others j ne)
]

pub clash : (b : Bool) → b ≡ true → b ≡ false → ⊥
clash b e f = cc

-- Two producers stay apart if the one that moves claims nothing that another has.
pub apart_updated :
    (producers : ℕ → Producer) (i : ℕ) (q : Producer)
    → ((j l p : ℕ) → flies_at p (producers j) ≡ true → flies_at p (producers l) ≡ true → j ≡ l)
    → ((j p : ℕ) → j ≢ i → flies_at p q ≡ true → flies_at p (producers j) ≡ false)
    → (j l p : ℕ) → flies_at p (update producers i q j) ≡ true
    → flies_at p (update producers i q l) ≡ true
    → j ≡ l
apart_updated producers i q apart new j l p h g =
    all_updated
      (λ n a. flies_at p a ≡ true → (m : ℕ) → flies_at p (update producers i q m) ≡ true → n ≡ m)
      producers i q
      (λ own.
        all_updated (λ m a. flies_at p a ≡ true → i ≡ m) producers i q (λ _. refl)
          (λ m ne other. absurd (clash _ other (new m p ne own))))
      (λ n ne other.
        all_updated (λ m a. flies_at p a ≡ true → n ≡ m) producers i q
          (λ own. absurd (clash _ other (new n p ne own))) (λ m _. apart n m p other))
      j h l g

-- The consumer is at `p`.
abbrev pub holds_at : ℕ → Consumer → Bool
holds_at p (found q) = p == q
holds_at p (taken q) = p == q
holds_at p resting = false

-- What the consumer relies on after a step of a producer.
pub takes_kept :
    (k head tail head' : ℕ) (cells cells' : Cells) (log log' : ℕ → ℕ) (c : Consumer)
    → head ≤ head'
    → ((p : ℕ) → holds_at p c ≡ true → (cells' (slot k p) ≡ cells (slot k p)) × (log' p ≡ log p))
    → Takes k head tail cells log c
    → Takes k head' tail cells' log' c
takes_kept k head tail head' cells cells' log log' resting more same t = tt
takes_kept k head tail head' cells cells' log log' (found p) more same (at, lt, cell) =
    let (c, l) = same p ((==_iff p p).1 refl) in
    (at, omega arith, c ∙ cell ∙ ap (λ x. record { sequence = p + 1; item = some x }) (sym l))
takes_kept k head tail head' cells cells' log log' (taken p) more same (at, seq) =
    let (c, l) = same p ((==_iff p p).1 refl) in (at, ap (λ d. d.sequence) c ∙ seq)

-- What a consumer with the cell of `p` tells.
pub record Held (k head tail : ℕ) (cells : Cells) (first p : ℕ) : Type 0 where
  pub at_first : first ≡ p
  pub within : p < head
  pub filled : (cells (slot k p)).sequence ≡ p + 1

pub held_of :
    (k head tail : ℕ) (cells : Cells) (log : ℕ → ℕ) (p : ℕ) (c : Consumer)
    → tail ≤ head
    → Takes k head tail cells log c
    → holds_at p c ≡ true
    → Held k head tail cells (low c tail) p
held_of k head tail cells log p resting le t h = cc
held_of k head tail cells log p (found q) le (a, b, d) h =
    subst (Held k head tail cells tail) (sym ((==_iff p q).0 h))
      (record { at_first = sym a; within = b; filled = ap (λ e. e.sequence) d })
held_of k head tail cells log p (taken q) le (a, b) h =
    subst (Held k head tail cells q) (sym ((==_iff p q).0 h))
      (record { at_first = refl; within = omega arith; filled = b })

pub low-le :
    (k head tail : ℕ) (cells : Cells) (log : ℕ → ℕ) (c : Consumer)
    → Takes k head tail cells log c
    → low c tail ≤ tail
low-le k head tail cells log resting t = omega arith
low-le k head tail cells log (found q) t = omega arith
low-le k head tail cells log (taken q) (a, b) = omega arith

-- What a producer in flight at `p` tells.
pub record Flight (k head tail : ℕ) (cells : Cells) (p : ℕ) : Type 0 where
  pub above : tail ≤ p
  pub below : p < head
  pub unpublished : (cells (slot k p)).sequence ≡ p

pub Flight-of :
    (k head tail limit : ℕ) (cells : Cells) (log : ℕ → ℕ) (p : ℕ) (a : Producer)
    → Relies k head tail limit cells log a
    → flies_at p a ≡ true
    → Flight k head tail cells p
Flight-of k head tail limit cells log p outside r h = cc
Flight-of k head tail limit cells log p (loaded q x) r h = cc
Flight-of k head tail limit cells log p (matched q x) r h = cc
Flight-of k head tail limit cells log p (claimed q x) (a, b, c, d) h =
    subst (Flight k head tail cells) (sym ((==_iff p q).0 h))
      (record { above = a; below = b; unpublished = c })
Flight-of k head tail limit cells log p (built q x) (a, b, c, d) h =
    subst (Flight k head tail cells) (sym ((==_iff p q).0 h))
      (record { above = a; below = b; unpublished = ap (λ e. e.sequence) c })

-- What a producer relies on after a step of another thread.
pub Relies-kept :
    (k : ℕ) (head tail limit head' tail' limit' : ℕ) (cells cells' : Cells) (log log' : ℕ → ℕ)
    (a : Producer)
    → head ≤ head'
    → limit ≤ limit'
    → ((p : ℕ)
        → flies_at p a ≡ true
        → tail ≤ p
        → p < head
        → (tail' ≤ p) × (cells' (slot k p) ≡ cells (slot k p)) × (log' p ≡ log p))
    → Relies k head tail limit cells log a
    → Relies k head' tail' limit' cells' log' a
Relies-kept k head tail limit head' tail' limit' cells cells' log log' outside more further same r =
    tt
Relies-kept k head tail limit head' tail' limit' cells cells' log log' (loaded p x) more further
      same r =
    omega arith
Relies-kept k head tail limit head' tail' limit' cells cells' log log' (matched p x) more further
      same r =
    (omega (arith, r.0), λ e. ground (arith, r))
Relies-kept k head tail limit head' tail' limit' cells cells' log log' (claimed p x) more further
      same (low_, high, seq, has) =
    let (t, c, l) = same p ((==_iff p p).1 refl) low_ high in
    (t, omega arith, ap (λ d. d.sequence) c ∙ seq, l ∙ has)
Relies-kept k head tail limit head' tail' limit' cells cells' log log' (built p x) more further same
      (low_, high, cell, has) =
    let (t, c, l) = same p ((==_iff p p).1 refl) low_ high in (t, omega arith, c ∙ cell, l ∙ has)
