-- ===== src/Kernel/Choosing.antt =====
-- The search of pin_thread_to_core for the least loaded core.
use mathlib.Core.List.{append_assoc, append-nil}
use co_rtos.Base.{
  ℕ, ◌+◌, ◌-◌, ◌^◌, ◌≤◌, ◌<◌, true, false, List, [], ◌∷◌, ◌++◌, ltb, ◌&&◌, if◌then◌else◌, length,
  length-append, All, ◌≡◌, refl, sym, ap, ◌∙◌, subst, inl, inr, Bool-cases, arith,
}
use co_rtos.Scheduler.{Scheduler}
use co_rtos.Kernel.{allows, Choice, no_choice, choose_from}

-- Of the cores from `core` on, each that the mask allows has the property.
abbrev pub Allowed : (Scheduler → Type 0) → ℕ → ℕ → List Scheduler → Type 0
Allowed P mask core [] = Unit
Allowed P mask core (s ∷ ss) = (allows mask core ≡ true → P s) × Allowed P mask (core + 1) ss

-- Every counter is below the start value of the search.
abbrev pub Bounded : List Scheduler → Type 0
Bounded ss = All (λ s. s.pinned_thread_counter < 2 ^ 32 - 1) ss

-- The first of the least loaded of the allowed cores.
pub record LeastLoaded (mask : ℕ) (ss : List Scheduler) (c : ℕ) (us : List Scheduler)
    (s : Scheduler) (vs : List Scheduler) : Type 0 where
  pub place : ss ≡ us ++ s ∷ vs
  pub index : c ≡ length us
  pub allowed : allows mask c ≡ true
  pub less : Allowed (λ x. s.pinned_thread_counter < x.pinned_thread_counter) mask 0 us
  pub least : Allowed (λ x. s.pinned_thread_counter ≤ x.pinned_thread_counter) mask (c + 1) vs

pub data Search (mask : ℕ) (ss : List Scheduler) (c : Choice) : Type 0 where
  nothing : c ≡ no_choice → Allowed (λ x. ⊥) mask 0 ss → Search mask ss c
  best :
      (us vs : List Scheduler) (s : Scheduler)
      → c.found ≡ true
      → c.best_load ≡ s.pinned_thread_counter
      → LeastLoaded mask ss c.best_core us s vs
      → Search mask ss c

Allowed-append :
    (P : Scheduler → Type 0) (mask core : ℕ) (xs ys : List Scheduler)
    → Allowed P mask core xs
    → Allowed P mask (core + length xs) ys
    → Allowed P mask core (xs ++ ys)
Allowed-append P mask core [] ys h k = subst (λ n. Allowed P mask n ys) (omega arith) k
Allowed-append P mask core (x ∷ xs) ys h k = (
  h.0,
  Allowed-append P mask (core + 1) xs ys h.1 (subst (λ n. Allowed P mask n ys) (omega arith) k),
)

Allowed-map :
    (P Q : Scheduler → Type 0)
    → ((s : Scheduler) → P s → Q s)
    → (mask core : ℕ) (xs : List Scheduler) → Allowed P mask core xs
    → Allowed Q mask core xs
Allowed-map P Q f mask core [] h = tt
Allowed-map P Q f mask core (x ∷ xs) h =
    ((λ a. f x (h.0 a)), Allowed-map P Q f mask (core + 1) xs h.1)

skip-Search :
    (mask : ℕ) (xs : List Scheduler) (s : Scheduler) (c : Choice)
    → Search mask xs c
    → (allows mask (length xs) ≡ true → (c.found ≡ true) × (c.best_load ≤ s.pinned_thread_counter))
    → Search mask (xs ++ s ∷ []) c
skip-Search mask xs s c (nothing e all) worse = nothing e (
    Allowed-append _ mask 0 xs (s ∷ []) all (
      (λ a.
          not_found (ap (λ x. x.found) e)
            (worse (subst (λ n. allows mask n ≡ true) from_zero a)).0),
      tt,
    ))
  where
    from_zero : 0 + length xs ≡ length xs
    from_zero = omega arith

    not_found : c.found ≡ false → c.found ≡ true → ⊥
    not_found f t = cc
skip-Search mask xs s c (best us vs b f l h) worse = best us (vs ++ s ∷ []) b f l (record {
  place = ap (λ z. z ++ s ∷ []) h.place ∙ append_assoc us (b ∷ vs) (s ∷ []);
  index = h.index;
  allowed = h.allowed;
  less = h.less;
  least =
      Allowed-append _ mask (c.best_core + 1) vs (s ∷ []) h.least
        ((λ a. omega (arith, l, (worse (subst (λ n. allows mask n ≡ true) (sym here) a)).1)), tt);
})
  where
    here : length xs ≡ c.best_core + 1 + length vs
    here = ap length h.place ∙ omega (arith, length-append us (b ∷ vs), h.index)

less_all :
    (mask : ℕ) (s b : Scheduler) (c : ℕ) (us vs : List Scheduler)
    → c ≡ length us
    → s.pinned_thread_counter < b.pinned_thread_counter
    → Allowed (λ x. b.pinned_thread_counter < x.pinned_thread_counter) mask 0 us
    → Allowed (λ x. b.pinned_thread_counter ≤ x.pinned_thread_counter) mask (c + 1) vs
    → Allowed (λ x. s.pinned_thread_counter < x.pinned_thread_counter) mask 0 (us ++ b ∷ vs)
less_all mask s b c us vs at lt before after =
    let on : c + 1 ≡ 0 + length us + 1 = omega (arith, at) in
    Allowed-append _ mask 0 us (b ∷ vs)
      (Allowed-map (λ x. b.pinned_thread_counter < x.pinned_thread_counter)
        (λ x. s.pinned_thread_counter < x.pinned_thread_counter) (λ x h. omega (arith, h, lt)) mask
        0 us before)
      (
        (λ a. lt),
        subst (λ n. Allowed (λ x. s.pinned_thread_counter < x.pinned_thread_counter) mask n vs) on
            (Allowed-map (λ x. b.pinned_thread_counter ≤ x.pinned_thread_counter)
              (λ x. s.pinned_thread_counter < x.pinned_thread_counter) (λ x h. omega (arith, h, lt))
              mask (c + 1) vs after),
      )

take-Search :
    (mask : ℕ) (xs : List Scheduler) (s : Scheduler) (c : Choice)
    → Search mask xs c
    → allows mask (length xs) ≡ true
    → s.pinned_thread_counter < c.best_load
    → Search mask
        (xs ++ s ∷ [])
        (record { best_core = length xs; best_load = s.pinned_thread_counter; found = true })
take-Search mask xs s c h ok lt =
    best xs [] s refl refl
      (record { place = refl; index = refl; allowed = ok; less = less h; least = tt })
  where
    less :
        Search mask xs c
        → Allowed (λ x. s.pinned_thread_counter < x.pinned_thread_counter) mask 0 xs
    less (nothing e all) = Allowed-map _ _ (λ x no. absurd no) mask 0 xs all
    less (best us vs b f l h) =
        subst (Allowed _ mask 0) (sym h.place)
          (less_all mask s b c.best_core us vs h.index (omega (arith, l, lt)) h.less h.least)

step-Search :
    (mask core : ℕ) (xs : List Scheduler) (s : Scheduler) (c : Choice)
    → core ≡ length xs
    → s.pinned_thread_counter < 2 ^ 32 - 1
    → Search mask xs c
    → Search mask (xs ++ s ∷ []) (
        if allows mask core && ltb s.pinned_thread_counter c.best_load
        then record { best_core = core; best_load = s.pinned_thread_counter; found = true }
        else c)
step-Search mask core xs s c at bounded h =
    subst
      (λ n. Search mask (xs ++ s ∷ []) (
        if allows mask n && ltb s.pinned_thread_counter c.best_load
        then record { best_core = n; best_load = s.pinned_thread_counter; found = true }
        else c))
      (sym at)
      (elim (Bool-cases (allows mask (length xs))) [
        | inl ok ↦ elim (Bool-cases (ltb s.pinned_thread_counter c.best_load)) [
          | inl lt ↦ rw (ok, lt) (take-Search mask xs s c h ok (ground arith))
          | inr ge ↦
              rw (ok, ge) (skip-Search mask xs s c h (λ a. (found h (ground arith), ground arith)))
        ]
        | inr barred ↦ rw barred (skip-Search mask xs s c h (λ a. absurd (cc)))
      ])
  where
    found : Search mask xs c → c.best_load ≤ s.pinned_thread_counter → c.found ≡ true
    found (nothing e all) le = absurd (omega (arith, le, bounded, ap (λ x. x.best_load) e))
    found (best us vs b f l h) le = f

pub choose_from-Search :
    (mask core : ℕ) (xs ss : List Scheduler) (c : Choice)
    → core ≡ length xs
    → Bounded ss
    → Search mask xs c
    → Search mask (xs ++ ss) (choose_from mask core ss c)
unfolding choose_from
choose_from-Search mask core xs [] c at bounded h =
    subst (λ l. Search mask l c) (sym (append-nil xs)) h
choose_from-Search mask core xs (s ∷ ss) c at bounded h =
    subst (λ l. Search mask l (choose_from mask core (s ∷ ss) c)) (append_assoc xs (s ∷ []) ss)
      (choose_from-Search mask (core + 1) (xs ++ s ∷ []) ss _
        (omega (arith, at, length-append xs (s ∷ []))) bounded.1
        (step-Search mask core xs s c at bounded.0 h))
